-- ===== src/Contenedor/Tests.antt =====
-- A container that takes a piece.
use aeropuerto.Base.{List, [], ◌∷◌, some, refl, ◌≡◌}
use aeropuerto.Contenedor.{
  Equipaje, Contenedor, contenedor_vacio, agregar_equipaje, hay_lugar, get_rfids,
}
use aeropuerto.Contenedor.Tractores.{
  TrasEnvio, enviar_contenedores_a_avion, enviar_contenedores_a_avion_lem,
}
use aeropuerto.Contenedor.Carga.{TrasAgregar, contenedor_vacio-EsContenedor, agregar_equipaje_lem}

abbrev valija : Equipaje
valija = record { rfid = 7; peso = 23 }

agregar_valija :
    (c : Contenedor) × (agregar_equipaje valija contenedor_vacio ≡ some c) × (get_rfids c ≡ 7 ∷ [])
unfolding agregar_equipaje hay_lugar
agregar_valija = (_, refl, refl)

agregar_equipaje_lem_example :
    TrasAgregar valija contenedor_vacio (agregar_equipaje valija contenedor_vacio)
agregar_equipaje_lem_example =
    agregar_equipaje_lem valija contenedor_vacio contenedor_vacio-EsContenedor

abbrev cargados : List Contenedor
cargados = contenedor_vacio ∷ contenedor_vacio ∷ []

enviar_contenedores_a_avion_lem_example :
    TrasEnvio cargados (enviar_contenedores_a_avion 5 cargados)
enviar_contenedores_a_avion_lem_example = enviar_contenedores_a_avion_lem 5 cargados
