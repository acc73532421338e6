-- ===== src/Cintas/Despachante/Tests.antt =====
-- A despachante at a small central belt, and the theorems at him.
use aeropuerto.Base.{ℕ, ◌≡◌, refl, [], ◌∷◌, true, false, some, arith, wait_on, signalize}
use aeropuerto.Cintas.Lado.{esperar_turno, dar_turno}
use aeropuerto.Cintas.Principal.{
  CintaPrincipal, cinta_inicial, colocar_elemento, colocar_con_lock, colocar, ceder_productor,
  leer_elemento, leer_con_lock,
}
use aeropuerto.Cintas.Principal.Invariante.{cinta_inicial-EsValida, equipajes}
use aeropuerto.Cintas.Principal.Pasadas.{colocar_elemento_lem}
use aeropuerto.Cintas.Despachante.{Despachante, avanzar_cinta, leer_proximo_equipaje}
use aeropuerto.Cintas.Despachante.Manos.{
  EnManos, avanzar_cinta-EnManos, leer_proximo_equipaje-EnManos,
}

-- The first despachante, before and after he has noted a 7.
abbrev libre : Despachante ℕ
libre = record { numero_despachante = 1; saco_elemento = true; ultimo_equipaje_leido = 0 }

abbrev ocupado : Despachante ℕ
ocupado = record { numero_despachante = 1; saco_elemento = false; ultimo_equipaje_leido = 7 }

-- A belt for two pieces, for two producers and two consumers, on which a 7 lies.
abbrev vacia : CintaPrincipal ℕ
vacia = cinta_inicial 2 2 1 0

abbrev con_siete : CintaPrincipal ℕ
con_siete = record vacia {
  posicion_libre = 1;
  cantidad_elementos = 1;
  vector_elementos = 7 ∷ 0 ∷ [];
}

-- The same while the first consumer has the turn.
abbrev tomada : CintaPrincipal ℕ
tomada = record con_siete { semaforo_consumidores = 0 ∷ 0 ∷ [] }

poner_siete : colocar_elemento 7 1 vacia ≡ some (con_siete, true)
unfolding colocar_elemento esperar_turno wait_on colocar_con_lock colocar ceder_productor dar_turno
    signalize
poner_siete = refl

leer_siete : leer_proximo_equipaje 0 libre con_siete ≡ some (ocupado, tomada)
unfolding leer_proximo_equipaje leer_elemento wait_on leer_con_lock
leer_siete = refl

libre-EnManos : EnManos 0 (libre, con_siete)
libre-EnManos =
    (colocar_elemento_lem 0 vacia (cinta_inicial-EsValida 2 2 1 0 (omega arith)) 7 1 (omega arith)
      (omega arith) poner_siete).0

ocupado-EnManos : EnManos 0 (ocupado, tomada)
ocupado-EnManos =
    (leer_proximo_equipaje-EnManos 0 libre con_siete libre-EnManos refl (omega arith) (omega arith)
      leer_siete).0

avanzar_cinta-EnManos_example :
    let r = avanzar_cinta ocupado tomada in
    EnManos 0 r × (r.0.saco_elemento ≡ true) × (equipajes 0 r.1 ≡ equipajes 0 tomada)
avanzar_cinta-EnManos_example = avanzar_cinta-EnManos 0 ocupado tomada ocupado-EnManos
