-- ===== src/Cintas/Escaner/Tests.antt =====
-- Runs of small belts of the scanners, and the theorems at them.
use aeropuerto.Base.{ℕ, ◌<◌, ◌≡◌, ◌≢◌, refl, subst, [], ◌∷◌, ◌++◌, true, some, arith}
use aeropuerto.Cintas.Escaner.{
  con_lugar, CintaEscaner, CintaScanner, en, buscar_cinta, elegir_con_lock, elegir_cinta, agregar,
  colocar, quitar, ceder, liberar, sacar_con_lock, sacar_equipaje,
}
use aeropuerto.Cintas.Escaner.Invariante.{EsValida, equipajes}
use aeropuerto.Cintas.Escaner.Alta.{
  inicializar_estructuras, inicializar_estructuras-EsValida, activar, activar-EsValida,
}
use aeropuerto.Cintas.Escaner.Eleccion.{elegir_cinta_lem}
use aeropuerto.Cintas.Escaner.Servicio.{
  Servicio, inicio, activa, elige, coloca, saca, Servicio-elegir_avanza,
}
use aeropuerto.Cintas.Escaner.Reparto.{colocar_reparte}
use aeropuerto.Cintas.Escaner.Retiro.{Retiro, sacar_reparte}

-- Four belts for two pieces each, and scanner 1 alone (index 1) is there.
abbrev nueva : CintaScanner ℕ
nueva = inicializar_estructuras 2 0

nueva-EsValida : EsValida nueva
nueva-EsValida = inicializar_estructuras-EsValida 2 0 (omega arith)

abbrev uno : CintaScanner ℕ
uno = record nueva { cinta_llena = en nueva.cinta_llena 1 con_lugar }

activar_uno : activar 1 nueva ≡ uno
unfolding activar
activar_uno = refl

uno-EsValida : EsValida uno
uno-EsValida =
    subst EsValida activar_uno (activar-EsValida nueva nueva-EsValida 1 (λ e. omega arith)).0

-- The producer has chosen belt 1.
abbrev elegida : CintaScanner ℕ
elegida = record uno { semaforo_productor = 0; proxima_cinta_a_colocar = 1; eligio = true }

elegir_uno : elegir_cinta uno ≡ some elegida
unfolding elegir_cinta elegir_con_lock buscar_cinta
elegir_uno = refl

abbrev con_siete : CintaEscaner ℕ
con_siete = record (nueva.cintas 1) {
  posicion_libre = 1;
  cantidad_elementos = 1;
  vector_elementos = 7 ∷ 0 ∷ [];
}

abbrev puesta : CintaScanner ℕ
puesta = record uno { cintas = en nueva.cintas 1 con_siete; proxima_cinta_a_colocar = 2 }

colocar_siete : colocar 7 elegida ≡ puesta
unfolding colocar agregar
colocar_siete = refl

abbrev sacada : CintaScanner ℕ
sacada = record puesta {
  cintas = en puesta.cintas 1 (record con_siete {
    posicion_ocupada = 1;
    cantidad_elementos = 0;
    consumidor_esperando = 1;
    semaforo = 0;
  });
}

sacar_siete : sacar_equipaje 0 1 puesta ≡ some (sacada, some 7)
unfolding sacar_equipaje sacar_con_lock quitar ceder liberar
sacar_siete = refl

elegida-EsValida : EsValida elegida
elegida-EsValida = (elegir_cinta_lem uno uno-EsValida refl elegir_uno).0

puesta-EsValida : EsValida puesta
puesta-EsValida = subst EsValida colocar_siete (colocar_reparte 0 7 elegida elegida-EsValida refl).0

colocar_reparte_example :
    EsValida (colocar 7 elegida)
    × (equipajes 0 ((colocar 7 elegida).cintas 1) ≡ equipajes 0 (elegida.cintas 1) ++ 7 ∷ [])
    × ((k : ℕ) → k ≢ 1 → (colocar 7 elegida).cintas k ≡ elegida.cintas k)
colocar_reparte_example = colocar_reparte 0 7 elegida elegida-EsValida refl

sacar_reparte_example : Retiro 0 puesta 1 sacada (some 7)
sacar_reparte_example = sacar_reparte 0 puesta 1 puesta-EsValida (omega arith) sacar_siete

-- Scanner 1 starts, and the producer chooses its belt, places a 7 there and the scanner takes it.
servida : Servicio 0 2 sacada
servida =
    saca
      (subst (Servicio 0 2) colocar_siete (
        coloca
          (elige (subst (Servicio 0 2) activar_uno (activa inicio 1 (omega arith))) refl elegir_uno)
          7 refl))
      1 (some 7) (omega arith) sacar_siete

Servicio-elegir_avanza_example :
    (s' : CintaScanner ℕ) × (elegir_cinta sacada ≡ some s')
    × (s'.eligio ≡ true)
    × let p = s'.proxima_cinta_a_colocar in
      ((sacada.cintas p).cantidad_elementos < (sacada.cintas p).tamanio_vector)
      × (equipajes 0 ((colocar 8 s').cintas p) ≡ equipajes 0 (sacada.cintas p) ++ 8 ∷ [])
Servicio-elegir_avanza_example =
    Servicio-elegir_avanza 0 2 (omega arith) 8 1 servida refl (omega arith) refl (omega arith)
