-- ===== src/Reconexion/Tests.antt =====
-- Three brokers of which one can be reached.
use aeropuerto.Base.{ℕ, ◌≡◌, refl, Bool, true, false, ◌==◌, arith}
use aeropuerto.Reconexion.{conectado_a, sigue, reconectar}
use aeropuerto.Reconexion.Primera.{TrasPrimera, reconectar_primera}
use aeropuerto.Reconexion.Otra.{reconectar-sigue}

abbrev solo_el_2 : (intento broker : ℕ) → Bool
solo_el_2 intento broker = broker == 2

conectado : reconectar solo_el_2 3 3 false 0 ≡ conectado_a 2
unfolding reconectar
conectado = refl

reconectar_primera_example : TrasPrimera solo_el_2 3 0 (reconectar solo_el_2 3 3 false 0)
reconectar_primera_example = reconectar_primera solo_el_2 3 0 (omega arith)

reconectar-sigue_example : reconectar solo_el_2 3 1000 true 0 ≡ sigue
reconectar-sigue_example =
    reconectar-sigue solo_el_2 3 0 (omega arith) (omega arith) (λ intento. refl) (λ intento. refl)
      1000
