-- ===== src/Contenedor/Tractores.antt =====
-- The containers of a flight go to the tractors: `ApiCarga::enviar_contenedores_a_avion` of
-- api/api_carga.h.
use aeropuerto.Base.{
  ℕ, zero, suc, ◌+◌, ◌*◌, ◌/◌, ◌%◌, ◌≤◌, ◌≡◌, ◌∙◌, refl, sym, ap, List, [], ◌∷◌, ◌++◌, Option, none,
  some, ◌>>=◌, if◌then◌else◌, ltb, length, drop, arith,
}
use aeropuerto.Contenedor.{Contenedor}
use aeropuerto.Transferencia.Copia.{drop-drop}

abbrev pub max_contenedores_por_tractor : ℕ
max_contenedores_por_tractor = 2

pub record BloqueContenedores : Type 0 where
  pub cantidad_total_contenedores : ℕ
  pub vuelo_destino : ℕ
  pub contenedores_actual : ℕ
  pub contenedores : List Contenedor

-- `contenedores [i]`, which is `none` outside of the vector.
abbrev pub elemento : List Contenedor → ℕ → Option Contenedor
elemento [] i = none
elemento (c ∷ cs) zero = some c
elemento (c ∷ cs) (suc i) = elemento cs i

-- The inner loop from position `i` of the vector on.
abbrev pub llenar : (faltan i : ℕ) → List Contenedor → Option (List Contenedor)
llenar zero i cs = some []
llenar (suc faltan) i cs = elemento cs i >>= λ c. llenar faltan (i + 1) cs >>= λ bs. some (c ∷ bs)

-- The outer loop from block `i` on.
abbrev pub enviar_desde :
    (bloques i numero_de_vuelo : ℕ) → List Contenedor → Option (List BloqueContenedores)
enviar_desde zero i numero_de_vuelo cs = some []
enviar_desde (suc bloques) i numero_de_vuelo cs =
    llenar max_contenedores_por_tractor (i * max_contenedores_por_tractor) cs >>= λ b.
    enviar_desde bloques (i + 1) numero_de_vuelo cs >>= λ bs. some (
      record {
        cantidad_total_contenedores = length cs;
        vuelo_destino = numero_de_vuelo;
        contenedores_actual = max_contenedores_por_tractor;
        contenedores = b;
      }
      ∷ bs)

unfoldable pub cant_bloques : ℕ → ℕ
cant_bloques total =
    let enteros = total / max_contenedores_por_tractor in
    if ltb (enteros * max_contenedores_por_tractor) total then enteros + 1 else enteros

-- The blocks that it pushes; the vector is empty afterwards.
unfoldable pub enviar_contenedores_a_avion :
    (numero_de_vuelo : ℕ) → List Contenedor → Option (List BloqueContenedores)
enviar_contenedores_a_avion numero_de_vuelo cs =
    enviar_desde (cant_bloques (length cs)) 0 numero_de_vuelo cs

abbrev pub de_los_bloques : List BloqueContenedores → List Contenedor
de_los_bloques [] = []
de_los_bloques (b ∷ bs) = b.contenedores ++ de_los_bloques bs

-- The blocks that are sent are full and hold these containers, in order; nothing outside of the vector
-- is read exactly if their number is even.
abbrev pub TrasEnvio : List Contenedor → Option (List BloqueContenedores) → Type 0
TrasEnvio cs none = length cs % 2 ≡ 1
TrasEnvio cs (some bs) =
    (length cs % 2 ≡ 0) × (de_los_bloques bs ≡ cs) × (2 * length bs ≡ length cs)

elemento-drop : (i : ℕ) (cs : List Contenedor) → elemento cs i ≡ elemento (drop i cs) 0
elemento-drop zero [] = refl
elemento-drop zero (c ∷ cs) = refl
elemento-drop (suc i) [] = refl
elemento-drop (suc i) (c ∷ cs) = elemento-drop i cs

TrasEnvio-cons :
    (x y : Contenedor) (cs : List Contenedor) (b : BloqueContenedores)
    (o : Option (List BloqueContenedores))
    → b.contenedores ≡ x ∷ y ∷ []
    → TrasEnvio cs o
    → TrasEnvio (x ∷ y ∷ cs) (o >>= λ bs. some (b ∷ bs))
TrasEnvio-cons x y cs b none e v = omega arith
TrasEnvio-cons x y cs b (some bs) e (v, w, l) =
    (omega arith, ap (λ c. c ++ de_los_bloques bs) e ∙ ap (λ c. x ∷ y ∷ c) w, omega arith)

enviar_desde_lem :
    (bloques i vuelo : ℕ) (cs resto : List Contenedor)
    → drop (i * 2) cs ≡ resto
    → length resto ≤ 2 * bloques
    → 2 * bloques ≤ length resto + 1
    → TrasEnvio resto (enviar_desde bloques i vuelo cs)
enviar_desde_lem zero i vuelo cs [] d h k = (omega arith, refl, omega arith)
enviar_desde_lem zero i vuelo cs (x ∷ resto) d h k = absurd (omega arith)
enviar_desde_lem (suc bloques) i vuelo cs [] d h k = absurd (omega arith)
enviar_desde_lem (suc bloques) i vuelo cs (x ∷ []) d h k =
    let e = elemento-drop (i * 2) cs ∙ ap (λ l. elemento l 0) d in
    let f =
      elemento-drop (i * 2 + 1) cs
      ∙ ap (λ l. elemento l 0) (sym (drop-drop (i * 2) 1 cs) ∙ ap (drop 1) d) in
    rw (e, f) (omega arith)
enviar_desde_lem (suc bloques) i vuelo cs (x ∷ y ∷ resto) d h k =
    let e = elemento-drop (i * 2) cs ∙ ap (λ l. elemento l 0) d in
    let f =
      elemento-drop (i * 2 + 1) cs
      ∙ ap (λ l. elemento l 0) (sym (drop-drop (i * 2) 1 cs) ∙ ap (drop 1) d) in
    let d' =
      ap (λ n. drop n cs) {x = (i + 1) * 2} {y = i * 2 + 2} (omega arith)
      ∙ sym (drop-drop (i * 2) 2 cs)
      ∙ ap (drop 2) d in
    let r = enviar_desde_lem bloques (i + 1) vuelo cs resto d' (omega arith) (omega arith) in
    rw (e, f) (TrasEnvio-cons x y resto _ (enviar_desde bloques (i + 1) vuelo cs) refl r)

-- The containers go to the tractors in full blocks of two, each of them once and in order, if their
-- number is even; if it is odd the last block is filled from outside of the vector.
pub enviar_contenedores_a_avion_lem :
    (numero_de_vuelo : ℕ) (cs : List Contenedor)
    → TrasEnvio cs (enviar_contenedores_a_avion numero_de_vuelo cs)
unfolding enviar_contenedores_a_avion cant_bloques
enviar_contenedores_a_avion_lem vuelo cs =
    let n = length cs in
    let v : (n ≤ 2 * cant_bloques n) × (2 * cant_bloques n ≤ n + 1) = ground arith in
    enviar_desde_lem (cant_bloques n) 0 vuelo cs cs refl v.0 v.1
