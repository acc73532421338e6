-- ===== src/Multiplexer/Reparto.antt =====
-- Where a message goes that is not of the kind LEADER.
use aeropuerto.Base.{
  ℕ, ◌+◌, ◌-◌, ◌<◌, ◌≡◌, ◌∙◌, refl, sym, ap, List, [], ◌∷◌, ◌++◌, false, Option, none, some, get_or,
  length, Bool-cases, Option-cases, ◌⊎◌, inl, inr, arith, some_ne_none, some-injective,
}
use aeropuerto.Grupo.{Nombre, max_nombre_recurso}
use aeropuerto.Init.{cmp}
use aeropuerto.Init.Constantes.{cmp-eq}
use aeropuerto.Multiplexer.{
  Multiplexer, Paquete, buscar_desde, signalize_mutex, es_leader, buscar_en, averiguar,
  forward_message,
}
use aeropuerto.Multiplexer.Registro.{buscar_desde-get_or}

-- The numbers in the map are those of the table.
abbrev pub EsCache : List Nombre → List (Nombre × ℕ) → Type 0
EsCache names grupos =
    (nombre : Nombre) (k : ℕ)
    → length nombre < max_nombre_recurso
    → buscar_en nombre grupos ≡ some k
    → buscar_desde 0 nombre names ≡ some k

buscar_en-append :
    (nombre x : Nombre) (v k : ℕ) (grupos : List (Nombre × ℕ))
    → buscar_en nombre (grupos ++ (x, v) ∷ []) ≡ some k
    → (buscar_en nombre grupos ≡ some k) ⊎ ((nombre ≡ x) × (v ≡ k))
buscar_en-append nombre x v k [] h = elim (Bool-cases (cmp nombre x)) [
  | inl c ↦
      let e : buscar_en nombre ((x, v) ∷ []) ≡ some v = rw c refl in
      inr (cmp-eq nombre x c, some-injective (sym e ∙ h))
  | inr c ↦
      let e : buscar_en nombre ((x, v) ∷ []) ≡ none = rw c refl in absurd (some_ne_none (sym h ∙ e))
]
buscar_en-append nombre x v k ((y, w) ∷ grupos) h =
    let r = buscar_en-append nombre x v k grupos in
    elim (Bool-cases (cmp nombre y)) [
      | inl c ↦
          let e : buscar_en nombre (((y, w) ∷ grupos) ++ (x, v) ∷ []) ≡ some w = rw c refl in
          inl (rw c (sym e ∙ h))
      | inr c ↦
          let e : buscar_en nombre (((y, w) ∷ grupos) ++ (x, v) ∷ [])
              ≡ buscar_en nombre (grupos ++ (x, v) ∷ []) =
            rw c refl in
          elim (r (sym e ∙ h)) [ inl a ↦ inl (rw c a) | inr b ↦ inr b ]
    ]

EsCache-append :
    (names : List Nombre) (grupos : List (Nombre × ℕ)) (nombre : Nombre) (v : ℕ)
    → length nombre < max_nombre_recurso
    → EsCache names grupos
    → buscar_desde 0 nombre names ≡ some v
    → EsCache names (grupos ++ (get_or names (v - 1) [], v) ∷ [])
EsCache-append names grupos nombre v l c e otro k m h =
    let x = get_or names (v - 1) [] in
    elim (buscar_en-append otro x v k grupos h) [
      | inl a ↦ c otro k m a
      | inr (a, b) ↦
          let n : x ≡ nombre =
            ap (λ j. get_or names j []) {x = v - 1} {y = v - 1 - 0} (omega arith)
            ∙ (buscar_desde-get_or 0 nombre names l e).1 in
          ap (λ n. buscar_desde 0 n names) (a ∙ n) ∙ e ∙ ap some b
    ]

-- The message at the head of the queue, `p`, is handed out, and `ps` wait behind it.
abbrev pub Entregado : Paquete → List Paquete → Multiplexer → Multiplexer → Option ℕ → Type 0
Entregado p ps s s' none =
    (s'.interfaz_grupos ≡ ps ++ p ∷ []) × (s'.cola_espera_grupos ≡ s.cola_espera_grupos)
Entregado p ps s s' (some k) =
    (s'.interfaz_grupos ≡ ps)
    × (s'.cola_espera_grupos ≡ s.cola_espera_grupos ++ record { mtype = k; contenido = p } ∷ [])

abbrev pub TrasForward : Paquete → List Paquete → Multiplexer → Option Multiplexer → Type 0
TrasForward p ps s none = ⊥
TrasForward p ps s (some s') =
    Entregado p ps s s' (buscar_desde 0 p.nombre_grupo s.grupos_creados)
    × (s'.grupos_creados ≡ s.grupos_creados)
    × EsCache s'.grupos_creados s'.grupos
    × ((elim (buscar_en p.nombre_grupo s.grupos) [ none ↦ s.mutex + 2 | some k ↦ s.mutex ])
        ≡ s'.mutex)

-- A message that is not of the kind LEADER, of a group whose name fits, goes to the queue of the number
-- that its group has in the table, behind the others there, or back to the end of the queue it came
-- from if the group has none. The table stays as it is, the map stays right, and the mutex ends higher
-- by two exactly if the group was not in the map.
pub forward_message_lem :
    (p : Paquete) (ps : List Paquete) (s : Multiplexer)
    → s.interfaz_grupos ≡ p ∷ ps
    → es_leader p.mensaje.tipo ≡ false
    → length p.nombre_grupo < max_nombre_recurso
    → EsCache s.grupos_creados s.grupos
    → TrasForward p ps s (forward_message s)
unfolding forward_message averiguar signalize_mutex
forward_message_lem p ps s q t l c = elim (Option-cases (buscar_en p.nombre_grupo s.grupos)) [
  | inr (k, known) ↦
      let e = c p.nombre_grupo k l known in
      rw (forward_message, q, t, averiguar, known) (rw e ((refl, refl), refl, c, refl))
  | inl unknown ↦ elim (Option-cases (buscar_desde 0 p.nombre_grupo s.grupos_creados)) [
    | inl without ↦
        rw (forward_message, q, t, averiguar, unknown, without) ((refl, refl), refl, c, omega arith)
    | inr (k, e) ↦
        rw (forward_message, q, t, averiguar, unknown, e)
          (
            (refl, refl),
            refl,
            EsCache-append s.grupos_creados s.grupos p.nombre_grupo k l c e,
            omega arith,
          )
  ]
]
