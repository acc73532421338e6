-- ===== src/Grupos/Creacion.antt =====
-- What the creation of a group leaves in the table.
use aeropuerto.Base.{
  ℕ, zero, suc, ◌+◌, ◌-◌, ◌<◌, ◌≡◌, ◌∙◌, refl, sym, ap, subst, List, [], ◌∷◌, true, false, Option,
  none, some, if◌then◌else◌, get_or, set, take, length, length-set, get_or-set, set-get_or, arith,
  Bool-cases, Option-cases, inl, inr, wait_on, signalize, wait_on-eq-some, wait_on-eq-none,
  signalize-wait_on, some_ne_none, some-injective, true_ne_false,
}
use aeropuerto.Grupo.{Nombre, strncmp_igual, no_vacio, primero, max_nombre_recurso}
use aeropuerto.Grupo.Clientes.{primero-some}
use aeropuerto.Grupos.{
  Grupos, es_grupo, es_grupo_o_libre, existe_grupo, buscar_grupo, despertar_esperando,
  crear_con_lock, crear_grupo,
}

-- The semaphores once the waiting clients are woken.
despertar_esperando_lem :
    (n : ℕ) (s : List ℕ)
    → 1 < length s
    → (length (despertar_esperando n s) ≡ length s)
      × (get_or (despertar_esperando n s) 0 0 ≡ get_or s 0 0)
      × (get_or (despertar_esperando n s) 1 0 ≡ get_or s 1 0 + n)
unfolding signalize
despertar_esperando_lem zero s h = (refl, refl, omega arith)
despertar_esperando_lem (suc n) s h =
    let r = get_or s 1 0 + 1 in
    let l = length-set s 1 r in
    let (a, b, c) = despertar_esperando_lem n (signalize s 1) (omega (arith, l)) in
    (a ∙ l, b ∙ get_or-set s 1 0 r 0 h, omega (arith, c, get_or-set s 1 1 r 0 h))

strncmp_igual-take_right : (n : ℕ) (a : Nombre) → strncmp_igual n a (take n a) ≡ true
strncmp_igual-take_right zero a = refl
strncmp_igual-take_right (suc n) [] = refl
strncmp_igual-take_right (suc n) (x ∷ xs) = let r = strncmp_igual-take_right n xs in ground arith

-- A slot that the search for a group or a free slot passes over is not the group.
es_grupo-o_libre :
    (nombre n : Nombre) → es_grupo_o_libre nombre n ≡ false → es_grupo nombre n ≡ false
es_grupo-o_libre nombre [] h = refl
es_grupo-o_libre nombre (x ∷ xs) h = h

abbrev siguiente : Option ℕ → Option ℕ
siguiente o = elim o [ none ↦ none | some i ↦ some (suc i) ]

-- The search for a group stops where the search for it or for a free slot stops, once the group
-- stands there.
primero-set :
    (nombre v : Nombre) (xs : List Nombre) {i : ℕ}
    → primero (es_grupo_o_libre nombre) xs ≡ some i
    → es_grupo nombre v ≡ true
    → primero (es_grupo nombre) (set xs i v) ≡ some i
primero-set nombre v [] e k = absurd (some_ne_none (sym e))
primero-set nombre v (x ∷ xs) {i} e k = elim (Bool-cases (es_grupo_o_libre nombre x)) [
  | inl h ↦
      let p : primero (es_grupo_o_libre nombre) (x ∷ xs) ≡ some 0 = rw h refl in
      let q = some-injective (sym p ∙ e) in
      subst (λ i. primero (es_grupo nombre) (set (x ∷ xs) i v) ≡ some i) q (rw k refl)
  | inr h ↦ elim (Option-cases (primero (es_grupo_o_libre nombre) xs)) [
    | inl m ↦
        let p : primero (es_grupo_o_libre nombre) (x ∷ xs) ≡ none = rw (h, m) refl in
        absurd (some_ne_none (sym e ∙ p))
    | inr (j, m) ↦
        let p : primero (es_grupo_o_libre nombre) (x ∷ xs) ≡ some (suc j) = rw (h, m) refl in
        let q = some-injective (sym p ∙ e) in
        subst (λ i. primero (es_grupo nombre) (set (x ∷ xs) i v) ≡ some i) q
          (rw (es_grupo-o_libre nombre x h) (ap siguiente (primero-set nombre v xs m k)))
  ]
]

es_grupo-take :
    (nombre : Nombre)
    → no_vacio nombre ≡ true
    → es_grupo nombre (take max_nombre_recurso nombre) ≡ true
es_grupo-take [] h = absurd (true_ne_false (sym h))
es_grupo-take (x ∷ xs) h = strncmp_igual-take_right max_nombre_recurso (x ∷ xs)

-- The names once `nombre` has its slot `i`.
abbrev con_grupo : Nombre → ℕ → List Nombre → List Nombre
con_grupo nombre i xs =
    if no_vacio (get_or xs i []) then xs else set xs i (take max_nombre_recurso nombre)

primero-con_grupo :
    (nombre : Nombre) (xs : List Nombre) {i : ℕ}
    → no_vacio nombre ≡ true
    → primero (es_grupo_o_libre nombre) xs ≡ some i
    → primero (es_grupo nombre) (con_grupo nombre i xs) ≡ some i
primero-con_grupo nombre xs {i} h e = elim (Bool-cases (no_vacio (get_or xs i []))) [
  | inl full ↦
      let k : es_grupo nombre (get_or xs i []) ≡ true = rw full (
        subst (λ b. (if b then strncmp_igual 64 nombre (get_or xs i []) else true) ≡ true) full
          (primero-some (es_grupo_o_libre nombre) xs e).1) in
      rw full (
        subst (λ ys. primero (es_grupo nombre) ys ≡ some i) (set-get_or xs i [])
          (primero-set nombre (get_or xs i []) xs e k))
  | inr free ↦
      rw free (primero-set nombre (take max_nombre_recurso nombre) xs e (es_grupo-take nombre h))
]

-- What holds of the table and the position at the end of a creation.
abbrev pub TrasCrear : (tamanio_tabla_clientes : ℕ) → Nombre → ℕ → Grupos → Grupos × ℕ → Type 0
TrasCrear tamanio_tabla_clientes nombre tamanio t (t', i) =
    (buscar_grupo nombre t' ≡ some (t', some i))
    × (existe_grupo nombre t' ≡ some (t', true))
    × (get_or t'.semaforos 0 0 ≡ get_or t.semaforos 0 0)
    × (get_or t'.semaforos 1 0 ≡ get_or t.semaforos 1 0 + t.cantidad_clientes_esperando)
    × (t'.cantidad_clientes_esperando ≡ 0)
    × (i + 1 < length t.offsets
        → get_or t'.offsets (i + 1) 0 ≡ get_or t'.offsets i 0 + tamanio + tamanio_tabla_clientes)

-- With the guard free and the group there, the searches find it and leave the table.
buscar_grupo-con_grupo :
    (nombre : Nombre) (t : Grupos) {i : ℕ}
    → 0 < length t.semaforos
    → 0 < get_or t.semaforos 0 0
    → primero (es_grupo nombre) t.grupos_creados ≡ some i
    → (buscar_grupo nombre t ≡ some (t, some i)) × (existe_grupo nombre t ≡ some (t, true))
unfolding buscar_grupo existe_grupo
buscar_grupo-con_grupo nombre t {i} l h e = elim (Option-cases (wait_on t.semaforos 0)) [
  | inl waits ↦ absurd (omega (arith, wait_on-eq-none t.semaforos 0 waits))
  | inr (s, w) ↦
      rw (buscar_grupo, existe_grupo, w, e, signalize-wait_on t.semaforos 0 l w) (refl, refl)
]

-- The semaphores at the end of a creation.
abbrev al_final : ℕ → List ℕ → List ℕ
al_final n s = signalize (despertar_esperando n s) 0

al_final_lem :
    (n : ℕ) (s : List ℕ) {s' : List ℕ}
    → 1 < length s
    → wait_on s 0 ≡ some s'
    → (length (al_final n s') ≡ length s)
      × (get_or (al_final n s') 0 0 ≡ get_or s 0 0)
      × (get_or (al_final n s') 1 0 ≡ get_or s 1 0 + n)
unfolding signalize
al_final_lem n s {s'} l w =
    let (up, q) = wait_on-eq-some s 0 w in
    let x = get_or s 0 0 in
    let l' = ap length q ∙ length-set s 0 (x - 1) in
    let (a, b, c) = despertar_esperando_lem n s' (omega (arith, l')) in
    let d = despertar_esperando n s' in
    let y = get_or d 0 0 + 1 in
    let h : 0 < length s = omega arith in
    let hd : 0 < length d = omega (arith, a, l') in
    (
      length-set d 0 y ∙ a ∙ l',
      omega (
        arith,
        get_or-set d 0 0 y 0 hd,
        b,
        ap (λ s. get_or s 0 0) q,
        get_or-set s 0 0 (x - 1) 0 h,
      ),
      omega (
        arith,
        get_or-set d 0 1 y 0 hd,
        c,
        ap (λ s. get_or s 1 0) q,
        get_or-set s 0 1 (x - 1) 0 h,
      ),
    )

abbrev creada : ℕ → Nombre → ℕ → Grupos → List ℕ → ℕ → Grupos
creada tamanio_tabla_clientes nombre tamanio t s i = record {
  grupos_creados = con_grupo nombre i t.grupos_creados;
  semaforos = al_final t.cantidad_clientes_esperando s;
  cantidad_clientes_esperando = 0;
  offsets = set t.offsets (i + 1) (get_or t.offsets i 0 + tamanio + tamanio_tabla_clientes);
}

creada_lem :
    (tamanio_tabla_clientes : ℕ) (nombre : Nombre) (tamanio : ℕ) (t : Grupos) {s : List ℕ} {i : ℕ}
    → no_vacio nombre ≡ true
    → 1 < length t.semaforos
    → wait_on t.semaforos 0 ≡ some s
    → primero (es_grupo_o_libre nombre) t.grupos_creados ≡ some i
    → TrasCrear tamanio_tabla_clientes nombre tamanio t
        (creada tamanio_tabla_clientes nombre tamanio t s i, i)
creada_lem tamanio_tabla_clientes nombre tamanio t {s} {i} h l w m =
    let n = t.cantidad_clientes_esperando in
    let (a, b, c) = al_final_lem n t.semaforos l w in
    let up = (wait_on-eq-some t.semaforos 0 w).0 in
    let t' = creada tamanio_tabla_clientes nombre tamanio t s i in
    let z = get_or t.offsets i 0 + tamanio + tamanio_tabla_clientes in
    let (f, g) =
      buscar_grupo-con_grupo nombre t' (omega (arith, a)) (omega (arith, b))
        (primero-con_grupo nombre t.grupos_creados h m) in
    (
      f,
      g,
      b,
      c,
      refl,
      λ k.
          ground (
            arith,
            get_or-set t.offsets (i + 1) (i + 1) z 0 k,
            get_or-set t.offsets (i + 1) i z 0 k,
          ),
    )

-- After the creation of a group with a name that is not empty, when it does not wait and the table has
-- a slot for it, a pass that looks for the group finds the position of the creation, `existe_grupo`
-- answers yes, and neither changes the table; the guard is free as before, all who waited are woken,
-- nobody is noted as waiting, and the memory of the next group begins where that of this group ends,
-- if the table has a next one. The set has at least the two semaphores of the table.
pub crear_grupo_lem :
    (tamanio_tabla_clientes : ℕ) (nombre : Nombre) (tamanio : ℕ) (t : Grupos) {r : Grupos × ℕ}
    → no_vacio nombre ≡ true
    → 1 < length t.semaforos
    → crear_grupo tamanio_tabla_clientes nombre tamanio t ≡ some r
    → TrasCrear tamanio_tabla_clientes nombre tamanio t r
unfolding crear_grupo crear_con_lock
crear_grupo_lem tamanio_tabla_clientes nombre tamanio t {r} h l e =
    elim (Option-cases (wait_on t.semaforos 0)) [
      | inl waits ↦
          let k : crear_grupo tamanio_tabla_clientes nombre tamanio t ≡ none =
            rw (crear_grupo, waits) refl in
          absurd (some_ne_none (sym e ∙ k))
      | inr (s, w) ↦ elim (Option-cases (primero (es_grupo_o_libre nombre) t.grupos_creados)) [
        | inl m ↦
            let k : crear_grupo tamanio_tabla_clientes nombre tamanio t ≡ none =
              rw (crear_grupo, w, crear_con_lock, m) refl in
            absurd (some_ne_none (sym e ∙ k))
        | inr (i, m) ↦
            let t' = creada tamanio_tabla_clientes nombre tamanio t s i in
            let k : crear_grupo tamanio_tabla_clientes nombre tamanio t ≡ some (t', i) =
              rw (crear_grupo, w, crear_con_lock, m) refl in
            subst (TrasCrear tamanio_tabla_clientes nombre tamanio t) (some-injective (sym k ∙ e))
              (creada_lem tamanio_tabla_clientes nombre tamanio t h l w m)
      ]
    ]
