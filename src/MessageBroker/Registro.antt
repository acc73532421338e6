-- ===== src/MessageBroker/Registro.antt =====
-- The table as a map from identifiers to numbers of queues.
use aeropuerto.Base.{
  ℕ, ◌+◌, ◌*◌, drop, ◌≤◌, ◌<◌, ◌≡◌, ◌≢◌, ◌⊎◌, ◌∙◌, refl, sym, ap, subst, [], ◌∷◌, Bool, true, false,
  not, Option, none, some, if◌then◌else◌, get_or, set, length, arith, Bool-cases, Option-cases, inl,
  inr, true_ne_false, ltb, not_eq_true, lt→ltb, set-get_or, set-set_self,
}
use aeropuerto.Grupo.{Nombre, no_vacio, primero}
use aeropuerto.Grupo.Clientes.{primero-some, primero-none}
use aeropuerto.MessageBroker.{
  Colas, max_colas, max_queue_id, strcmp_igual, Resultado, ok, pisa, pisar, lanza, desborda,
  es_indice, allocate_queue_id, get_proj_id, exist_queue, deallocate_queue_id, create_queue,
}
use aeropuerto.MessageBroker.Pisada.{pisar-antes, pisar-desde, pisar-tras}
use aeropuerto.MessageBroker.Tabla.{
  primero-set_otro, primero-set_nuevo, strcmp_igual_refl, strcmp_igual-eq,
}

-- The entry `i` is the first that is free.
abbrev pub PrimeraLibre : Colas → ℕ → Type 0
PrimeraLibre t i =
    (i < length t)
    × (no_vacio (get_or t i []) ≡ false)
    × ((j : ℕ) → j < i → no_vacio (get_or t j []) ≡ true)

-- What `allocate_queue_id` comes to.
abbrev pub TrasAllocate : Nombre → Colas → Resultado → Type 0
TrasAllocate queue_id t (ok t' i) =
    PrimeraLibre t i × (i < 128) × (length queue_id < max_queue_id) × (t' ≡ set t i queue_id)
TrasAllocate queue_id t (pisa t' i) =
    PrimeraLibre t i
    × (i < 128)
    × (max_queue_id ≤ length queue_id)
    × (i * max_queue_id + length queue_id < max_colas * max_queue_id)
    × ((j : ℕ) → j < i → get_or t' j [] ≡ get_or t j [])
    × ((k : ℕ)
        → i + k < length t
        → max_queue_id * k ≤ length queue_id
        → get_or t' (i + k) [] ≡ drop (max_queue_id * k) queue_id)
    × ((k : ℕ) → length queue_id < max_queue_id * k → get_or t' (i + k) [] ≡ get_or t (i + k) [])
TrasAllocate queue_id t (lanza t') =
    (t' ≡ t) × ((j : ℕ) → j < length t → no_vacio (get_or t j []) ≡ true)
TrasAllocate queue_id t desborda =
    (i : ℕ) × PrimeraLibre t i
    × ((128 ≤ i) ⊎ (max_colas * max_queue_id ≤ i * max_queue_id + length queue_id))

libre : (b : Bool) → not b ≡ true → b ≡ false
libre = not_eq_true

ocupada : (b : Bool) → not b ≡ false → b ≡ true
ocupada true h = refl
ocupada false h = sym h

vacio : (n : Nombre) → no_vacio n ≡ false → n ≡ []
vacio [] h = refl
vacio (x ∷ xs) h = absurd (true_ne_false h)

nil_otro : (n : Nombre) → no_vacio n ≡ true → strcmp_igual [] n ≡ false
nil_otro [] h = absurd (true_ne_false (sym h))
nil_otro (x ∷ xs) h = refl

otro_nombre : (a b : Nombre) → b ≢ a → strcmp_igual a b ≡ false
otro_nombre a b ne = elim (Bool-cases (strcmp_igual a b)) [
  | inl same ↦ absurd (ne (sym (strcmp_igual-eq a b same)))
  | inr other ↦ other
]

abbrev numero : Option ℕ → ℕ
numero o = elim o [ none ↦ 255 | some i ↦ i ]

module _ (queue_id : Nombre) (t : Colas) where
  sin_entrada : exist_queue queue_id t ≡ false → primero (λ n. strcmp_igual n queue_id) t ≡ none
  unfolding exist_queue
  sin_entrada h = ground arith

  primera : {i : ℕ} → primero (λ n. not (no_vacio n)) t ≡ some i → PrimeraLibre t i
  primera {i} e =
      let (a, b, c) = primero-some (λ n. not (no_vacio n)) t e in
      (a, libre _ b, λ j h. ocupada _ (c j h))

  -- `allocate_queue_id` gives the first free entry to the identifier, if it is one of the first 128 and
  -- the identifier has less than 255 characters. A longer identifier also runs over the entries behind
  -- it, each of which then reads as the rest of the identifier, and the other entries stay. It writes
  -- outside of the table exactly with a later free entry, or if the identifier and its 0 go over the end
  -- of the table. It throws exactly if no entry is free, and leaves the table as it was.
  pub allocate_queue_id_lem : TrasAllocate queue_id t (allocate_queue_id queue_id t)
  unfolding allocate_queue_id
  allocate_queue_id_lem = elim (Option-cases (primero (λ n. not (no_vacio n)) t)) [
    | inl full ↦
        let r : allocate_queue_id queue_id t ≡ lanza t = rw (allocate_queue_id, full) refl in
        subst (TrasAllocate queue_id t) (sym r)
          (refl, λ j h. ocupada _ (primero-none (λ n. not (no_vacio n)) t full j h))
    | inr (i, found) ↦
        let v = primera found in
        let hasta = i * max_queue_id + length queue_id in
        let fuera =
          λ (r : allocate_queue_id queue_id t ≡ desborda)
              (h : (128 ≤ i) ⊎ (max_colas * max_queue_id ≤ hasta)).
            subst (TrasAllocate queue_id t) (sym r) (i, v, h) in
        elim (Bool-cases (es_indice i)) [
          | inr high ↦ fuera (rw (allocate_queue_id, found, high) refl) (inl (ground arith))
          | inl low ↦ elim (Bool-cases (ltb (length queue_id) max_queue_id)) [
            | inr long ↦ elim (Bool-cases (ltb hasta (max_colas * max_queue_id))) [
              | inr out ↦
                  fuera (rw (allocate_queue_id, found, low, long, out) refl) (inr (ground arith))
              | inl inside ↦
                  let r : allocate_queue_id queue_id t ≡ pisa (pisar i queue_id t) i =
                    rw (allocate_queue_id, found, low, long, inside) refl in
                  subst (TrasAllocate queue_id t) (sym r) (
                    v,
                    ground arith,
                    ground arith,
                    ground arith,
                    pisar-antes i queue_id t,
                    pisar-desde i queue_id t,
                    pisar-tras i queue_id t,
                  )
            ]
            | inl fits ↦
                let r : allocate_queue_id queue_id t ≡ ok (set t i queue_id) i =
                  rw (allocate_queue_id, found, low, fits) refl in
                subst (TrasAllocate queue_id t) (sym r) (v, ground arith, ground arith, refl)
          ]
        ]
  ]

  -- An identifier that is not in the table gets a number: afterwards it has that number and the others
  -- that are not empty have those that they had; to take it out again leaves the table as it was.
  pub allocate_queue_id-get_proj_id :
      {t' : Colas} {i : ℕ}
      → no_vacio queue_id ≡ true
      → exist_queue queue_id t ≡ false
      → allocate_queue_id queue_id t ≡ ok t' i
      → (get_proj_id queue_id t' ≡ i)
        × ((otro : Nombre)
            → no_vacio otro ≡ true
            → otro ≢ queue_id
            → get_proj_id otro t' ≡ get_proj_id otro t)
        × (deallocate_queue_id queue_id t' ≡ ok t i)
  unfolding exist_queue get_proj_id deallocate_queue_id
  allocate_queue_id-get_proj_id {t'} {i} full absent e =
      let ((l, f, _), low, _, q) = subst (TrasAllocate queue_id t) e allocate_queue_id_lem in
      let p : Nombre → Bool = λ n. strcmp_igual n queue_id in
      let hallada : primero p t' ≡ some i =
        ap (primero p) q
        ∙ primero-set_nuevo p t i queue_id (sin_entrada absent) l (strcmp_igual_refl queue_id) in
      let vacia = vacio (get_or t i []) f in
      let n : get_proj_id queue_id t' ≡ i = rw (get_proj_id, hallada) refl in
      let otra = λ (otro : Nombre) (lleno : no_vacio otro ≡ true) (ne : otro ≢ queue_id).
        ap (λ t. primero (λ n. strcmp_igual n otro) t) q
        ∙ primero-set_otro (λ n. strcmp_igual n otro) t i queue_id
            (ap (λ n. strcmp_igual n otro) vacia ∙ nil_otro otro lleno)
            (otro_nombre queue_id otro ne) in
      (
        n,
        λ otro lleno ne. ap numero (otra otro lleno ne),
        rw (deallocate_queue_id, n, lt→ltb i 128 low)
            (ap (λ t. ok t i)
              (ap (λ t. set t i []) q
                ∙ set-set_self t i queue_id []
                ∙ ap (set t i) (sym vacia)
                ∙ set-get_or t i [])),
      )

  -- With a number for it, `create_queue` throws exactly if the system does not make the queue; then
  -- too the identifier stays in the table.
  pub create_queue_lem :
      (crea : ℕ → Bool) {t' : Colas} {i : ℕ}
      → allocate_queue_id queue_id t ≡ ok t' i
      → create_queue crea queue_id t ≡ (if crea i then ok t' i else lanza t')
  unfolding create_queue
  create_queue_lem crea e = rw (create_queue, e) refl
