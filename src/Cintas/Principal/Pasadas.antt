-- ===== src/Cintas/Principal/Pasadas.antt =====
-- Whole passes of `colocar_elemento` and `leer_elemento`, and the two ways to give the turn on.
use aeropuerto.Base.{
  ℕ, ◌+◌, ◌-◌, ◌%◌, ==_ne, wait_on, some_ne_none, ◌≤◌, ◌<◌, ◌≡◌, ◌∙◌, refl, sym, ap, List, [], ◌∷◌,
  ◌++◌, append-nil, Option, none, some, inl, inr, arith, ◌==◌, get_or, ltb, Bool-cases,
  Option-cases, length, Bool, if◌then◌else◌, subst, ◌↔◌, true, false,
}
use aeropuerto.Base.Anillo.{ventana_of_ne_zero}
use aeropuerto.Cintas.Lado.{Lado, esperar_turno}
use aeropuerto.Cintas.Turnos.{Turnos, Turnos-motivo}
use aeropuerto.Cintas.Principal.{
  CintaPrincipal, colocar, colocar_con_lock, colocar_elemento, leer_con_lock, leer_elemento,
}
use aeropuerto.Cintas.Principal.Turno.{
  lista, EsTurno, colocar-EsTurno, EsTurno-productores, leer_con_lock-EsTurno, tomado,
}
use aeropuerto.Cintas.Principal.Invariante.{
  equipajes, AnilloDe, EsValida, colocar-fields, colocar-AnilloDe, equipajes-colocar,
  equipajes-ceder_productor, ceder_productor-EsValida,
}

module _ {ℓ} {T : Type ℓ} (nulo : T) (c : CintaPrincipal T) where
  colocar-leido :
      (x : T) {leidos : List T}
      → c.cantidad_elementos < c.tamanio_vector
      → AnilloDe c
      → ((y : T) (ys : List T) → leidos ≡ y ∷ ys → (r : List T) × (equipajes nulo c ≡ y ∷ r))
      → (y : T) (ys : List T) → leidos ≡ y ∷ ys
      → (r : List T) × (equipajes nulo (colocar x c) ≡ y ∷ r)
  colocar-leido x h a l y ys e =
      let (r, q) = l y ys e in
      (r ++ x ∷ [], equipajes-colocar nulo c x h a ∙ ap (λ l. l ++ x ∷ []) q)

module _ {ℓ} {T : Type ℓ} (nulo : T) (c : CintaPrincipal T) where
  pub colocar_con_lock_lem :
      (x : T) (i : ℕ) {leidos : List T} {l' : Lado}
      → i < c.productores.cantidad
      → EsValida nulo c leidos
      → esperar_turno i c.productores ≡ some l'
      → let r = colocar_con_lock x i (record c { productores = l' }) in
        EsValida nulo r.0 leidos
        × (r.1 ≡ ltb c.cantidad_elementos c.tamanio_vector)
        × (equipajes nulo r.0 ≡ equipajes nulo c ++ (if r.1 then x ∷ [] else []))
  unfolding colocar_con_lock
  colocar_con_lock_lem x i {leidos} {l'} h v w =
      let d = record c { productores = l' } in
      let f = colocar-fields nulo d x in
      let t = EsTurno-productores c l' v.turno in
      elim (Bool-cases (ltb c.cantidad_elementos c.tamanio_vector)) [
        | inl room ↦ rw room (
          ceder_productor-EsValida nulo (colocar x d) i h (w ∙ ap some (sym f.0))
              (Turnos-motivo (λ e. absurd (ground arith)) v.productores)
              (colocar-AnilloDe nulo d x (ground arith) v.anillo)
              (colocar-EsTurno d x (length leidos) t)
              (colocar-leido nulo d x (ground arith) v.anillo v.leido),
          refl,
          equipajes-ceder_productor nulo (colocar x d) i
              ∙ equipajes-colocar nulo d x (ground arith) v.anillo,
        )
        | inr full ↦ rw full (
          ceder_productor-EsValida nulo d i h w v.productores v.anillo t v.leido,
          refl,
          equipajes-ceder_productor nulo d i ∙ sym (append-nil (equipajes nulo c)),
        )
      ]

pub nil_ne_cons {ℓ} : {T : Type ℓ} {x : T} {xs : List T} → ¬ ([] ≡ x ∷ xs)
nil_ne_cons f = let l = ap length f in omega arith

pub nil_of_length {ℓ} : {T : Type ℓ} (xs : List T) → length xs ≡ 0 → xs ≡ []
nil_of_length [] h = refl
nil_of_length (x ∷ xs) h = absurd (omega arith)

module _ {ℓ} {T : Type ℓ} (nulo : T) (c : CintaPrincipal T) where
  -- All of a pass of `leer_elemento` under the lock, by a consumer that has just taken the turn.
  leer_con_lock_lem :
      AnilloDe c
      → Turnos c.productores (c.cantidad_elementos ≡ c.tamanio_vector)
      → EsTurno (leer_con_lock nulo c).0 (length (lista (leer_con_lock nulo c).1))
      → let r = leer_con_lock nulo c in
        EsValida nulo r.0 (lista r.1)
        × (equipajes nulo r.0 ≡ equipajes nulo c)
        × ((r.1 ≡ none) ↔ (c.cantidad_elementos ≡ 0))
  unfolding leer_con_lock
  leer_con_lock_lem a pr = elim (Bool-cases (c.cantidad_elementos == 0)) [
    | inl vacia ↦
        let p : ltb 0 c.cantidad_elementos ≡ false = ground arith in
        rw (vacia, p)
          (λ t. (
            record {
              anillo = a;
              productores = pr;
              turno = t;
              leido = λ x xs f. absurd (nil_ne_cons f);
            },
            refl,
            (λ r. ground arith, λ r. refl),
          ))
    | inr hay ↦
        let p : ltb 0 c.cantidad_elementos ≡ true = ground arith in
        let x = get_or c.vector_elementos c.posicion_ocupada nulo in
        rw (hay, p)
          (λ t. (
            record {
              anillo = a;
              productores = pr;
              turno = t;
              leido = λ y ys f.
                  let r = equipajes nulo (record c {
                    posicion_ocupada = (c.posicion_ocupada + 1) % c.tamanio_vector;
                    cantidad_elementos = c.cantidad_elementos - 1;
                  }) in
                  (
                    r,
                    ventana_of_ne_zero nulo _ _ _ _ (==_ne _ _ hay) ∙ ap (λ l. get_or l 0 x ∷ r) f,
                  );
            },
            refl,
            (λ r. absurd (some_ne_none r), λ r. absurd (==_ne _ _ hay r)),
          ))
  ]

module _ {ℓ} {T : Type ℓ} (nulo : T) (c : CintaPrincipal T) {leidos : List T}
    (v : EsValida nulo c leidos) where
  -- A pass of `colocar_elemento` that does not wait keeps the invariant, whoever holds the turn of
  -- the consumers. It places the piece if there is room, at the end of the queue, and else changes
  -- nothing of the queue.
  pub colocar_elemento_lem :
      (x : T) (id_productor : ℕ)
      → 0 < id_productor
      → id_productor ≤ c.productores.cantidad
      → {c' : CintaPrincipal T} {coloque : Bool}
      → colocar_elemento x id_productor c ≡ some (c', coloque)
      → EsValida nulo c' leidos
        × (coloque ≡ ltb c.cantidad_elementos c.tamanio_vector)
        × (equipajes nulo c' ≡ equipajes nulo c ++ (if coloque then x ∷ [] else []))
  unfolding colocar_elemento
  colocar_elemento_lem x id_productor hp hc {c'} {coloque} e =
      elim (Option-cases (esperar_turno (id_productor - 1) c.productores)) [
        | inl waits ↦ absurd (ground arith)
        | inr (l', w) ↦
            subst
              (λ r.
                EsValida nulo r.0 leidos
                × (r.1 ≡ ltb c.cantidad_elementos c.tamanio_vector)
                × (equipajes nulo r.0 ≡ equipajes nulo c ++ (if r.1 then x ∷ [] else [])))
              {x = colocar_con_lock x (id_productor - 1) (record c { productores = l' })}
              {y = (c', coloque)} (ground arith)
              (colocar_con_lock_lem nulo c x (id_productor - 1) (omega arith) v w)
      ]

  -- A pass of `leer_elemento` that does not wait: nobody held the turn before (`leidos` is empty),
  -- the queue does not change, and the consumer reads the piece at its head, if there is one.
  pub leer_elemento_lem :
      (id_consumidor : ℕ)
      → 0 < id_consumidor
      → id_consumidor ≤ c.cantidad_consumidores
      → {c' : CintaPrincipal T} {elemento : Option T}
      → leer_elemento nulo id_consumidor c ≡ some (c', elemento)
      → (leidos ≡ [])
        × EsValida nulo c' (lista elemento)
        × (equipajes nulo c' ≡ equipajes nulo c)
        × ((elemento ≡ none) ↔ (c.cantidad_elementos ≡ 0))
  unfolding leer_elemento
  leer_elemento_lem id_consumidor hp hc {c'} {elemento} e =
      elim (Option-cases (wait_on c.semaforo_consumidores (id_consumidor - 1))) [
        | inl waits ↦ absurd (ground arith)
        | inr (sem, w) ↦
            let f = tomado c (id_consumidor - 1) (length leidos) (omega arith) v.turno w in
            let d = record c { semaforo_consumidores = sem } in
            let r =
              subst
                (λ r.
                  EsValida nulo r.0 (lista r.1)
                  × (equipajes nulo r.0 ≡ equipajes nulo c)
                  × ((r.1 ≡ none) ↔ (c.cantidad_elementos ≡ 0)))
                {x = leer_con_lock nulo d} {y = (c', elemento)} (ground arith)
                (leer_con_lock_lem nulo d v.anillo v.productores
                  (leer_con_lock-EsTurno d nulo f.3 v.turno.hay_consumidor f.0 f.2)) in
            (nil_of_length leidos f.1, r.0, r.1, r.2)
      ]
