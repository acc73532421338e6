-- ===== src/Cintas/Principal/Entregas.antt =====
-- `avanzar_cinta` and `extraer_elemento`, the two ways to give the turn on, and who can read next.
use aeropuerto.Base.{
  ℕ, ◌+◌, ◌-◌, ◌≤◌, ◌<◌, ◌≡◌, ◌≢◌, ◌∙◌, refl, sym, ap, subst, suc, List, [], ◌∷◌, none, some, inl,
  inr, arith, ◌==◌, get_or, ltb, wait_on-eq-none, wait_on, Bool-cases, Option-cases, length,
}
use aeropuerto.Cintas.Turnos.{Turnos}
use aeropuerto.Cintas.Principal.{
  CintaPrincipal, signalize_consumidor, quitar, extraer_elemento, ceder_turno, avanzar_cinta,
  leer_elemento,
}
use aeropuerto.Cintas.Principal.Turno.{
  EsTurno, avanzar_cinta-EsTurno, extraer_elemento-EsTurno, suma-pos,
}
use aeropuerto.Cintas.Principal.Invariante.{
  equipajes, AnilloDe, EsValida, quitar-AnilloDe, equipajes-quitar, quitar-Turnos,
}
use aeropuerto.Cintas.Principal.Pasadas.{nil_of_length, nil_ne_cons, leer_elemento_lem}

module _ {ℓ} {T : Type ℓ} (nulo : T) (c : CintaPrincipal T) where
  signalize_consumidor-EsValida :
      (i : ℕ)
      → AnilloDe c
      → Turnos c.productores (c.cantidad_elementos ≡ c.tamanio_vector)
      → EsTurno (signalize_consumidor i c) 0
      → EsValida nulo (signalize_consumidor i c) []
  unfolding signalize_consumidor
  signalize_consumidor-EsValida i a p t = record {
    anillo = a;
    productores = p;
    turno = t;
    leido = λ x xs f. absurd (nil_ne_cons f);
  }

  equipajes-signalize_consumidor :
      (i : ℕ) → equipajes nulo (signalize_consumidor i c) ≡ equipajes nulo c
  unfolding signalize_consumidor
  equipajes-signalize_consumidor i = refl

  module _ (x : T) {leidos : List T} (v : EsValida nulo c (x ∷ leidos)) where
    -- Only one consumer at a time has a piece in his hands.
    leidos-nil : leidos ≡ []
    leidos-nil = nil_of_length leidos (omega (arith, v.turno.uno))

    turno-uno : EsTurno c 1
    turno-uno = subst (λ l. EsTurno c (suc (length l))) leidos-nil v.turno

    sigue :
        (i : ℕ)
        → EsTurno (signalize_consumidor i c) 0
        → EsValida nulo (signalize_consumidor i c) leidos
          × (equipajes nulo (signalize_consumidor i c) ≡ equipajes nulo c)
    sigue i t = (
      subst (EsValida nulo (signalize_consumidor i c)) (sym leidos-nil)
          (signalize_consumidor-EsValida i v.anillo v.productores t),
      equipajes-signalize_consumidor i,
    )

    avanza :
        (id_consumidor : ℕ)
        → EsTurno (avanzar_cinta id_consumidor c) 0
        → EsValida nulo (avanzar_cinta id_consumidor c) leidos
          × (equipajes nulo (avanzar_cinta id_consumidor c) ≡ equipajes nulo c)
    unfolding avanzar_cinta
    avanza id_consumidor = elim (Bool-cases (ltb id_consumidor c.cantidad_consumidores)) [
      | inl next ↦ rw next (sigue id_consumidor)
      | inr last ↦ rw last (sigue 0)
    ]

    -- The consumer who has read a piece passes the turn on. Then nobody has it in his hands, and the
    -- queue is the same.
    pub avanzar_cinta_lem :
        (id_consumidor : ℕ)
        → EsValida nulo (avanzar_cinta id_consumidor c) leidos
          × (equipajes nulo (avanzar_cinta id_consumidor c) ≡ equipajes nulo c)
    avanzar_cinta_lem id_consumidor =
        avanza id_consumidor (avanzar_cinta-EsTurno c id_consumidor turno-uno)

module _ {ℓ} {T : Type ℓ} (nulo : T) (c : CintaPrincipal T) where
  -- The end of `extraer_elemento`, after `quitar`.
  terminar :
      AnilloDe c
      → Turnos c.productores (c.cantidad_elementos ≡ c.tamanio_vector)
      → EsTurno (ceder_turno c) 0
      → EsValida nulo (ceder_turno c) [] × (equipajes nulo (ceder_turno c) ≡ equipajes nulo c)
  unfolding ceder_turno
  terminar a p = elim (Bool-cases (c.cantidad_elementos == 0)) [
    | inl vacia ↦ rw vacia (λ t. (
      record { anillo = a; productores = p; turno = t; leido = λ x xs f. absurd (nil_ne_cons f) },
      refl,
    ))
    | inr hay ↦ rw hay (λ t.
        (signalize_consumidor-EsValida nulo c 0 a p t, equipajes-signalize_consumidor nulo c 0))
  ]

module _ {ℓ} {T : Type ℓ} (nulo : T) (c : CintaPrincipal T) (x : T) {leidos : List T}
    (v : EsValida nulo c (x ∷ leidos)) where
  -- The consumer who has read `x` takes out the piece at the head of the queue: it is that `x`. Then
  -- nobody has it in his hands.
  pub extraer_elemento_lem :
      EsValida nulo (extraer_elemento c) leidos
      × (equipajes nulo c ≡ x ∷ equipajes nulo (extraer_elemento c))
  unfolding extraer_elemento ceder_turno
  extraer_elemento_lem =
      let hay = v.turno.leida (omega arith) in
      let r =
        terminar nulo (quitar c) (quitar-AnilloDe nulo c hay v.anillo)
          (quitar-Turnos nulo c hay v.anillo v.productores)
          (extraer_elemento-EsTurno c (turno-uno nulo c x v)) in
      let (resto, q) = v.leido x leidos refl in
      let p = equipajes-quitar nulo c hay in
      (
        subst (EsValida nulo (extraer_elemento c)) (sym (leidos-nil nulo c x v)) r.0,
        p
            ∙ ap (λ y. y ∷ equipajes nulo (quitar c)) (ap (λ l. get_or l 0 x) (sym p ∙ q))
            ∙ ap (λ l. x ∷ l) (sym r.1),
      )

module _ {ℓ} {T : Type ℓ} (nulo : T) (c : CintaPrincipal T) (v : EsValida nulo c []) where
  -- While there is a piece that nobody has in his hands, the turn stands in a semaphore.
  turno_en_semaforo :
      0 < c.cantidad_elementos
      → (i : ℕ) × (i < length c.semaforo_consumidores) × (0 < get_or c.semaforo_consumidores i 0)
  turno_en_semaforo hay =
      suma-pos c.semaforo_consumidores (ground (arith, v.turno.uno, v.turno.dormida))

  no_espera_consumidor :
      (i : ℕ) → 0 < get_or c.semaforo_consumidores i 0 → leer_elemento nulo (i + 1) c ≢ none
  unfolding leer_elemento
  no_espera_consumidor i up e = elim (Option-cases (wait_on c.semaforo_consumidores (i + 1 - 1))) [
    | inl waits ↦ omega (
      arith,
      wait_on-eq-none c.semaforo_consumidores (i + 1 - 1) waits,
      ap (λ k. get_or c.semaforo_consumidores k 0) {x = i + 1 - 1} {y = i} (omega arith),
    )
    | inr (sem, w) ↦ ground arith
  ]

  -- While a valid belt has a piece that nobody has in his hands, there is a consumer whose next pass of
  -- `leer_elemento` does not wait, and reads it.
  pub leer_elemento_avanza :
      0 < c.cantidad_elementos
      → (id_consumidor : ℕ) × (0 < id_consumidor)
        × (id_consumidor ≤ c.cantidad_consumidores)
        × ((c' : CintaPrincipal T) × (x : T) × (leer_elemento nulo id_consumidor c
              ≡ some (c', some x)))
  leer_elemento_avanza hay =
      let (i, h, up) = turno_en_semaforo hay in
      let k : i + 1 ≤ c.cantidad_consumidores = omega (arith, v.turno.length_semaforo) in
      (
        i + 1,
        omega arith,
        k,
        elim (Option-cases (leer_elemento nulo (i + 1) c)) [
          | inl waits ↦ absurd (no_espera_consumidor i up waits)
          | inr ((c', none), e) ↦
              absurd
                (omega (arith, (leer_elemento_lem nulo c v (i + 1) (omega arith) k e).3.0 refl))
          | inr ((c', some x), e) ↦ (c', x, e)
        ],
      )
