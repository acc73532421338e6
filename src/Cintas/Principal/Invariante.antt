-- ===== src/Cintas/Principal/Invariante.antt =====
-- The invariant of the central belt, and what whole passes of its users keep of it and do to the
-- queue of the pieces.
use aeropuerto.Base.{
  ℕ, ◌+◌, ◌-◌, ◌<◌, zero, suc, replicate, length-replicate, get_or-replicate_self, ◌≡◌, refl, ap,
  List, [], ◌∷◌, ◌++◌, some, inl, inr, arith, ◌==◌, get_or, ltb, Bool-cases, length,
}
use aeropuerto.Base.Anillo.{
  ventana, EsAnillo, EsAnillo-poner, EsAnillo-sacar, ventana-poner, ventana_of_ne_zero,
}
use aeropuerto.Cintas.Lado.{Lado, esperar_turno}
use aeropuerto.Cintas.Turnos.{
  Turnos, inicial-Turnos, Turnos-motivo, dar_turno-Turnos, dormir-Turnos, despertar-Turnos,
}
use aeropuerto.Cintas.Principal.{
  CintaPrincipal, cinta_inicial, signalize_consumidor, colocar, ceder_productor, quitar,
}
use aeropuerto.Cintas.Principal.Turno.{EsTurno, suma, EsTurno-productores}

-- The pieces on the belt, the oldest first.
abbrev pub equipajes {ℓ} : {T : Type ℓ} (nulo : T) → CintaPrincipal T → List T
equipajes nulo c =
    ventana nulo c.vector_elementos c.tamanio_vector c.posicion_ocupada c.cantidad_elementos

suma-replicate : (n : ℕ) → suma (replicate n 0) ≡ 0
suma-replicate zero = refl
suma-replicate (suc n) = omega (arith, suma-replicate n)

solo_primera : (n i : ℕ) → 0 < i → ¬ (0 < get_or (1 ∷ replicate n 0) i 0)
solo_primera n zero h p = omega arith
solo_primera n (suc i) h p = omega (arith, get_or-replicate_self {A = ℕ} n i 0)

module _ {ℓ} {T : Type ℓ} where
  abbrev pub AnilloDe : CintaPrincipal T → Type 0
  AnilloDe c =
      EsAnillo c.vector_elementos c.tamanio_vector c.posicion_libre c.posicion_ocupada
        c.cantidad_elementos

  -- `leidos` are the pieces that consumers have read and neither passed on nor taken out.
  pub record EsValida (nulo : T) (c : CintaPrincipal T) (leidos : List T) : Type ℓ where
    pub anillo : AnilloDe c
    pub productores : Turnos c.productores (c.cantidad_elementos ≡ c.tamanio_vector)
    pub turno : EsTurno c (length leidos)
    pub leido : (x : T) (xs : List T) → leidos ≡ x ∷ xs → (r : List T) × (equipajes nulo c ≡ x ∷ r)

  pub cinta_inicial-EsValida :
      (capacidad productores otros : ℕ) (nulo : T)
      → 0 < capacidad
      → EsValida nulo (cinta_inicial capacidad productores otros nulo) []
  cinta_inicial-EsValida capacidad productores otros nulo h = record {
    anillo = record {
      entra = omega (arith, length-replicate capacidad nulo);
      ocupada_dentro = h;
      cabe = omega arith;
      siguiente = omega arith;
    };
    productores = inicial-Turnos productores;
    turno = record {
      length_semaforo = omega (arith, length-replicate {A = ℕ} otros 0);
      hay_consumidor = omega arith;
      uno = omega (arith, suma-replicate otros);
      dormida = λ e. refl;
      leida = λ e. absurd (omega arith);
      otros = λ i a b. absurd (solo_primera otros i a b);
    };
    leido = λ x xs e. absurd (let l = ap length e in omega arith);
  }

  module _ (nulo : T) (c : CintaPrincipal T) where
    -- What only the producers' side sees.
    pub colocar-fields :
        (x : T)
        → let c' = colocar x c in
          (c'.productores ≡ c.productores)
          × (c'.tamanio_vector ≡ c.tamanio_vector)
          × (c'.cantidad_elementos ≡ c.cantidad_elementos + 1)
    unfolding colocar signalize_consumidor
    colocar-fields x = ground arith

    pub colocar-AnilloDe :
        (x : T) → c.cantidad_elementos < c.tamanio_vector → AnilloDe c → AnilloDe (colocar x c)
    unfolding colocar signalize_consumidor
    colocar-AnilloDe x h r = elim (Bool-cases (c.cantidad_elementos + 1 == 1)) [
      | inl first ↦ elim (Bool-cases (ltb 0 c.consumidor_esperando)) [
        | inl asleep ↦ rw (first, asleep) (EsAnillo-poner x h r)
        | inr awake ↦ rw (first, awake) (EsAnillo-poner x h r)
      ]
      | inr later ↦ rw later (EsAnillo-poner x h r)
    ]

    pub equipajes-colocar :
        (x : T)
        → c.cantidad_elementos < c.tamanio_vector
        → AnilloDe c
        → equipajes nulo (colocar x c) ≡ equipajes nulo c ++ x ∷ []
    unfolding colocar signalize_consumidor
    equipajes-colocar x h r = elim (Bool-cases (c.cantidad_elementos + 1 == 1)) [
      | inl first ↦ elim (Bool-cases (ltb 0 c.consumidor_esperando)) [
        | inl asleep ↦ rw (first, asleep) (ventana-poner nulo x h r)
        | inr awake ↦ rw (first, awake) (ventana-poner nulo x h r)
      ]
      | inr later ↦ rw later (ventana-poner nulo x h r)
    ]

    pub equipajes-ceder_productor :
        (i : ℕ) → equipajes nulo (ceder_productor i c) ≡ equipajes nulo c
    unfolding ceder_productor
    equipajes-ceder_productor i = elim (Bool-cases (c.cantidad_elementos == c.tamanio_vector)) [
      | inl full ↦ rw full
      | inr room ↦ rw room
    ]

    -- The end of a pass, whether the piece was placed or not: the producer sleeps or gives his turn
    -- back.
    pub ceder_productor-EsValida :
        (i : ℕ) {leidos : List T} {antes : Lado}
        → i < antes.cantidad
        → esperar_turno i antes ≡ some c.productores
        → Turnos antes (c.cantidad_elementos ≡ c.tamanio_vector)
        → AnilloDe c
        → EsTurno c (length leidos)
        → ((x : T) (xs : List T) → leidos ≡ x ∷ xs → (r : List T) × (equipajes nulo c ≡ x ∷ r))
        → EsValida nulo (ceder_productor i c) leidos
    unfolding ceder_productor
    ceder_productor-EsValida i {leidos} {antes} h w p r t l =
        elim (Bool-cases (c.cantidad_elementos == c.tamanio_vector)) [
          | inl full ↦ rw full (record {
            anillo = r;
            productores = dormir-Turnos i antes h (ground arith) w p;
            turno = EsTurno-productores c _ t;
            leido = l;
          })
          | inr room ↦ rw room (record {
            anillo = r;
            productores = dar_turno-Turnos i antes h w p;
            turno = EsTurno-productores c _ t;
            leido = l;
          })
        ]

    pub quitar-AnilloDe : 0 < c.cantidad_elementos → AnilloDe c → AnilloDe (quitar c)
    unfolding quitar
    quitar-AnilloDe h r = elim (Bool-cases (c.cantidad_elementos - 1 == c.tamanio_vector - 1)) [
      | inl was_full ↦ rw was_full (EsAnillo-sacar h r)
      | inr had_room ↦ rw had_room (EsAnillo-sacar h r)
    ]

    pub equipajes-quitar :
        0 < c.cantidad_elementos
        → equipajes nulo c
          ≡ get_or c.vector_elementos c.posicion_ocupada nulo ∷ equipajes nulo (quitar c)
    unfolding quitar
    equipajes-quitar h = elim (Bool-cases (c.cantidad_elementos - 1 == c.tamanio_vector - 1)) [
      | inl was_full ↦ rw was_full (ventana_of_ne_zero nulo _ _ _ _ (omega arith))
      | inr had_room ↦ rw had_room (ventana_of_ne_zero nulo _ _ _ _ (omega arith))
    ]

    pub quitar-Turnos :
        0 < c.cantidad_elementos
        → AnilloDe c
        → Turnos c.productores (c.cantidad_elementos ≡ c.tamanio_vector)
        → Turnos (quitar c).productores ((quitar c).cantidad_elementos ≡ (quitar c).tamanio_vector)
    unfolding quitar
    quitar-Turnos h r p = elim (Bool-cases (c.cantidad_elementos - 1 == c.tamanio_vector - 1)) [
      | inl was_full ↦ rw was_full (despertar-Turnos c.productores p)
      | inr had_room ↦ rw had_room (Turnos-motivo (λ e. absurd (ground arith)) p)
    ]
