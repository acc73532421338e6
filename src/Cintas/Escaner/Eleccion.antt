-- ===== src/Cintas/Escaner/Eleccion.antt =====
-- The first step of the producer, which chooses a belt.
use aeropuerto.Base.{
  ℕ, zero, suc, ◌+◌, ◌-◌, ◌%◌, ◌<◌, ◌≡◌, ◌∙◌, refl, sym, subst, Bool, true, false, some, ◌==◌,
  if_none-eq-some, arith, ℕ_discrete, Bool-cases, inl, inr, true_ne_false,
}
use aeropuerto.Cintas.Escaner.{
  max_scanners, EstadoCinta, es_con_lugar, CintaScanner, buscar_cinta, elegir_con_lock,
  elegir_cinta,
}
use aeropuerto.Cintas.Escaner.Invariante.{EsValida}

-- Where the search ends: at the first belt with room on the way round, or, if there is none on the way,
-- without one.
record EsEleccion (estados : ℕ → EstadoCinta) (desde rounds : ℕ) (r : ℕ × Bool) : Type 0 where
  dentro : r.0 < max_scanners
  con : r.1 ≡ true → es_con_lugar (estados r.0) ≡ true
  sin :
      r.1 ≡ false
      → (j : ℕ) → j < rounds
      → es_con_lugar (estados ((desde + j) % max_scanners)) ≡ false

module _ (estados : ℕ → EstadoCinta) where
  buscar_cinta-EsEleccion :
      (rounds desde : ℕ)
      → desde < max_scanners
      → EsEleccion estados desde rounds (buscar_cinta rounds desde estados)
  unfolding buscar_cinta
  buscar_cinta-EsEleccion zero desde h = record {
    dentro = h;
    con = λ e. absurd (true_ne_false (sym e));
    sin = λ e j hj. absurd (omega arith);
  }
  buscar_cinta-EsEleccion (suc rounds) desde h = elim (Bool-cases (es_con_lugar (estados desde))) [
    | inl found ↦
        rw found (record { dentro = h; con = λ e. found; sin = λ e. absurd (true_ne_false e) })
    | inr full ↦
        let r = buscar_cinta-EsEleccion rounds ((desde + 1) % max_scanners) (omega arith) in
        rw full (record {
          dentro = r.dentro;
          con = r.con;
          sin = λ e j hj. elim (ℕ_discrete j 0) [
            | yes z ↦ subst (λ k. es_con_lugar (estados k) ≡ false) {x = desde} (omega arith) full
            | no nz ↦
                subst (λ k. es_con_lugar (estados k) ≡ false)
                  {x = ((desde + 1) % max_scanners + (j - 1)) % max_scanners} (omega arith)
                  (r.sin e (j - 1) (omega arith))
          ];
        })
  ]

  -- A whole round finds a belt with room if there is one.
  ninguna :
      (desde : ℕ)
      → desde < max_scanners
      → (buscar_cinta max_scanners desde estados).1 ≡ false
      → (k : ℕ) → k < max_scanners
      → es_con_lugar (estados k) ≡ false
  ninguna desde h e k hk =
      subst (λ i. es_con_lugar (estados i) ≡ false)
        {x = (desde + (k + max_scanners - desde) % max_scanners) % max_scanners} (omega arith)
        ((buscar_cinta-EsEleccion max_scanners desde h).sin e
          ((k + max_scanners - desde) % max_scanners) (omega arith))

module _ {ℓ} {T : Type ℓ} (s : CintaScanner T) (v : EsValida s) (libre : s.eligio ≡ false) where
  elegir_con_lock-EsValida :
      0 < s.semaforo_productor
      → EsValida (elegir_con_lock (record s { semaforo_productor = s.semaforo_productor - 1 }))
  unfolding elegir_con_lock
  elegir_con_lock-EsValida up =
      let b =
        buscar_cinta-EsEleccion s.cinta_llena max_scanners s.proxima_cinta_a_colocar v.dentro in
      let r = buscar_cinta max_scanners s.proxima_cinta_a_colocar s.cinta_llena in
      let uno : s.semaforo_productor + s.productor_esperando ≡ 1 = ground (arith, v.productor) in
      record {
        cintas = v.cintas;
        estados = v.estados;
        productor = elim (Bool-cases r.1) [
          | inl found ↦ rw found (omega arith)
          | inr full ↦ rw full (omega arith)
        ];
        sin_lugar = elim (Bool-cases r.1) [
          | inl found ↦ rw found (λ d. absurd (omega arith))
          | inr full ↦ λ d. ninguna s.cinta_llena s.proxima_cinta_a_colocar v.dentro full
        ];
        elegida = λ d. (v.estados r.0 b.dentro).lugar (b.con d);
        dentro = b.dentro;
      }

  -- The first step of the producer keeps the invariant and changes no belt. It ends at a belt that the
  -- control memory says has room, or, if it says so of none, the producer sleeps.
  pub elegir_cinta_lem :
      {s' : CintaScanner T}
      → elegir_cinta s ≡ some s'
      → EsValida s'
        × (s'.cintas ≡ s.cintas)
        × (s'.eligio ≡ true → es_con_lugar (s.cinta_llena s'.proxima_cinta_a_colocar) ≡ true)
        × (s'.eligio ≡ false
            → (s'.productor_esperando ≡ 1)
              × ((k : ℕ) → k < max_scanners → es_con_lugar (s.cinta_llena k) ≡ false))
  unfolding elegir_cinta elegir_con_lock
  elegir_cinta_lem e =
      let (up, q) = if_none-eq-some (s.semaforo_productor == 0) e in
      let b =
        buscar_cinta-EsEleccion s.cinta_llena max_scanners s.proxima_cinta_a_colocar v.dentro in
      subst
        (λ t.
          EsValida t
          × (t.cintas ≡ s.cintas)
          × (t.eligio ≡ true → es_con_lugar (s.cinta_llena t.proxima_cinta_a_colocar) ≡ true)
          × (t.eligio ≡ false
              → (t.productor_esperando ≡ 1)
                × ((k : ℕ) → k < max_scanners → es_con_lugar (s.cinta_llena k) ≡ false)))
        q
        (
          elegir_con_lock-EsValida (ground arith),
          refl,
          b.con,
          λ d. (rw d refl, ninguna s.cinta_llena s.proxima_cinta_a_colocar v.dentro d),
        )

  -- While the control memory says that some belt has room, the next first step of a producer in order
  -- does not wait, and chooses a belt.
  pub elegir_cinta_avanza :
      (k : ℕ)
      → k < max_scanners
      → es_con_lugar (s.cinta_llena k) ≡ true
      → (s' : CintaScanner T) × (elegir_cinta s ≡ some s') × (s'.eligio ≡ true)
  unfolding elegir_cinta elegir_con_lock
  elegir_cinta_avanza k h e =
      let r = buscar_cinta max_scanners s.proxima_cinta_a_colocar s.cinta_llena in
      let despierto : ¬ (s.productor_esperando ≡ 1) =
        (λ d. true_ne_false (sym e ∙ v.sin_lugar d k h)) in
      let up : (s.semaforo_productor == 0) ≡ false = ground (arith, v.productor, despierto) in
      (
        elegir_con_lock (record s { semaforo_productor = s.semaforo_productor - 1 }),
        rw up refl,
        elim (Bool-cases r.1) [
          | inl found ↦ found
          | inr full ↦ absurd (
              true_ne_false
                (sym e ∙ ninguna s.cinta_llena s.proxima_cinta_a_colocar v.dentro full k h))
        ],
      )
