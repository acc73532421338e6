-- ===== src/Cintas/Escaner/Apagada.antt =====
-- Belts without a scanner, which hold no pieces as long as no scanner ends, through the steps of the
-- producer and the scanners.
use aeropuerto.Base.{
  ℕ, ◌-◌, ◌≤◌, ◌<◌, ◌≡◌, ◌∙◌, refl, sym, ap, subst, true, false, ltb, Option, some, length,
  length-append, arith, Bool-cases, inl, inr, if_none-eq-some, ◌==◌, true_ne_false, ℕ_discrete,
}
use aeropuerto.Base.Anillo.{length-ventana}
use aeropuerto.Cintas.Escaner.{
  max_scanners, EstadoCinta, inactiva, con_lugar, llena, es_con_lugar, es_llena, quitar, ceder,
  CintaEscaner, CintaScanner, en, agregar, elegir_con_lock, elegir_cinta, colocar, liberar,
  sacar_con_lock, sacar_equipaje,
}
use aeropuerto.Cintas.Escaner.Invariante.{EsValida, equipajes}
use aeropuerto.Cintas.Escaner.Alta.{es_inactiva, activar}
use aeropuerto.Cintas.Escaner.Reparto.{en-todas, en-ambas}
use aeropuerto.Cintas.Escaner.Retiro.{sacar_reparte, lista}

llena-activa : (e : EstadoCinta) → es_llena e ≡ true → es_inactiva e ≡ false
llena-activa inactiva h = absurd (true_ne_false (sym h))
llena-activa con_lugar h = refl
llena-activa llena h = refl

pub con_lugar-activa : (e : EstadoCinta) → es_con_lugar e ≡ true → es_inactiva e ≡ false
con_lugar-activa inactiva h = absurd (true_ne_false (sym h))
con_lugar-activa con_lugar h = refl
con_lugar-activa llena h = refl

pub con_lugar_of_activa :
    (e : EstadoCinta) → es_inactiva e ≡ false → es_llena e ≡ false → es_con_lugar e ≡ true
con_lugar_of_activa inactiva h k = absurd (true_ne_false h)
con_lugar_of_activa con_lugar h k = refl
con_lugar_of_activa llena h k = absurd (true_ne_false k)

module _ {ℓ} {T : Type ℓ} where
  -- No piece lies on a belt without a scanner, and the producer does not choose one.
  pub record EsApagada (s : CintaScanner T) : Type 0 where
    pub vacias :
        (k : ℕ)
        → k < max_scanners
        → es_inactiva (s.cinta_llena k) ≡ true
        → (s.cintas k).cantidad_elementos ≡ 0
    pub activa : s.eligio ≡ true → es_inactiva (s.cinta_llena s.proxima_cinta_a_colocar) ≡ false

  -- The same belts have a scanner, and the producer stands where he stood.
  abbrev pub Igual : (s s' : CintaScanner T) → Type 0
  Igual s s' =
      ((k : ℕ) → es_inactiva (s'.cinta_llena k) ≡ es_inactiva (s.cinta_llena k))
      × (s'.eligio ≡ s.eligio)
      × (s'.proxima_cinta_a_colocar ≡ s.proxima_cinta_a_colocar)

  liberar-Igual : (n : ℕ) (s : CintaScanner T) → Igual s (liberar n s)
  unfolding liberar
  liberar-Igual n s = elim (Bool-cases (es_llena (s.cinta_llena n))) [
    | inl was_full ↦
        let igual = λ (k : ℕ).
          en-todas (λ i e. es_inactiva e ≡ es_inactiva (s.cinta_llena i)) s.cinta_llena n con_lugar
            (sym (llena-activa (s.cinta_llena n) was_full)) k refl in
        elim (Bool-cases (s.productor_esperando == 1)) [
          | inl asleep ↦ rw (was_full, asleep) (igual, refl, refl)
          | inr awake ↦ rw (was_full, awake) (igual, refl, refl)
        ]
    | inr not_full ↦ rw not_full (λ k. refl, refl, refl)
  ]

  module _ (nulo : T) (n : ℕ) where
    sacar_con_lock-Igual :
        (c : CintaEscaner T) (s : CintaScanner T) → Igual s (sacar_con_lock nulo n c s).0
    unfolding sacar_con_lock
    sacar_con_lock-Igual c s = elim (Bool-cases (ltb 0 c.cantidad_elementos)) [
      | inl hay ↦ elim (Bool-cases (c.cantidad_elementos - 1 == c.tamanio_vector - 1)) [
        | inl was_full ↦
            let d : CintaScanner T = record s { cintas = en s.cintas n (ceder (quitar c)) } in
            rw (hay, was_full) (liberar-Igual n d)
        | inr had_room ↦ rw (hay, had_room) (λ k. refl, refl, refl)
      ]
      | inr vacia ↦ rw vacia (λ k. refl, refl, refl)
    ]

    pub sacar_equipaje-Igual :
        (s : CintaScanner T) {s' : CintaScanner T} {elemento : Option T}
        → sacar_equipaje nulo n s ≡ some (s', elemento)
        → Igual s s'
    unfolding sacar_equipaje
    sacar_equipaje-Igual s e =
        let (up, q) = if_none-eq-some ((s.cintas n).semaforo == 0) e in
        let c = s.cintas n in
        subst (λ r. Igual s r.0) q (sacar_con_lock-Igual (record c { semaforo = c.semaforo - 1 }) s)

    -- A scanner makes no belt longer.
    pub sacar-le :
        (s : CintaScanner T) (v : EsValida s) {s' : CintaScanner T} {elemento : Option T}
        → n < max_scanners
        → sacar_equipaje nulo n s ≡ some (s', elemento)
        → (k : ℕ) → (s'.cintas k).cantidad_elementos ≤ (s.cintas k).cantidad_elementos
    sacar-le s v {s'} {elemento} hn e k =
        let r = sacar_reparte nulo s n v hn e in
        let largo = λ (c : CintaEscaner T).
          length-ventana nulo c.vector_elementos c.tamanio_vector c.posicion_ocupada
            c.cantidad_elementos in
        elim (ℕ_discrete k n) [
          | yes same ↦
              subst (λ i. (s'.cintas i).cantidad_elementos ≤ (s.cintas i).cantidad_elementos)
                (sym same)
                (omega (
                  arith,
                  ap length r.piezas,
                  length-append (lista elemento) (equipajes nulo (s'.cintas n)),
                  largo (s.cintas n),
                  largo (s'.cintas n),
                ))
          | no other ↦ let q = r.otras k other in omega (arith, ap (λ c. c.cantidad_elementos) q)
        ]

  pub elegir_cinta-estados :
      (s : CintaScanner T) {s' : CintaScanner T}
      → elegir_cinta s ≡ some s'
      → s'.cinta_llena ≡ s.cinta_llena
  unfolding elegir_cinta elegir_con_lock
  elegir_cinta-estados s e =
      let (up, q) = if_none-eq-some (s.semaforo_productor == 0) e in
      subst (λ t. t.cinta_llena ≡ s.cinta_llena) q refl

  pub colocar-EsApagada :
      (x : T) (s : CintaScanner T) → s.eligio ≡ true → EsApagada s → EsApagada (colocar x s)
  unfolding colocar
  colocar-EsApagada x s e a =
      let p = s.proxima_cinta_a_colocar in
      let c = agregar x (s.cintas p) in
      elim (Bool-cases (c.cantidad_elementos == c.tamanio_vector)) [
        | inl full ↦ rw full (record {
          vacias = λ k hk.
              en-ambas (λ f d. es_inactiva f ≡ true → d.cantidad_elementos ≡ 0) s.cinta_llena
                s.cintas p llena c (λ i. absurd (true_ne_false (sym i))) k (a.vacias k hk);
          activa = λ i. absurd (true_ne_false (sym i));
        })
        | inr room ↦ rw room (record {
          vacias = λ k hk.
              en-todas (λ i d. es_inactiva (s.cinta_llena i) ≡ true → d.cantidad_elementos ≡ 0)
                s.cintas p c (λ i. absurd (true_ne_false (sym i ∙ a.activa e))) k (a.vacias k hk);
          activa = λ i. absurd (true_ne_false (sym i));
        })
      ]

  pub activar-EsApagada : (n : ℕ) (s : CintaScanner T) → EsApagada s → EsApagada (activar n s)
  unfolding activar
  activar-EsApagada n s a = elim (Bool-cases (es_inactiva (s.cinta_llena n))) [
    | inl off ↦
        let vacias = λ (k : ℕ) (hk : k < max_scanners).
          en-todas (λ i f. es_inactiva f ≡ true → (s.cintas i).cantidad_elementos ≡ 0) s.cinta_llena
            n con_lugar (λ i. absurd (true_ne_false (sym i))) k (a.vacias k hk) in
        let sigue = λ (e : s.eligio ≡ true).
          en-todas (λ i f. es_inactiva f ≡ false) s.cinta_llena n con_lugar refl
            s.proxima_cinta_a_colocar (a.activa e) in
        elim (Bool-cases (s.productor_esperando == 1)) [
          | inl asleep ↦ rw (off, asleep) (record { vacias = vacias; activa = sigue })
          | inr awake ↦ rw (off, awake) (record { vacias = vacias; activa = sigue })
        ]
    | inr on ↦ elim (Bool-cases (s.productor_esperando == 1)) [
      | inl asleep ↦ rw (on, asleep) (record { vacias = a.vacias; activa = a.activa })
      | inr awake ↦ rw (on, awake) (record { vacias = a.vacias; activa = a.activa })
    ]
  ]
