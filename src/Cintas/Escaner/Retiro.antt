-- ===== src/Cintas/Escaner/Retiro.antt =====
-- The passes of the scanners.
use aeropuerto.Base.{
  ℕ, ◌+◌, ◌-◌, ◌<◌, ◌≡◌, ◌≢◌, ◌∙◌, ◌↔◌, refl, sym, ap, subst, List, [], ◌∷◌, ◌++◌, Option, none,
  some, ltb, ◌==◌, if_none-eq-some, get_or, arith, Bool-cases, inl, inr, ==_ne, true_ne_false,
  some_ne_none,
}
use aeropuerto.Cintas.Escaner.{
  max_scanners, con_lugar, es_llena, CintaEscaner, CintaScanner, en, quitar, ceder, liberar,
  sacar_con_lock, sacar_equipaje,
}
use aeropuerto.Cintas.Escaner.Invariante.{
  equipajes, EsCinta, Concuerda, EsValida, ceder-fields, ceder-EsCinta, equipajes-ceder,
  quitar-EsCinta, equipajes-quitar, quitar-fields,
}
use aeropuerto.Cintas.Escaner.Reparto.{en-todas, en-ambas, en_self, en-ne}

-- The list of a piece that may be missing.
abbrev pub lista {ℓ} : {T : Type ℓ} → Option T → List T
lista none = []
lista (some x) = x ∷ []

module _ {ℓ} {T : Type ℓ} (s : CintaScanner T) (v : EsValida s) (n : ℕ) (h : n < max_scanners)
    (c : CintaEscaner T) (vc : EsCinta c) (room : c.cantidad_elementos < c.tamanio_vector) where
  con_lugar-Concuerda : Concuerda con_lugar c
  con_lugar-Concuerda = record { lugar = λ d. room; colmada = λ d. absurd (true_ne_false (sym d)) }

  -- Another belt `n` with room, of which the control memory says what is true.
  cambiar : Concuerda (s.cinta_llena n) c → EsValida (record s { cintas = en s.cintas n c })
  cambiar k = record {
    cintas = λ j hj. en-todas (λ i d. EsCinta d) s.cintas n c vc j (v.cintas j hj);
    estados =
        λ j hj. en-todas (λ i d. Concuerda (s.cinta_llena i) d) s.cintas n c k j (v.estados j hj);
    productor = v.productor;
    sin_lugar = v.sin_lugar;
    elegida = λ d.
        en-todas (λ i d. d.cantidad_elementos < d.tamanio_vector) s.cintas n c room
          s.proxima_cinta_a_colocar (v.elegida d);
    dentro = v.dentro;
  }

  -- If it was full, the producer is woken.
  liberar-EsValida : EsValida (liberar n (record s { cintas = en s.cintas n c }))
  unfolding liberar
  liberar-EsValida = elim (Bool-cases (es_llena (s.cinta_llena n))) [
    | inl was_full ↦ elim (Bool-cases (s.productor_esperando == 1)) [
      | inl asleep ↦
          rw (was_full, asleep)
            (record {
              cintas = λ j hj. en-todas (λ i d. EsCinta d) s.cintas n c vc j (v.cintas j hj);
              estados = λ j hj.
                  en-ambas Concuerda s.cinta_llena s.cintas n con_lugar c con_lugar-Concuerda j
                    (v.estados j hj);
              productor = ground (arith, v.productor);
              sin_lugar = λ d. absurd (omega arith);
              elegida = λ d.
                  en-todas (λ i d. d.cantidad_elementos < d.tamanio_vector) s.cintas n c room
                    s.proxima_cinta_a_colocar (v.elegida d);
              dentro = v.dentro;
            })
      | inr awake ↦
          rw (was_full, awake)
            (record {
              cintas = λ j hj. en-todas (λ i d. EsCinta d) s.cintas n c vc j (v.cintas j hj);
              estados = λ j hj.
                  en-ambas Concuerda s.cinta_llena s.cintas n con_lugar c con_lugar-Concuerda j
                    (v.estados j hj);
              productor = v.productor;
              sin_lugar = λ d. absurd (==_ne _ _ awake d);
              elegida = λ d.
                  en-todas (λ i d. d.cantidad_elementos < d.tamanio_vector) s.cintas n c room
                    s.proxima_cinta_a_colocar (v.elegida d);
              dentro = v.dentro;
            })
    ]
    | inr not_full ↦ rw not_full (
        cambiar
          (record { lugar = λ d. room; colmada = λ d. absurd (true_ne_false (sym d ∙ not_full)) }))
  ]

  liberar-cintas : (liberar n (record s { cintas = en s.cintas n c })).cintas ≡ en s.cintas n c
  unfolding liberar
  liberar-cintas = elim (Bool-cases (es_llena (s.cinta_llena n))) [
    | inl was_full ↦ elim (Bool-cases (s.productor_esperando == 1)) [
      | inl asleep ↦ rw (was_full, asleep) refl
      | inr awake ↦ rw (was_full, awake) refl
    ]
    | inr not_full ↦ rw not_full refl
  ]

-- What a pass of scanner `n` comes to: the oldest piece of his belt and no other, none exactly if the
-- belt is empty; the other belts stay as they are.
module _ {ℓ} {T : Type ℓ} (nulo : T) (s : CintaScanner T) (n : ℕ) where
  pub record Retiro (s' : CintaScanner T) (elemento : Option T) : Type ℓ where
    pub valida : EsValida s'
    pub vacia : (elemento ≡ none) ↔ ((s.cintas n).cantidad_elementos ≡ 0)
    pub piezas : equipajes nulo (s.cintas n) ≡ lista elemento ++ equipajes nulo (s'.cintas n)
    pub otras : (k : ℕ) → k ≢ n → s'.cintas k ≡ s.cintas k

  armar :
      (s' : CintaScanner T) (d : CintaEscaner T) (elemento : Option T)
      → EsValida s'
      → s'.cintas ≡ en s.cintas n d
      → ((elemento ≡ none) ↔ ((s.cintas n).cantidad_elementos ≡ 0))
      → equipajes nulo (s.cintas n) ≡ lista elemento ++ equipajes nulo d
      → Retiro s' elemento
  armar s' d elemento w e vacia q = record {
    valida = w;
    vacia = vacia;
    piezas =
        q
        ∙ ap (λ l. lista elemento ++ equipajes nulo l)
            (sym (ap (λ f. f n) e ∙ en_self s.cintas n d));
    otras = λ k hk. ap (λ f. f k) e ∙ en-ne s.cintas n d k hk;
  }

  module _ (v : EsValida s) (h : n < max_scanners) where
    sacar_con_lock-Retiro :
        0 < (s.cintas n).semaforo
        → let r =
            sacar_con_lock nulo n
              (record (s.cintas n) { semaforo = (s.cintas n).semaforo - 1 })
              s in
          Retiro r.0 r.1
    unfolding sacar_con_lock
    sacar_con_lock-Retiro up =
        let c : CintaEscaner T = record (s.cintas n) { semaforo = (s.cintas n).semaforo - 1 } in
        let vc = v.cintas n h in
        let z : c.semaforo + c.consumidor_esperando ≡ 0 = omega (arith, vc.uno) in
        elim (Bool-cases (ltb 0 (s.cintas n).cantidad_elementos)) [
          | inl hay ↦
              let pos : 0 < c.cantidad_elementos = ground arith in
              let d = ceder (quitar c) in
              let f = quitar-fields c in
              let vd = quitar-EsCinta c pos vc.anillo z in
              let room : d.cantidad_elementos < d.tamanio_vector =
                omega (arith, f.0, f.1, vc.anillo.cabe) in
              let x = get_or c.vector_elementos c.posicion_ocupada nulo in
              elim (Bool-cases
                ((s.cintas n).cantidad_elementos - 1 == (s.cintas n).tamanio_vector - 1)) [
                  | inl was_full ↦
                      rw (hay, was_full)
                        (armar (liberar n (record s { cintas = en s.cintas n d })) d (some x)
                          (liberar-EsValida s v n h d vd room) (liberar-cintas s v n h d vd room)
                          (λ e. absurd (some_ne_none e), λ e. absurd (omega arith))
                          (equipajes-quitar c nulo pos))
                  | inr had_room ↦
                      rw (hay, had_room)
                        (armar (record s { cintas = en s.cintas n d }) d (some x)
                          (cambiar s v n h d vd room (record {
                            lugar = λ e. room;
                            colmada = λ e. absurd (ground (arith, (v.estados n h).colmada e));
                          }))
                          refl (λ e. absurd (some_ne_none e), λ e. absurd (omega arith))
                          (equipajes-quitar c nulo pos))
                ]
          | inr nothing ↦
              let cero : c.cantidad_elementos ≡ 0 = ground arith in
              let d = ceder c in
              let f = ceder-fields c in
              let vd = ceder-EsCinta c vc.anillo z in
              let room : d.cantidad_elementos < d.tamanio_vector =
                omega (arith, f.0, f.1, vc.anillo.ocupada_dentro) in
              rw nothing (
                armar (record s { cintas = en s.cintas n d }) d none
                  (cambiar s v n h d vd room (record {
                    lugar = λ e. room;
                    colmada = λ e. omega (arith, f.0, f.1, (v.estados n h).colmada e);
                  }))
                  refl (λ e. cero, λ e. refl) (sym (equipajes-ceder c nulo)))
        ]

    -- A pass of scanner `n` that does not wait keeps the invariant, takes the oldest piece of his belt
    -- and no other, none exactly if the belt is empty, and leaves the other belts as they are.
    pub sacar_reparte :
        {s' : CintaScanner T} {elemento : Option T}
        → sacar_equipaje nulo n s ≡ some (s', elemento)
        → Retiro s' elemento
    unfolding sacar_equipaje
    sacar_reparte {s'} {elemento} e =
        let (up, q) = if_none-eq-some ((s.cintas n).semaforo == 0) e in
        subst (λ r. Retiro r.0 r.1) q (sacar_con_lock-Retiro (ground arith))
