-- ===== src/Cintas/Checkin/Pasadas.antt =====
-- Whole passes of `poner_equipaje` and `sacar_equipaje`.
use aeropuerto.Base.{
  ℕ, ◌-◌, ◌≤◌, ◌<◌, ◌≡◌, ◌≢◌, refl, sym, ap, subst, ◌∙◌, List, [], ◌∷◌, ◌++◌, append-nil, Bool,
  true, Option, none, some, inl, inr, arith, ltb, if◌then◌else◌, get_or, Bool-cases, Option-cases,
  ◌↔◌,
}
use aeropuerto.Cintas.Lado.{Lado, esperar_turno}
use aeropuerto.Cintas.Turnos.{esperar_turno-ne-none}
use aeropuerto.Cintas.Checkin.{
  Cinta, colocar, poner_con_lock, poner_equipaje, quitar, sacar_con_lock, sacar_equipaje,
}
use aeropuerto.Cintas.Checkin.Invariante.{
  EsValida, equipajes, PoneEnCurso, SacaEnCurso, colocar-PoneEnCurso, ceder_productor-EsValida,
  quitar-SacaEnCurso, ceder_consumidor-EsValida, equipajes-colocar, equipajes-ceder_productor,
  equipajes-quitar, equipajes-ceder_consumidor,
}

module _ {ℓ} {T : Type ℓ} (nulo x : T) (i : ℕ) {antes : Lado} (c : Cinta T) where
  -- All of a pass of `poner_equipaje` under the lock.
  poner_con_lock_lem :
      PoneEnCurso i antes c
      → let r = poner_con_lock x i c in
        EsValida r.0
        × (r.1 ≡ ltb c.cantidad_elementos c.tamanio_vector)
        × (equipajes nulo r.0 ≡ equipajes nulo c ++ (if r.1 then x ∷ [] else []))
  unfolding poner_con_lock
  poner_con_lock_lem p = elim (Bool-cases (ltb c.cantidad_elementos c.tamanio_vector)) [
    | inl room ↦ rw room (
      ceder_productor-EsValida (colocar x c) i (colocar-PoneEnCurso c x (ground arith) p),
      refl,
      equipajes-ceder_productor (colocar x c) nulo i
          ∙ equipajes-colocar c nulo x (ground arith) p.anillo,
    )
    | inr full ↦ rw full (
      ceder_productor-EsValida c i p,
      refl,
      equipajes-ceder_productor c nulo i ∙ sym (append-nil (equipajes nulo c)),
    )
  ]

-- The list of a piece that may be missing.
abbrev pub lista {ℓ} : {T : Type ℓ} → Option T → List T
lista none = []
lista (some x) = x ∷ []

module _ {ℓ} {T : Type ℓ} (nulo : T) (i : ℕ) {antes : Lado} (c : Cinta T) where
  -- All of a pass of consumer `i` under the lock.
  pub sacar_con_lock_lem :
      SacaEnCurso i antes c
      → let r = sacar_con_lock nulo i c in
        EsValida r.0
        × ((r.1 ≡ none) ↔ (c.cantidad_elementos ≡ 0))
        × (equipajes nulo c ≡ lista r.1 ++ equipajes nulo r.0)
  unfolding sacar_con_lock
  sacar_con_lock_lem p = elim (Bool-cases (ltb 0 c.cantidad_elementos)) [
    | inl hay ↦ rw hay (
      ceder_consumidor-EsValida (quitar c) i (quitar-SacaEnCurso c (ground arith) p),
      ((λ e. absurd (cc)), λ e. absurd (ground arith)),
      equipajes-quitar c nulo (ground arith)
          ∙ ap (◌∷◌ (get_or c.vector_elementos c.posicion_ocupada nulo))
              (sym (equipajes-ceder_consumidor (quitar c) nulo i)),
    )
    | inr vacia ↦ rw vacia (
      ceder_consumidor-EsValida c i p,
      ((λ e. ground arith), λ e. refl),
      sym (equipajes-ceder_consumidor c nulo i),
    )
  ]

module _ {ℓ} {T : Type ℓ} (c : Cinta T) where
  poner_equipaje-eq-some :
      (x : T) (id_productor : ℕ) {r : Cinta T × Bool}
      → poner_equipaje x id_productor c ≡ some r
      → (turno : Lado) × (esperar_turno (id_productor - 1) c.productores ≡ some turno)
        × (poner_con_lock x (id_productor - 1) (record c { productores = turno }) ≡ r)
  unfolding poner_equipaje
  poner_equipaje-eq-some x id_productor e =
      elim (Option-cases (esperar_turno (id_productor - 1) c.productores)) [
        | inl waits ↦ absurd (ground arith)
        | inr (turno, w) ↦ (turno, w, ground arith)
      ]

  sacar_equipaje-eq-some :
      (nulo : T) {r : Cinta T × Option T}
      → sacar_equipaje nulo c ≡ some r
      → (turno : Lado) × (esperar_turno 0 c.consumidores ≡ some turno)
        × (sacar_con_lock nulo 0 (record c { consumidores = turno }) ≡ r)
  unfolding sacar_equipaje
  sacar_equipaje-eq-some nulo e = elim (Option-cases (esperar_turno 0 c.consumidores)) [
    | inl waits ↦ absurd (ground arith)
    | inr (turno, w) ↦ (turno, w, ground arith)
  ]

module _ {ℓ} {T : Type ℓ} (nulo : T) (c : Cinta T) (v : EsValida c) where
  -- A pass of `poner_equipaje` by a producer of the belt keeps the belt valid. It places the piece
  -- exactly if there is room, behind those that lie there, and else leaves them as they are.
  pub poner_equipaje_lem :
      (x : T) (id_productor : ℕ) {c' : Cinta T} {coloque : Bool}
      → 0 < id_productor
      → id_productor ≤ c.productores.cantidad
      → poner_equipaje x id_productor c ≡ some (c', coloque)
      → EsValida c'
        × (coloque ≡ ltb c.cantidad_elementos c.tamanio_vector)
        × (equipajes nulo c' ≡ equipajes nulo c ++ (if coloque then x ∷ [] else []))
  poner_equipaje_lem x id_productor hp hc e =
      let (turno, w, r) = poner_equipaje-eq-some c x id_productor e in
      subst
        (λ (r : Cinta T × Bool).
          EsValida r.0
          × (r.1 ≡ ltb c.cantidad_elementos c.tamanio_vector)
          × (equipajes nulo r.0 ≡ equipajes nulo c ++ (if r.1 then x ∷ [] else [])))
        r
        (poner_con_lock_lem nulo x (id_productor - 1) (record c { productores = turno })
          (record {
            anillo = v.anillo;
            uno_de = omega arith;
            turno = w;
            productores = v.productores;
            consumidores = v.consumidores;
            hay_consumidor = v.hay_consumidor;
          }))

  -- A pass of `sacar_equipaje` keeps the belt valid. It takes the oldest piece and no other, and
  -- takes none exactly if the belt is empty.
  pub sacar_equipaje_lem :
      {c' : Cinta T} {elemento : Option T}
      → sacar_equipaje nulo c ≡ some (c', elemento)
      → EsValida c'
        × ((elemento ≡ none) ↔ (c.cantidad_elementos ≡ 0))
        × (equipajes nulo c ≡ lista elemento ++ equipajes nulo c')
  sacar_equipaje_lem e =
      let (turno, w, r) = sacar_equipaje-eq-some c nulo e in
      subst
        (λ (r : Cinta T × Option T).
          EsValida r.0
          × ((r.1 ≡ none) ↔ (c.cantidad_elementos ≡ 0))
          × (equipajes nulo c ≡ lista r.1 ++ equipajes nulo r.0))
        r
        (sacar_con_lock_lem nulo 0 (record c { consumidores = turno })
          (record {
            anillo = v.anillo;
            uno_de = v.hay_consumidor;
            turno = w;
            productores = v.productores;
            consumidores = v.consumidores;
          }))

  no_espera_productor :
      (x : T) (id_productor : ℕ)
      → 0 < id_productor
      → id_productor ≤ c.productores.cantidad
      → c.cantidad_elementos < c.tamanio_vector
      → poner_equipaje x id_productor c ≢ none
  unfolding poner_equipaje
  no_espera_productor x id_productor hp hc room e =
      esperar_turno-ne-none (id_productor - 1) c.productores (omega arith) (λ f. omega arith)
        v.productores (ground arith)

  no_espera_consumidor : 0 < c.cantidad_elementos → sacar_equipaje nulo c ≢ none
  unfolding sacar_equipaje
  no_espera_consumidor hay e =
      esperar_turno-ne-none 0 c.consumidores v.hay_consumidor (λ f. omega arith) v.consumidores
        (ground arith)

  -- While a valid belt has room, the next pass of any producer does not wait and places his piece.
  pub poner_equipaje_avanza :
      (x : T) (id_productor : ℕ)
      → 0 < id_productor
      → id_productor ≤ c.productores.cantidad
      → c.cantidad_elementos < c.tamanio_vector
      → (c' : Cinta T) × (poner_equipaje x id_productor c ≡ some (c', true))
  poner_equipaje_avanza x id_productor hp hc room =
      elim (Option-cases (poner_equipaje x id_productor c)) [
        | inl waits ↦ absurd (no_espera_productor x id_productor hp hc room waits)
        | inr ((c', coloque), e) ↦
            let placed = (poner_equipaje_lem x id_productor hp hc e).1 in (c', ground arith)
      ]

  -- While a valid belt has a piece, the next pass of the consumer does not wait and takes one.
  pub sacar_equipaje_avanza :
      0 < c.cantidad_elementos
      → (c' : Cinta T) × (x : T) × (sacar_equipaje nulo c ≡ some (c', some x))
  sacar_equipaje_avanza hay = elim (Option-cases (sacar_equipaje nulo c)) [
    | inl waits ↦ absurd (no_espera_consumidor hay waits)
    | inr ((c', none), e) ↦ absurd (omega (arith, (sacar_equipaje_lem e).1.0 refl))
    | inr ((c', some x), e) ↦ (c', x, e)
  ]
