-- ===== src/Cintas/Checkin/Avance.antt =====
-- What the wake-ups of the check-in belt (`memoria_compartida` with the two sets of semaphores of
-- api/cinta.h) are for: over runs of whole passes from an empty belt.
use aeropuerto.Base.{
  ℕ, ◌+◌, ◌-◌, ◌≤◌, ◌<◌, ◌≡◌, refl, ap, ◌∙◌, List, [], ◌∷◌, ◌++◌, Bool, true, Option, some, inl,
  inr, arith, length, length-append, Option-cases,
}
use aeropuerto.Base.Anillo.{length-ventana}
use aeropuerto.Cintas.Lado.{esperar_turno}
use aeropuerto.Cintas.Checkin.{
  Cinta, cinta_inicial, poner_equipaje, sacar_equipaje, poner_con_lock, sacar_con_lock, colocar,
  quitar, ceder_productor, ceder_consumidor, despertar_productores, despertar_consumidores,
}
use aeropuerto.Cintas.Checkin.Invariante.{EsValida, equipajes, cinta_inicial-EsValida}
use aeropuerto.Cintas.Checkin.Pasadas.{
  poner_equipaje_lem, sacar_equipaje_lem, poner_equipaje_avanza, sacar_equipaje_avanza,
}
use aeropuerto.Cintas.Checkin.Traza.{Traza, inicio, pone, saca, Traza-EsValida, Traza-equipajes}

module _ {ℓ} {T : Type ℓ} where
  -- No pass changes the size of the belt.
  tamanio-poner_con_lock :
      (x : T) (i : ℕ) (c : Cinta T) → (poner_con_lock x i c).0.tamanio_vector ≡ c.tamanio_vector
  unfolding poner_con_lock ceder_productor colocar despertar_consumidores
  tamanio-poner_con_lock x i c = ground arith

  tamanio-sacar_con_lock :
      (nulo : T) (i : ℕ) (c : Cinta T)
      → (sacar_con_lock nulo i c).0.tamanio_vector ≡ c.tamanio_vector
  unfolding sacar_con_lock ceder_consumidor quitar despertar_productores
  tamanio-sacar_con_lock nulo i c = ground arith

  tamanio-poner_equipaje :
      (x : T) (id_productor : ℕ) (c : Cinta T) {r : Cinta T × Bool}
      → poner_equipaje x id_productor c ≡ some r
      → r.0.tamanio_vector ≡ c.tamanio_vector
  unfolding poner_equipaje
  tamanio-poner_equipaje x id_productor c {r} e =
      elim (Option-cases (esperar_turno (id_productor - 1) c.productores)) [
        | inl waits ↦ absurd (ground arith)
        | inr (turno, w) ↦
            let d = record c { productores = turno } in
            ap (λ r. r.0.tamanio_vector) {x = r} {y = poner_con_lock x (id_productor - 1) d}
              (ground arith)
            ∙ tamanio-poner_con_lock x (id_productor - 1) d
      ]

  tamanio-sacar_equipaje :
      (nulo : T) (c : Cinta T) {r : Cinta T × Option T}
      → sacar_equipaje nulo c ≡ some r
      → r.0.tamanio_vector ≡ c.tamanio_vector
  unfolding sacar_equipaje
  tamanio-sacar_equipaje nulo c {r} e = elim (Option-cases (esperar_turno 0 c.consumidores)) [
    | inl waits ↦ absurd (ground arith)
    | inr (turno, w) ↦
        let d = record c { consumidores = turno } in
        ap (λ r. r.0.tamanio_vector) {x = r} {y = sacar_con_lock nulo 0 d} (ground arith)
        ∙ tamanio-sacar_con_lock nulo 0 d
  ]

  Traza-tamanio :
      (nulo : T) {c d : Cinta T} {ps ss : List T}
      → Traza nulo c ps ss d
      → d.tamanio_vector ≡ c.tamanio_vector
  Traza-tamanio nulo inicio = refl
  Traza-tamanio nulo (pone {d = d} t x id_productor coloque hp hc e q) =
      tamanio-poner_equipaje x id_productor d e ∙ Traza-tamanio nulo t
  Traza-tamanio nulo (saca {d = d} t elemento e q) =
      tamanio-sacar_equipaje nulo d e ∙ Traza-tamanio nulo t

module _ {ℓ} {T : Type ℓ} (nulo : T) (capacidad productores consumidores : ℕ) (h : 0 < capacidad)
    (k : 0 < consumidores) {ps ss : List T} {d : Cinta T}
    (t : Traza nulo (cinta_inicial capacidad productores consumidores nulo) ps ss d) where
  valida : EsValida d
  valida =
      Traza-EsValida nulo (cinta_inicial-EsValida capacidad productores consumidores nulo h k) t

  -- What has been placed and not been taken is what lies there.
  cuenta : length ps ≡ length ss + d.cantidad_elementos
  cuenta =
      ap length (
        Traza-equipajes nulo (cinta_inicial-EsValida capacidad productores consumidores nulo h k) t)
      ∙ length-append ss (equipajes nulo d)
      ∙ ap (◌+◌ (length ss)) (
          length-ventana nulo d.vector_elementos d.tamanio_vector d.posicion_ocupada
            d.cantidad_elementos)

  -- No wake-up of a producer is lost: over any run from an empty belt of `capacidad` places, as long
  -- as fewer than `capacidad` of the pieces that were placed have not been taken yet, the next pass
  -- of any producer does not wait and places his piece behind those that lie there.
  pub Traza-poner_avanza :
      (x : T) (id_productor : ℕ)
      → 0 < id_productor
      → id_productor ≤ d.productores.cantidad
      → length ps < length ss + capacidad
      → (d' : Cinta T) × (poner_equipaje x id_productor d ≡ some (d', true))
        × (equipajes nulo d' ≡ equipajes nulo d ++ x ∷ [])
  Traza-poner_avanza x id_productor hp hc room =
      let (d', e) =
        poner_equipaje_avanza nulo d valida x id_productor hp hc
          (omega (arith, cuenta, Traza-tamanio nulo t)) in
      (d', e, (poner_equipaje_lem nulo d valida x id_productor hp hc e).2)

  -- No wake-up of the consumer is lost: over any run from an empty belt, as long as fewer pieces have
  -- been taken than placed, his next pass does not wait and takes the oldest piece that lies there.
  pub Traza-sacar_avanza :
      length ss < length ps
      → (d' : Cinta T) × (x : T) × (sacar_equipaje nulo d ≡ some (d', some x))
        × (equipajes nulo d ≡ x ∷ equipajes nulo d')
  Traza-sacar_avanza hay =
      let (d', x, e) = sacar_equipaje_avanza nulo d valida (omega (arith, cuenta)) in
      (d', x, e, (sacar_equipaje_lem nulo d valida e).2)
