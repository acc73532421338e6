-- ===== src/Cintas/Carga/Cierre.antt =====
-- How the closing of the check-in reaches the consumer of a container belt.
use aeropuerto.Base.{
  ℕ, ◌-◌, ◌≤◌, ◌<◌, ◌≡◌, ◌≢◌, refl, sym, ◌∙◌, true, false, none, some, inl, inr, arith,
  Option-cases,
}
use aeropuerto.Cintas.Lado.{despertar, esperar_turno}
use aeropuerto.Cintas.Turnos.{despertar-Turnos, esperar_turno-ne-none, cantidad-despertar}
use aeropuerto.Cintas.Checkin
use aeropuerto.Cintas.Checkin.{Cinta}
use aeropuerto.Cintas.Checkin.Invariante.{equipajes}
use aeropuerto.Cintas.Carga.{
  CintaCarga, despertar_consumidores, checkin_ya_cerro, cantidad_valijas_totales,
  avisar_cierre_de_checkin, sacar_equipaje,
}
use aeropuerto.Cintas.Carga.Invariante.{
  EsCarga, aviso_pendiente, avisar_cierre_de_checkin-EsCarga, sacar_equipaje-Saco,
}

module _ {ℓ} {T : Type ℓ} (nulo : T) (k : CintaCarga T) (v : EsCarga k) where
  consumidor_despierto :
      (n id_consumidor : ℕ)
      → 0 < id_consumidor
      → id_consumidor ≤ k.cinta.consumidores.cantidad
      → esperar_turno (id_consumidor - 1) (avisar_cierre_de_checkin n k).cinta.consumidores ≢ none
  unfolding avisar_cierre_de_checkin despertar_consumidores Checkin.despertar_consumidores
  consumidor_despierto n id_consumidor hp hc =
      esperar_turno-ne-none (id_consumidor - 1) (despertar k.cinta.consumidores)
        (omega (arith, cantidad-despertar k.cinta.consumidores)) (λ (e : ⊥). e)
        (despertar-Turnos k.cinta.consumidores v.cinta.consumidores)

  no_espera_el_cierre :
      (n id_consumidor : ℕ)
      → 0 < id_consumidor
      → id_consumidor ≤ k.cinta.consumidores.cantidad
      → sacar_equipaje nulo id_consumidor (avisar_cierre_de_checkin n k) ≢ none
  unfolding sacar_equipaje
  no_espera_el_cierre n id_consumidor hp hc e =
      consumidor_despierto n id_consumidor hp hc (ground arith)

  pub avisar_cierre_de_checkin-campos :
      (n : ℕ)
      → let k' = avisar_cierre_de_checkin n k in
        (k'.checkin_cerrado ≡ 1)
        × (k'.numero_de_valijas_totales ≡ n)
        × (k'.ya_me_desperto ≡ k.ya_me_desperto)
        × (k'.cinta.consumidores.cantidad ≡ k.cinta.consumidores.cantidad)
        × (equipajes nulo k'.cinta ≡ equipajes nulo k.cinta)
  unfolding avisar_cierre_de_checkin despertar_consumidores Checkin.despertar_consumidores
  avisar_cierre_de_checkin-campos n =
      (refl, refl, refl, cantidad-despertar k.cinta.consumidores, refl)

  -- The closing always reaches a consumer that has not been told, also one that sleeps on an empty
  -- belt: after `avisar_cierre_de_checkin` his next pass does not wait, returns the default piece,
  -- leaves every piece on the belt, and from then on he reads the number of pieces announced.
  pub avisar_cierre_de_checkin_llega :
      (n id_consumidor : ℕ)
      → 0 < id_consumidor
      → id_consumidor ≤ k.cinta.consumidores.cantidad
      → k.ya_me_desperto ≡ false
      → (k' : CintaCarga T) × (sacar_equipaje nulo id_consumidor (avisar_cierre_de_checkin n k)
          ≡ some (k', some nulo))
        × (equipajes nulo k'.cinta ≡ equipajes nulo k.cinta)
        × (checkin_ya_cerro k' ≡ true)
        × (cantidad_valijas_totales k' ≡ some n)
  unfolding checkin_ya_cerro cantidad_valijas_totales
  avisar_cierre_de_checkin_llega n id_consumidor hp hc no_sabe =
      elim (Option-cases (sacar_equipaje nulo id_consumidor (avisar_cierre_de_checkin n k))) [
        | inl waits ↦ absurd (no_espera_el_cierre n id_consumidor hp hc waits)
        | inr ((k', elemento), e) ↦
            let c = avisar_cierre_de_checkin-campos n in
            let pendiente : aviso_pendiente (avisar_cierre_de_checkin n k) ≡ true = ground arith in
            let s =
              sacar_equipaje-Saco nulo (avisar_cierre_de_checkin n k)
                (avisar_cierre_de_checkin-EsCarga k v n) id_consumidor hp (omega arith) e in
            (
              k',
              ground (arith, s.5 pendiente),
              sym (rw pendiente at s.4) ∙ c.4,
              ground arith,
              ground arith,
            )
      ]
