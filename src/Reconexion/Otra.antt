-- ===== src/Reconexion/Otra.antt =====
-- The search for another broker.
use aeropuerto.Base.{
  ℕ, ==_iff, zero, suc, ◌+◌, ◌%◌, ◌≤◌, ◌<◌, ◌≡◌, ◌∙◌, refl, sym, ap, Bool, true, false, ◌==◌,
  Bool-cases, inl, inr, arith,
}
use aeropuerto.Base.Anillo.{step-mod, no_vuelve}
use aeropuerto.Reconexion.{sigue, mismo_broker, otro_broker, reconectar}

dos_mas : (n cant : ℕ) → 3 ≤ cant → n < cant → (((n + 1) % cant + 1) % cant == n) ≡ false
dos_mas n cant c h =
    let m : ((n + 1) % cant + 1) % cant ≡ (n + 2) % cant =
      step-mod n 1 cant ∙ ap (λ k. k % cant) {x = n + 2} refl in
    elim (Bool-cases (((n + 1) % cant + 1) % cant == n)) [
      | inl back ↦
          absurd (no_vuelve cant n 2 h (omega arith) (omega arith) (sym m ∙ (==_iff _ n).0 back))
      | inr away ↦ away
    ]

module _ (conecta : (intento broker : ℕ) → Bool) (cant_brokers numero_broker : ℕ)
    (tres : 3 ≤ cant_brokers) (dentro : numero_broker < cant_brokers)
    (caido : (intento : ℕ) → conecta intento numero_broker ≡ false)
    (caido_otro : (intento : ℕ)
      → conecta intento ((numero_broker + 1) % cant_brokers) ≡ false) where
  mismo_broker_lem :
      (faltan intento : ℕ) → mismo_broker conecta cant_brokers faltan intento numero_broker ≡ false
  mismo_broker_lem zero intento = refl
  mismo_broker_lem (suc faltan) intento = rw (caido intento) (mismo_broker_lem faltan (intento + 1))

  otro_broker_lem :
      (rounds intento : ℕ) → otro_broker conecta cant_brokers rounds intento numero_broker ≡ sigue
  otro_broker_lem zero intento = refl
  otro_broker_lem (suc rounds) intento =
      rw (caido_otro intento, dos_mas numero_broker cant_brokers tres dentro)
        (otro_broker_lem rounds (intento + 1))

  -- With three brokers or more, a client that has lost its broker for good tries the next one for ever,
  -- if that one cannot be reached either: the search does not end in any number of rounds, whether or
  -- not another broker can be reached.
  pub reconectar-sigue :
      (rounds : ℕ) → reconectar conecta cant_brokers rounds true numero_broker ≡ sigue
  unfolding reconectar
  reconectar-sigue rounds = rw (mismo_broker_lem 3 0) (otro_broker_lem rounds 3)
