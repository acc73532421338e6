-- ===== src/Reconexion/Primera.antt =====
-- The first connection.
use aeropuerto.Base.{
  ℕ, zero, suc, ◌+◌, ◌-◌, ◌%◌, ◌≤◌, ◌<◌, ◌≡◌, ◌∙◌, ap, subst, Bool, true, false, ◌==◌, Bool-cases,
  inl, inr, arith, dec_lt,
}
use native.Mathlib.Nat.{mod-eq_of_lt, mod_self}
use aeropuerto.Reconexion.{Conexion, conectado_a, lanza, sigue, primera_vez, reconectar}

module _ (conecta : (intento broker : ℕ) → Bool) (cant_brokers : ℕ) where
  -- Broker `i` was tried in attempt `i`.
  abbrev Caidos : (desde hasta : ℕ) → Type 0
  Caidos desde hasta = (j : ℕ) → desde ≤ j → j < hasta → conecta j j ≡ false

  abbrev pub TrasPrimera : ℕ → Conexion → Type 0
  TrasPrimera i (conectado_a k) = (k < cant_brokers) × (conecta k k ≡ true) × Caidos i k
  TrasPrimera i lanza = Caidos i cant_brokers
  TrasPrimera i sigue = ⊥

  Caidos-cons : (i k : ℕ) → conecta i i ≡ false → Caidos (i + 1) k → Caidos i k
  Caidos-cons i k f c j a b = elim (Bool-cases (j == i)) [
    | inl same ↦ let e : i ≡ j = ground arith in subst (λ j. conecta j j ≡ false) e f
    | inr other ↦ c j (ground arith) b
  ]

  TrasPrimera-cons :
      (i : ℕ) (o : Conexion) → conecta i i ≡ false → TrasPrimera (i + 1) o → TrasPrimera i o
  TrasPrimera-cons i (conectado_a k) f (a, b, c) = (a, b, Caidos-cons i k f c)
  TrasPrimera-cons i lanza f c = Caidos-cons i cant_brokers f c
  TrasPrimera-cons i sigue f c = c

  primera_vez_lem :
      (rounds i : ℕ)
      → i < cant_brokers
      → rounds ≡ cant_brokers - i
      → TrasPrimera i (primera_vez conecta cant_brokers rounds i i)
  primera_vez_lem zero i h r = absurd (omega arith)
  primera_vez_lem (suc rounds) i h r = elim (Bool-cases (conecta i i)) [
    | inl up ↦ rw up (h, up, λ j a b. absurd (omega arith))
    | inr down ↦ elim (dec_lt (i + 1) cant_brokers) [
      | yes mas ↦
          let m : (i + 1) % cant_brokers ≡ i + 1 = mod-eq_of_lt mas in
          let z : (i + 1 == 0) ≡ false = ground arith in
          rw (down, m, z)
            (TrasPrimera-cons i (primera_vez conecta cant_brokers rounds (i + 1) (i + 1)) down
              (primera_vez_lem rounds (i + 1) mas (omega arith)))
      | no last ↦
          let m : (i + 1) % cant_brokers ≡ 0 =
            ap (λ k. k % cant_brokers) {y = cant_brokers} (omega arith) ∙ mod_self cant_brokers in
          rw (down, m) (Caidos-cons i cant_brokers down (λ j a b. absurd (omega arith)))
    ]
  ]

  -- The first connection ends within as many rounds as there are brokers: with the first of them that
  -- can be reached when it is tried, or with the error if none can be reached.
  pub reconectar_primera :
      (numero_broker : ℕ)
      → 0 < cant_brokers
      → TrasPrimera 0 (reconectar conecta cant_brokers cant_brokers false numero_broker)
  unfolding reconectar
  reconectar_primera numero_broker h = primera_vez_lem cant_brokers 0 h (omega arith)
