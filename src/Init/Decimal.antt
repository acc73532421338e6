-- ===== src/Init/Decimal.antt =====
-- Numbers in decimal: what `parse_int_val` and `parse_size_t_val` read is what was written.
use aeropuerto.Base.{
  ℕ, zero, suc, ◌+◌, ◌-◌, ◌*◌, ◌/◌, ◌%◌, ◌≤◌, ◌<◌, ◌≡◌, ◌∙◌, refl, ap, [], ◌∷◌, ◌++◌, true, false,
  if◌then◌else◌, length, get_or, arith, ◌==◌, ltb, Bool-cases, inl, inr,
}
use aeropuerto.Init.{
  Texto, pos, neg, es_cifra, contar_cifras, valor_desde, parse_int_val, parse_size_t_val,
}

-- The digits of `n` before those of `acc`; `n + 1` rounds are more than enough.
abbrev pub cifras : (rounds n : ℕ) → Texto → Texto
cifras zero n acc = acc
cifras (suc rounds) n acc =
    let rest = cifras rounds (n / 10) ((48 + n % 10) ∷ acc) in
    if ltb n 10 then (48 + n) ∷ acc else rest

abbrev pub decimal : ℕ → Texto
decimal n = cifras (n + 1) n []

pub es_cifra_of_digit : (d : ℕ) → d < 10 → es_cifra (48 + d) ≡ true
es_cifra_of_digit d h = ground arith

valor_desde-digit :
    (n d : ℕ) (acc : Texto) → d < 10 → valor_desde n ((48 + d) ∷ acc) ≡ valor_desde (n * 10 + d) acc
valor_desde-digit n d acc h =
    rw (es_cifra_of_digit d h)
      (ap (λ k. valor_desde (n * 10 + k) acc) {x = 48 + d - 48} (omega arith))

valor_desde-cifras :
    (rounds n : ℕ) (acc : Texto)
    → n < rounds
    → valor_desde 0 (cifras rounds n acc) ≡ valor_desde n acc
valor_desde-cifras zero n acc h = absurd (omega arith)
valor_desde-cifras (suc rounds) n acc h = elim (Bool-cases (ltb n 10)) [
  | inl digit ↦ rw digit (
      valor_desde-digit 0 n acc (ground arith)
      ∙ ap (λ k. valor_desde k acc) {x = 0 * 10 + n} (omega arith))
  | inr more ↦
      let big : 10 ≤ n = ground arith in
      rw more (
        valor_desde-cifras rounds (n / 10) ((48 + n % 10) ∷ acc) (omega arith)
        ∙ valor_desde-digit (n / 10) (n % 10) acc (omega arith)
        ∙ ap (λ k. valor_desde k acc) {x = n / 10 * 10 + n % 10} (omega arith))
]

contar_cifras-cifras :
    (rounds n : ℕ) (acc : Texto)
    → n < rounds
    → contar_cifras acc ≡ length acc
    → contar_cifras (cifras rounds n acc) ≡ length (cifras rounds n acc)
contar_cifras-cifras zero n acc h e = e
contar_cifras-cifras (suc rounds) n acc h e = elim (Bool-cases (ltb n 10)) [
  | inl digit ↦
      let small : n < 10 = ground arith in rw digit (rw (es_cifra_of_digit n small) (ap suc e))
  | inr more ↦
      let big : 10 ≤ n = ground arith in
      rw more (
        contar_cifras-cifras rounds (n / 10) ((48 + n % 10) ∷ acc) (omega arith)
          (rw (es_cifra_of_digit (n % 10) (omega arith)) (ap suc e)))
]

cabeza :
    (rounds n : ℕ) (acc : Texto)
    → n < rounds
    → (c : ℕ) × (cs : Texto) × (cifras rounds n acc ≡ c ∷ cs) × (48 ≤ c) × (c < 58)
cabeza zero n acc h = absurd (omega arith)
cabeza (suc rounds) n acc h = elim (Bool-cases (ltb n 10)) [
  | inl digit ↦
      let small : n < 10 = ground arith in rw digit (48 + n, acc, refl, omega arith, omega arith)
  | inr more ↦
      let big : 10 ≤ n = ground arith in
      rw more (cabeza rounds (n / 10) ((48 + n % 10) ∷ acc) (omega arith))
]

pub cifras-append :
    (rounds n : ℕ) (acc rest : Texto)
    → n < rounds
    → cifras rounds n acc ++ rest ≡ cifras rounds n (acc ++ rest)
cifras-append zero n acc rest h = absurd (omega arith)
cifras-append (suc rounds) n acc rest h = elim (Bool-cases (ltb n 10)) [
  | inl digit ↦ rw digit refl
  | inr more ↦
      let big : 10 ≤ n = ground arith in
      rw more (cifras-append rounds (n / 10) ((48 + n % 10) ∷ acc) rest (omega arith))
]

-- The number in front of something else.
pub valor_desde-decimal :
    (n c : ℕ) (rest : Texto) → es_cifra c ≡ false → valor_desde 0 (decimal n ++ c ∷ rest) ≡ n
valor_desde-decimal n c rest h =
    ap (valor_desde 0) (cifras-append (n + 1) n [] (c ∷ rest) (omega arith))
    ∙ valor_desde-cifras (n + 1) n (c ∷ rest) (omega arith)
    ∙ rw h refl

pub contar_cifras-decimal :
    (n : ℕ) (rest : Texto) → (contar_cifras (decimal n ++ rest) == 0) ≡ false
contar_cifras-decimal n rest =
    let (c, cs, e, h, h') = cabeza (n + 1) n [] (omega arith) in
    let d : es_cifra c ≡ true = ground arith in
    ap (λ t. contar_cifras (t ++ rest) == 0) e ∙ rw d (ground arith)

-- Digits without a sign.
sin_signo :
    (sizeof_int sizeof_equipaje : ℕ) (val : Texto)
    → ¬ (get_or val 0 0 ≡ 45)
    → contar_cifras val ≡ length val
    → parse_int_val sizeof_int sizeof_equipaje val ≡ pos (valor_desde 0 val)
unfolding parse_int_val
sin_signo sizeof_int sizeof_equipaje [] h e = refl
sin_signo sizeof_int sizeof_equipaje (c ∷ cs) h e =
    let n : (c == 45) ≡ false = ground arith in
    let p : (contar_cifras (c ∷ cs) == length (c ∷ cs)) ≡ true = ground arith in rw (n, p) refl

module _ (sizeof_int sizeof_equipaje n : ℕ) where
  pub contadas : contar_cifras (decimal n) ≡ length (decimal n)
  contadas = contar_cifras-cifras (n + 1) n [] (omega arith) refl

  -- `parse_int_val` of a number in decimal is the number,
  -- and with a minus sign in front its opposite.
  pub parse_int_val-decimal :
      (parse_int_val sizeof_int sizeof_equipaje (decimal n) ≡ pos n)
      × (parse_int_val sizeof_int sizeof_equipaje (45 ∷ decimal n) ≡ neg n)
  unfolding parse_int_val
  parse_int_val-decimal =
      let (c, cs, e, h, _) = cabeza (n + 1) n [] (omega arith) in
      let v = valor_desde-cifras (n + 1) n [] (omega arith) in
      let p : (contar_cifras (decimal n) == length (decimal n)) ≡ true = ground (arith, contadas) in
      (
        sin_signo sizeof_int sizeof_equipaje (decimal n)
              (λ f. omega (arith, ap (λ l. get_or l 0 0) e)) contadas
            ∙ ap pos v,
        rw p (ap neg v),
      )

  -- `parse_size_t_val` of a number in decimal is the number.
  pub parse_size_t_val-decimal : parse_size_t_val sizeof_int sizeof_equipaje (decimal n) ≡ n
  unfolding parse_size_t_val
  parse_size_t_val-decimal =
      let p : (contar_cifras (decimal n) == length (decimal n)) ≡ true = ground (arith, contadas) in
      rw p (valor_desde-cifras (n + 1) n [] (omega arith))
