-- ===== src/Init/Lineas.antt =====
-- Whole lines of a file of initial contents.
use aeropuerto.Base.{
  ℕ, ◌+◌, ◌*◌, ◌/◌, ◌%◌, ◌≤◌, leb, ltb, lt→ltb, Bool-cases, inl, inr, if◌then◌else◌, length-append,
  replicate, codes, zero, suc, ◌<◌, ◌≡◌, ◌∙◌, refl, ap, ap₂, List, [], ◌∷◌, ◌++◌, Bool, true, false,
  ◌||◌, Option, none, some, length, get_or, arith, ◌==◌,
}
use aeropuerto.Init.{
  escribir, leer_lineas, leer_partes, inicializar_memoria, Texto, ℤ, pos, InitParser, t_int, hasta,
  saltar_espacios, partir, Partes, tras_tipo, contar_cifras, es_cifra, parse_int_val, parse_line,
}
use aeropuerto.Init.Decimal.{cifras, decimal, contadas, parse_int_val-decimal}

-- The scan stops at the first character that it is to stop at.
hasta-append :
    (p : ℕ → Bool) (a : Texto) (x : ℕ) (b : Texto)
    → ((j : ℕ) → j < length a → p (get_or a j 0) ≡ false)
    → p x ≡ true
    → hasta p (a ++ x ∷ b) ≡ some (a, b)
hasta-append p [] x b h e = rw e refl
hasta-append p (c ∷ cs) x b h e =
    rw (h 0 (omega arith), hasta-append p cs x b (λ j k. h (suc j) (omega arith)) e) refl

-- A digit is neither a space nor a bracket.
get_or-cifra :
    (a : Texto) (j : ℕ) → contar_cifras a ≡ length a → j < length a → es_cifra (get_or a j 0) ≡ true
get_or-cifra [] j e h = absurd (omega arith)
get_or-cifra (c ∷ cs) zero e h = ground arith
get_or-cifra (c ∷ cs) (suc j) e h = get_or-cifra cs j (ground arith) (omega arith)

cifra-otra : (c : ℕ) → es_cifra c ≡ true → (c == 32) || (c == 93) ≡ false
cifra-otra c h = ground arith

primera-cifra : (a : Texto) → contar_cifras a ≡ length a → ¬ (get_or a 0 0 ≡ 32)
primera-cifra [] e h = omega arith
primera-cifra (c ∷ cs) e h = ground (arith, get_or-cifra (c ∷ cs) 0 e)

saltar_espacios-ne : (a : Texto) → ¬ (get_or a 0 0 ≡ 32) → saltar_espacios a ≡ a
saltar_espacios-ne [] h = refl
saltar_espacios-ne (c ∷ cs) h = let n : (c == 32) ≡ false = ground arith in rw n refl

partir_valor :
    (val : Texto)
    → ¬ (get_or val 0 0 ≡ 32)
    → ¬ (get_or val 0 0 ≡ 91)
    → partir (codes "int " ++ val)
      ≡ some (record { tipo = codes "int"; vector = none; valor = val })
unfolding partir
partir_valor [] h k = refl
partir_valor (c ∷ cs) h k =
    let m : (c == 91) ≡ false = ground arith in
    ap (tras_tipo (codes "int")) (saltar_espacios-ne (c ∷ cs) h) ∙ rw m refl

partir_vector :
    (v val : Texto)
    → ((j : ℕ) → j < length v → (get_or v j 0 == 32) || (get_or v j 0 == 93) ≡ false)
    → ¬ (get_or val 0 0 ≡ 32)
    → partir (codes "int [" ++ v ++ (codes "] " ++ val))
      ≡ some (record { tipo = codes "int"; vector = some v; valor = val })
unfolding partir
partir_vector v val h k =
    ap
      (λ o. elim o as (λ x. Option Partes) [
        | none ↦ none
        | some (w, rest) ↦
            some (record { tipo = codes "int"; vector = some w; valor = saltar_espacios rest })
      ])
      (hasta-append (λ k. k == 32 || k == 93) v 93 (32 ∷ val) h refl)
    ∙ ap (λ l. some (record { tipo = codes "int"; vector = some v; valor = l }))
        (saltar_espacios-ne val k)

module _ (sizeof_int sizeof_equipaje : ℕ) where
  parse_line-partir :
      (line : Texto) {p : Partes}
      → partir line ≡ some p
      → parse_line sizeof_int sizeof_equipaje line ≡ some (leer_partes sizeof_int sizeof_equipaje p)
  unfolding parse_line
  parse_line-partir line e =
      ap
        (λ o. elim o as (λ x. Option InitParser) [
          | none ↦ none
          | some p ↦ some (leer_partes sizeof_int sizeof_equipaje p)
        ])
        e

  -- A line `int VALOR` sets `vector` to 1 and reads the value, whatever the value is that
  -- does not begin with a space or a bracket.
  pub parse_line_valor :
      (val : Texto)
      → ¬ (get_or val 0 0 ≡ 32)
      → ¬ (get_or val 0 0 ≡ 91)
      → parse_line sizeof_int sizeof_equipaje (codes "int " ++ val)
        ≡ some (record {
          tipo = t_int;
          cant_vector = pos 1;
          valor_int = parse_int_val sizeof_int sizeof_equipaje val;
        })
  parse_line_valor val h k = parse_line-partir (codes "int " ++ val) (partir_valor val h k)

  -- A line `int [CANTIDAD] VALOR` reads both, whatever they are: the number of cells up to the bracket,
  -- without a space or a bracket in it, and the value, which does not begin with a space.
  pub parse_line_vector :
      (v val : Texto)
      → ((j : ℕ) → j < length v → (get_or v j 0 == 32) || (get_or v j 0 == 93) ≡ false)
      → ¬ (get_or val 0 0 ≡ 32)
      → parse_line sizeof_int sizeof_equipaje (codes "int [" ++ v ++ (codes "] " ++ val))
        ≡ some (record {
          tipo = t_int;
          cant_vector = parse_int_val sizeof_int sizeof_equipaje v;
          valor_int = parse_int_val sizeof_int sizeof_equipaje val;
        })
  parse_line_vector v val h k =
      parse_line-partir (codes "int [" ++ v ++ (codes "] " ++ val)) (partir_vector v val h k)

  -- A line `int [n] m` with numbers in decimal sets `vector` to `n` and the value to `m`.
  pub parse_line-decimal :
      (n m : ℕ)
      → parse_line sizeof_int sizeof_equipaje
          (codes "int [" ++ decimal n ++ (codes "] " ++ decimal m))
        ≡ some (record { tipo = t_int; cant_vector = pos n; valor_int = pos m })
  parse_line-decimal n m =
      parse_line_vector (decimal n) (decimal m)
        (λ j h.
          cifra-otra (get_or (decimal n) j 0)
            (get_or-cifra (decimal n) j (contadas sizeof_int sizeof_equipaje n) h))
        (primera-cifra (decimal m) (contadas sizeof_int sizeof_equipaje m))
      ∙ ap₂ (λ a b. some (record { tipo = t_int; cant_vector = a; valor_int = b }))
          ((parse_int_val-decimal sizeof_int sizeof_equipaje n).0)
          ((parse_int_val-decimal sizeof_int sizeof_equipaje m).0)

-- The lines `int [n] m` of some pairs, and the cells that they describe.
abbrev pub lineas : List (ℕ × ℕ) → List Texto
lineas [] = []
lineas ((n, m) ∷ ps) = (codes "int [" ++ decimal n ++ (codes "] " ++ decimal m)) ∷ lineas ps

abbrev pub celdas : List (ℕ × ℕ) → List ℤ
celdas [] = []
celdas ((n, m) ∷ ps) = replicate n (pos m) ++ celdas ps

-- The numbers are `int`s.
abbrev pub Caben : List (ℕ × ℕ) → Type 0
Caben [] = Unit {0}
Caben ((n, m) ∷ ps) = (n < 2147483648) × (m < 2147483648) × Caben ps

abbrev diez_a_la_suc : ℕ → ℕ
diez_a_la_suc zero = 10
diez_a_la_suc (suc k) = 10 * diez_a_la_suc k

length-cifras :
    (k rounds n : ℕ) (acc : Texto)
    → n < diez_a_la_suc k
    → length (cifras rounds n acc) ≤ suc k + length acc
length-cifras k zero n acc h = omega arith
length-cifras zero (suc rounds) n acc h =
    let d : ltb n 10 ≡ true = ground arith in rw d (omega arith)
length-cifras (suc k) (suc rounds) n acc h = elim (Bool-cases (ltb n 10)) [
  | inl digit ↦ rw digit (omega arith)
  | inr more ↦
      rw more (omega (arith, length-cifras k rounds (n / 10) ((48 + n % 10) ∷ acc) (omega arith)))
]

length-decimal : (n : ℕ) → n < 2147483648 → length (decimal n) ≤ 10
length-decimal n h = omega (arith, length-cifras 9 (n + 1) n [] (omega arith))

length-linea :
    (n m : ℕ)
    → n < 2147483648
    → m < 2147483648
    → length (codes "int [" ++ decimal n ++ (codes "] " ++ decimal m)) < 100
length-linea n m h k = omega (
  arith,
  length-append (decimal n) (codes "] " ++ decimal m),
  length-decimal n h,
  length-decimal m k,
)

module _ (sizeof_int sizeof_equipaje : ℕ) where
  escribir-caben :
      (n m : ℕ) (memoria : List ℤ)
      → n < 2147483648
      → m < 2147483648
      → escribir sizeof_int sizeof_equipaje
          (some (record { tipo = t_int; cant_vector = pos n; valor_int = pos m }))
          (some memoria)
        ≡ some (replicate n (pos m) ++ memoria)
  escribir-caben n m memoria h k = rw (lt→ltb n 2147483648 h, lt→ltb m 2147483648 k) refl

  leer_lineas-lineas :
      (ps : List (ℕ × ℕ))
      → Caben ps
      → leer_lineas sizeof_int sizeof_equipaje (lineas ps) ≡ some (celdas ps)
  leer_lineas-lineas [] c = refl
  leer_lineas-lineas ((n, m) ∷ ps) (h, k, c) =
      let line = codes "int [" ++ decimal n ++ (codes "] " ++ decimal m) in
      rw (lt→ltb (length line) 100 (length-linea n m h k)) (
        ap₂ (escribir sizeof_int sizeof_equipaje)
          (parse_line-decimal sizeof_int sizeof_equipaje n m) (leer_lineas-lineas ps c)
        ∙ escribir-caben n m (celdas ps) h k)

  -- The lines `int [n] m` with numbers in decimal below 2 ^ 31 fill the memory with the cells that
  -- they describe, in order, if it has room for them, and else are written over its end. If
  -- the group has no memory, nothing is written.
  pub inicializar_memoria-lineas :
      (mem_size : ℕ) (ps : List (ℕ × ℕ))
      → Caben ps
      → inicializar_memoria sizeof_int sizeof_equipaje mem_size (lineas ps) ≡ (
          if mem_size == 0
          then some []
          else if leb (sizeof_int * length (celdas ps)) mem_size
          then some (celdas ps)
          else none)
  unfolding inicializar_memoria
  inicializar_memoria-lineas mem_size ps c = elim (Bool-cases (mem_size == 0)) [
    | inl nada ↦ rw nada refl
    | inr hay ↦ rw hay (rw (leer_lineas-lineas ps c) refl)
  ]
