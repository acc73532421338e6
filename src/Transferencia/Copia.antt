-- ===== src/Transferencia/Copia.antt =====
-- Parts of lists, and a block that is copied by `memcpy` twice.
use aeropuerto.Base.{
  ℕ, zero, suc, ◌+◌, ◌-◌, ◌≤◌, ◌≡◌, ◌∙◌, refl, sym, ap, ap₂, List, [], ◌∷◌, ◌++◌, append_assoc,
  append-nil, take, drop, length, length-append, arith,
}
use aeropuerto.Transferencia.{memcpy}

module _ {ℓ} {A : Type ℓ} where
  pub take-drop : (n : ℕ) (xs : List A) → take n xs ++ drop n xs ≡ xs
  take-drop zero xs = refl
  take-drop (suc n) [] = refl
  take-drop (suc n) (x ∷ xs) = ap (λ l. x ∷ l) (take-drop n xs)

  pub length-take : (n : ℕ) (xs : List A) → n ≤ length xs → length (take n xs) ≡ n
  length-take zero xs h = refl
  length-take (suc n) [] h = absurd (omega arith)
  length-take (suc n) (x ∷ xs) h = omega (arith, length-take n xs)

  pub length-drop : (n : ℕ) (xs : List A) → length (drop n xs) ≡ length xs - n
  length-drop zero xs = omega arith
  length-drop (suc n) [] = omega arith
  length-drop (suc n) (x ∷ xs) = omega (arith, length-drop n xs)

  pub take_all : (n : ℕ) (xs : List A) → length xs ≤ n → take n xs ≡ xs
  take_all zero [] h = refl
  take_all zero (x ∷ xs) h = absurd (omega arith)
  take_all (suc n) [] h = refl
  take_all (suc n) (x ∷ xs) h = ap (λ l. x ∷ l) (take_all n xs (omega arith))

  pub drop_all : (n : ℕ) (xs : List A) → length xs ≤ n → drop n xs ≡ []
  drop_all zero [] h = refl
  drop_all zero (x ∷ xs) h = absurd (omega arith)
  drop_all (suc n) [] h = refl
  drop_all (suc n) (x ∷ xs) h = drop_all n xs (omega arith)

  drop-nil : (n : ℕ) → drop {A = A} n [] ≡ []
  drop-nil zero = refl
  drop-nil (suc n) = refl

  pub drop-drop : (n m : ℕ) (xs : List A) → drop m (drop n xs) ≡ drop (n + m) xs
  drop-drop zero m xs = ap (λ k. drop k xs) (omega arith)
  drop-drop (suc n) m [] = drop-nil m ∙ sym (drop-nil (suc n + m))
  drop-drop (suc n) m (x ∷ xs) =
      drop-drop n m xs ∙ ap (λ k. drop k (x ∷ xs)) {x = suc (n + m)} (omega arith)

  -- The first `n` of a list that begins with `n` others.
  pub take-append : (n : ℕ) (xs ys : List A) → length xs ≡ n → take n (xs ++ ys) ≡ xs
  take-append zero [] ys h = refl
  take-append zero (x ∷ xs) ys h = absurd (omega arith)
  take-append (suc n) [] ys h = absurd (omega arith)
  take-append (suc n) (x ∷ xs) ys h = ap (λ l. x ∷ l) (take-append n xs ys (omega arith))

-- What a memory holds once the blocks before position `p` have come from `mem`.
abbrev pub mezcla : (p : ℕ) (memoria mem : List ℕ) → List ℕ
mezcla p memoria mem = take p memoria ++ drop p mem

module _ (p b q : ℕ) (memoria mem datos : List ℕ) (dentro : p + b ≤ length mem) where
  -- A buffer that holds the block at `p` of `mem`.
  abbrev pub EsBloque : Type 0
  EsBloque = take b datos ≡ take b (drop p mem)

  -- Such a block that is copied to its place moves the boundary behind it.
  pub mezcla-bloque :
      EsBloque
      → length memoria ≡ length mem
      → q ≡ p + b
      → mezcla q (memcpy memoria p datos b) mem ≡ mezcla p memoria mem
  mezcla-bloque z e h =
      let inicio = take p memoria in
      let bloque = take b (drop p mem) in
      let resto = drop (p + b) memoria in
      let l : length (inicio ++ bloque) ≡ q = omega (
        arith,
        length-append inicio bloque,
        length-take p memoria (omega arith),
        length-take b (drop p mem) (omega (arith, length-drop p mem)),
      ) in
      ap (λ t. take q (inicio ++ t ++ resto) ++ drop q mem) z
      ∙ ap (λ t. t ++ drop q mem) (take-append q (inicio ++ bloque) resto l)
      ∙ append_assoc inicio bloque (drop q mem)
      ∙ ap (λ k. inicio ++ (bloque ++ drop k mem)) h
      ∙ ap (λ t. inicio ++ (bloque ++ t)) (sym (drop-drop p b mem))
      ∙ ap (λ t. inicio ++ t) (take-drop b (drop p mem))

-- The block at `p` in the buffer that it was copied to.
pub memcpy-EsBloque :
    (p b : ℕ) (mem datos : List ℕ) (dentro : p + b ≤ length mem)
    → take b (memcpy datos 0 (drop p mem) b) ≡ take b (drop p mem)
memcpy-EsBloque p b mem datos dentro =
    take-append b (take b (drop p mem)) (drop (0 + b) datos)
      (length-take b (drop p mem) (omega (arith, length-drop p mem)))

-- Behind the end of both memories the boundary does not matter.
pub mezcla_all :
    (p : ℕ) (memoria mem : List ℕ)
    → length memoria ≤ p
    → length mem ≤ p
    → mezcla p memoria mem ≡ memoria
mezcla_all p memoria mem h k =
    ap₂ ◌++◌ (take_all p memoria h) (drop_all p mem k) ∙ append-nil memoria

pub length-memcpy :
    (p b : ℕ) (memoria datos : List ℕ)
    → p + b ≤ length memoria
    → b ≤ length datos
    → length (memcpy memoria p datos b) ≡ length memoria
length-memcpy p b memoria datos h k = omega (
  arith,
  length-append (take p memoria ++ take b datos) (drop (p + b) memoria),
  length-append (take p memoria) (take b datos),
  length-take p memoria (omega arith),
  length-take b datos k,
  length-drop (p + b) memoria,
)
