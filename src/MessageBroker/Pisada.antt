-- ===== src/MessageBroker/Pisada.antt =====
-- The entries that an identifier of 255 or more characters runs over, as `pisar` leaves them.
use aeropuerto.Base.{
  ℕ, zero, suc, ◌+◌, ◌-◌, ◌*◌, ◌≤◌, ◌<◌, ◌≡◌, ◌∙◌, refl, sym, ap, List, [], ◌∷◌, false, get_or,
  length, drop, arith, ltb, Bool-cases, inl, inr,
}
use aeropuerto.Grupo.{Nombre}
use aeropuerto.MessageBroker.{Colas, pisar}

length-drop {ℓ} : {A : Type ℓ} (n : ℕ) (xs : List A) → length (drop n xs) ≡ length xs - n
length-drop zero xs = omega arith
length-drop (suc n) [] = omega arith
length-drop (suc n) (x ∷ xs) = omega (arith, length-drop n xs)

drop-nil {ℓ} : {A : Type ℓ} (n : ℕ) → drop {A = A} n [] ≡ []
drop-nil zero = refl
drop-nil (suc n) = refl

drop-add {ℓ} : {A : Type ℓ} (n m : ℕ) (xs : List A) → drop (n + m) xs ≡ drop m (drop n xs)
drop-add zero m xs = ap (λ k. drop k xs) {x = zero + m} {y = m} (omega arith)
drop-add (suc n) m [] = drop-nil (suc n + m) ∙ sym (drop-nil m)
drop-add (suc n) m (x ∷ xs) =
    ap (λ k. drop k (x ∷ xs)) {x = suc n + m} {y = suc (n + m)} (omega arith) ∙ drop-add n m xs

-- The entries before it stay.
pub pisar-antes :
    (i : ℕ) (q : Nombre) (t : Colas) (j : ℕ) → j < i → get_or (pisar i q t) j [] ≡ get_or t j []
pisar-antes zero q t j h = absurd (omega arith)
pisar-antes (suc i) q [] j h = refl
pisar-antes (suc i) q (x ∷ xs) zero h = refl
pisar-antes (suc i) q (x ∷ xs) (suc j) h = pisar-antes i q xs j (omega arith)

-- The entry `k` places on has what is left of the identifier there, up to the entry with the 0.
pub pisar-desde :
    (i : ℕ) (q : Nombre) (t : Colas) (k : ℕ)
    → i + k < length t
    → 255 * k ≤ length q
    → get_or (pisar i q t) (i + k) [] ≡ drop (255 * k) q
pisar-desde i q [] k h l = absurd (omega arith)
pisar-desde (suc i) q (x ∷ xs) k h l =
    ap (λ j. get_or (x ∷ pisar i q xs) j []) {x = suc i + k} {y = suc (i + k)} (omega arith)
    ∙ pisar-desde i q xs k (omega arith) l
pisar-desde zero q (x ∷ xs) zero h l = refl
pisar-desde zero q (x ∷ xs) (suc k) h l =
    let n : ltb (length q) 255 ≡ false = ground arith in
    let r = pisar-desde zero (drop 255 q) xs k (omega arith) (omega (arith, length-drop 255 q)) in
    ap (λ j. get_or (pisar zero q (x ∷ xs)) j []) {x = zero + suc k} {y = suc (zero + k)}
      (omega arith)
    ∙ rw n r
    ∙ sym (drop-add 255 (255 * k) q)
    ∙ ap (λ j. drop j q) {x = 255 + 255 * k} {y = 255 * suc k} (omega arith)

-- The entries behind that stay.
pub pisar-tras :
    (i : ℕ) (q : Nombre) (t : Colas) (k : ℕ)
    → length q < 255 * k
    → get_or (pisar i q t) (i + k) [] ≡ get_or t (i + k) []
pisar-tras zero q [] k l = refl
pisar-tras (suc i) q [] k l = refl
pisar-tras (suc i) q (x ∷ xs) k l =
    ap (λ j. get_or (x ∷ pisar i q xs) j []) {x = suc i + k} {y = suc (i + k)} (omega arith)
    ∙ pisar-tras i q xs k l
    ∙ ap (λ j. get_or (x ∷ xs) j []) {x = suc (i + k)} {y = suc i + k} (omega arith)
pisar-tras zero q (x ∷ xs) zero l = absurd (omega arith)
pisar-tras zero q (x ∷ xs) (suc k) l =
    let e =
      ap (λ j. get_or (pisar zero q (x ∷ xs)) j []) {x = zero + suc k} {y = suc (zero + k)}
        (omega arith) in
    let f = ap (λ j. get_or (x ∷ xs) j []) {x = suc (zero + k)} {y = zero + suc k} (omega arith) in
    elim (Bool-cases (ltb (length q) 255)) [
      | inl fits ↦ e ∙ rw fits refl ∙ f
      | inr long ↦
          let big : 255 ≤ length q = ground arith in
          let r = pisar-tras zero (drop 255 q) xs k (omega (arith, length-drop 255 q)) in
          e ∙ rw long r ∙ f
    ]
