-- ===== src/MessageBroker/Tabla.antt =====
-- A search in the table after one entry was written.
use aeropuerto.Base.{
  ℕ, zero, suc, ◌<◌, ◌≡◌, refl, sym, List, [], ◌∷◌, Bool, true, false, none, some, get_or, set,
  length, arith, true_ne_false,
}
use aeropuerto.Grupo.{Nombre, primero}
use aeropuerto.MessageBroker.{strcmp_igual}

module _ (p : Nombre → Bool) where
  -- What is not looked for is written over what is not looked for.
  pub primero-set_otro :
      (xs : List Nombre) (i : ℕ) (v : Nombre)
      → p (get_or xs i []) ≡ false
      → p v ≡ false
      → primero p (set xs i v) ≡ primero p xs
  primero-set_otro [] i v h k = refl
  primero-set_otro (x ∷ xs) zero v h k = rw (h, k) refl
  primero-set_otro (x ∷ xs) (suc i) v h k = let r = primero-set_otro xs i v h k in rw r refl

  primero-cons-none :
      (x : Nombre) (xs : List Nombre)
      → primero p (x ∷ xs) ≡ none
      → (p x ≡ false) × (primero p xs ≡ none)
  primero-cons-none x xs h = ground arith

  -- What was not there is written.
  pub primero-set_nuevo :
      (xs : List Nombre) (i : ℕ) (v : Nombre)
      → primero p xs ≡ none
      → i < length xs
      → p v ≡ true
      → primero p (set xs i v) ≡ some i
  primero-set_nuevo [] i v h l k = absurd (omega arith)
  primero-set_nuevo (x ∷ xs) zero v h l k = rw k refl
  primero-set_nuevo (x ∷ xs) (suc i) v h l k =
      let (a, b) = primero-cons-none x xs h in
      let r = primero-set_nuevo xs i v b (omega arith) k in rw (a, r) refl

pub strcmp_igual_refl : (a : Nombre) → strcmp_igual a a ≡ true
strcmp_igual_refl [] = refl
strcmp_igual_refl (x ∷ xs) = let r = strcmp_igual_refl xs in ground arith

pub strcmp_igual-eq : (a b : Nombre) → strcmp_igual a b ≡ true → a ≡ b
strcmp_igual-eq [] [] h = refl
strcmp_igual-eq [] (y ∷ ys) h = absurd (true_ne_false (sym h))
strcmp_igual-eq (x ∷ xs) [] h = absurd (true_ne_false (sym h))
strcmp_igual-eq (x ∷ xs) (y ∷ ys) h = ground (arith, strcmp_igual-eq xs ys)
