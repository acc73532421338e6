-- ===== src/Base/Anillo.antt =====
-- The contents of a ring: `n` items of an array from index `h` on, going round at `cap`.
use aeropuerto.Base.Lists.{length, get_or, set, length-set, get_or-set}
use native.Mathlib.Omega.{arith}
use native.Mathlib.Decide.{dec_lt}
use native.Mathlib.Nat.{mod-add-mod, mod-eq_of_lt, mod-eq-sub-mod, add-zero}
use mathlib.Core.List.{List, [], ◌∷◌, ◌++◌}
use mathlib.Core.Logic.{◌≢◌, ◌⊎◌, inl, inr}
use mathlib.Core.Path.{◌≡◌, refl, sym, ◌∙◌, ap, ap₂}
use Prim.Native.Nat.{ℕ, zero, suc, ◌+◌, ◌-◌, ◌%◌, ◌≤◌, ◌<◌}

-- An index that is moved on goes round at most once.
una_vuelta :
    (tam desde pasos : ℕ)
    → desde < tam
    → pasos < tam
    → ((desde + pasos) % tam ≡ desde + pasos) ⊎ ((desde + pasos) % tam + tam ≡ desde + pasos)
una_vuelta tam desde pasos hd hp = elim (dec_lt (desde + pasos) tam) [
  | yes stays ↦ inl (mod-eq_of_lt stays)
  | no turns ↦ inr (
      let less = desde + pasos - tam in
      let turned = mod-eq-sub-mod {n = desde + pasos} {m = tam} (omega arith) in
      let rest = mod-eq_of_lt {n = less} {m = tam} (omega arith) in omega (arith, turned, rest))
]

-- So it comes back to where it was only after the whole round.
pub no_vuelve :
    (tam desde pasos : ℕ)
    → desde < tam
    → 0 < pasos
    → pasos < tam
    → ¬ ((desde + pasos) % tam ≡ desde)
no_vuelve tam desde pasos hd h0 hp e = elim (una_vuelta tam desde pasos hd hp) [
  | inl stays ↦ omega arith
  | inr turns ↦ omega arith
]

-- Two steps in the ring are one step of their sum.
pub step-mod : (h n cap : ℕ) → ((h + 1) % cap + n) % cap ≡ (h + suc n) % cap
step-mod h n cap = mod-add-mod (h + 1) cap n ∙ ap (λ k. k % cap) (omega arith)

module _ {ℓ} {T : Type ℓ} (nulo : T) where
  abbrev pub ventana : List T → ℕ → ℕ → ℕ → List T
  ventana buf cap h zero = []
  ventana buf cap h (suc n) = get_or buf h nulo ∷ ventana buf cap ((h + 1) % cap) n

  -- `ventana` matches on `suc`, the code counts down from a number that is not 0.
  pub ventana_of_ne_zero :
      (buf : List T) (cap h n : ℕ)
      → n ≢ 0
      → ventana buf cap h n ≡ get_or buf h nulo ∷ ventana buf cap ((h + 1) % cap) (n - 1)
  ventana_of_ne_zero buf cap h zero p = absurd (p refl)
  ventana_of_ne_zero buf cap h (suc n) p = ap (λ k. ventana buf cap h (suc k)) (omega arith)

  pub length-ventana : (buf : List T) (cap h n : ℕ) → length (ventana buf cap h n) ≡ n
  length-ventana buf cap h zero = refl
  length-ventana buf cap h (suc n) = ap suc (length-ventana buf cap ((h + 1) % cap) n)

  -- To write at the first free index is to append.
  ventana-set :
      (buf : List T) (tam n desde libre : ℕ) (x : T)
      → tam ≤ length buf
      → n < tam
      → desde < tam
      → libre ≡ (desde + n) % tam
      → ventana (set buf libre x) tam desde (suc n) ≡ ventana buf tam desde n ++ x ∷ []
  ventana-set buf tam zero desde libre x hs hn hd e =
      let here : libre ≡ desde =
        omega (arith, mod-eq_of_lt hd, ap (λ k. k % tam) (add-zero desde)) in
      ap (λ y. y ∷ []) (ground (arith, get_or-set buf libre desde x nulo))
  ventana-set buf tam (suc n) desde libre x hs hn hd e =
      let other : libre ≢ desde =
        (λ f. no_vuelve tam desde (suc n) hd (omega arith) hn (sym e ∙ f)) in
      let first = get_or-set buf libre desde x nulo in
      ap₂ ◌∷◌ (ground (arith, first)) (
        ventana-set buf tam n ((desde + 1) % tam) libre x hs (omega arith) (omega arith)
          (e ∙ sym (step-mod desde n tam)))

-- The indices of a ring that holds `n` items of at most `tam`: `libre` is the first free one and
-- `ocupada` that of the oldest item.
pub record EsAnillo {ℓ} {T : Type ℓ} (buf : List T) (tam libre ocupada n : ℕ) : Type 0 where
  pub entra : tam ≤ length buf
  pub ocupada_dentro : ocupada < tam
  pub cabe : n ≤ tam
  pub siguiente : libre ≡ (ocupada + n) % tam

module _ {ℓ} {T : Type ℓ} {buf : List T} {tam libre ocupada n : ℕ} where
  pub EsAnillo-poner :
      (x : T)
      → n < tam
      → EsAnillo buf tam libre ocupada n
      → EsAnillo (set buf libre x) tam ((libre + 1) % tam) ocupada (n + 1)
  EsAnillo-poner x h r = record {
    entra = omega (arith, length-set buf libre x, r.entra);
    ocupada_dentro = r.ocupada_dentro;
    cabe = omega arith;
    siguiente =
        ap (λ k. (k + 1) % tam) r.siguiente
        ∙ mod-add-mod (ocupada + n) tam 1
        ∙ ap (λ k. k % tam) (omega arith);
  }

  pub EsAnillo-sacar :
      0 < n
      → EsAnillo buf tam libre ocupada n
      → EsAnillo buf tam libre ((ocupada + 1) % tam) (n - 1)
  EsAnillo-sacar h r = record {
    entra = r.entra;
    ocupada_dentro = omega (arith, r.ocupada_dentro);
    cabe = omega (arith, r.cabe);
    siguiente =
        r.siguiente
        ∙ ap (λ k. (ocupada + k) % tam) (omega arith)
        ∙ sym (step-mod ocupada (n - 1) tam);
  }

  pub ventana-poner :
      (nulo x : T)
      → n < tam
      → EsAnillo buf tam libre ocupada n
      → ventana nulo (set buf libre x) tam ocupada (n + 1)
        ≡ ventana nulo buf tam ocupada n ++ x ∷ []
  ventana-poner nulo x h r =
      ap (ventana nulo (set buf libre x) tam ocupada) {y = suc n} (omega arith)
      ∙ ventana-set nulo buf tam n ocupada libre x r.entra h r.ocupada_dentro r.siguiente
