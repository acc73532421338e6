-- ===== src/Cintas/Escaner/Reparto.antt =====
-- The steps of the producer and of the scanners.
use aeropuerto.Base.{
  ℕ, ◌+◌, ◌<◌, ◌≡◌, ◌≢◌, ◌∙◌, refl, sym, ap, subst, [], ◌∷◌, ◌++◌, true, false, ◌==◌, if◌then◌else◌,
  arith, Bool-cases, inl, inr, ==_iff, ==_ne, true_ne_false,
}
use aeropuerto.Cintas.Escaner.{EstadoCinta, llena, CintaEscaner, CintaScanner, en, agregar, colocar}
use aeropuerto.Cintas.Escaner.Invariante.{
  equipajes, AnilloDe, EsCinta, Concuerda, EsValida, agregar-fields, agregar-EsCinta,
  equipajes-agregar,
}

-- A property of the changed entry and of the others is one of the changed array.
pub en-todas {ℓ} :
    {A : Type ℓ} (P : ℕ → A → Type 0) (f : ℕ → A) (i : ℕ) (v : A)
    → P i v
    → (j : ℕ) → P j (f j)
    → P j (en f i v j)
en-todas P f i v h j k = elim (Bool-cases (j == i)) [
  | inl same ↦ rw same (subst (λ n. P n v) (sym ((==_iff j i).0 same)) h)
  | inr other ↦ rw other k
]

pub en-ambas {ℓ} :
    {A : Type 0} {B : Type ℓ} (P : A → B → Type 0) (f : ℕ → A) (g : ℕ → B) (i : ℕ) (v : A) (w : B)
    → P v w
    → (j : ℕ) → P (f j) (g j)
    → P (en f i v j) (en g i w j)
en-ambas P f g i v w h j k = elim (Bool-cases (j == i)) [
  | inl same ↦ rw same h
  | inr other ↦ rw other k
]

pub en_self {ℓ} : {A : Type ℓ} (f : ℕ → A) (i : ℕ) (v : A) → en f i v i ≡ v
en_self f i v = let e : (i == i) ≡ true = ground arith in rw e refl

pub en-ne {ℓ} : {A : Type ℓ} (f : ℕ → A) (i : ℕ) (v : A) (j : ℕ) → j ≢ i → en f i v j ≡ f j
en-ne f i v j h = let e : (j == i) ≡ false = ground arith in rw e refl

module _ {ℓ} {T : Type ℓ} where
  agregar-Concuerda :
      (c : CintaEscaner T) (x : T) (e : EstadoCinta)
      → AnilloDe c
      → c.cantidad_elementos < c.tamanio_vector
      → Concuerda e c
      → Concuerda
          (if (agregar x c).cantidad_elementos == (agregar x c).tamanio_vector then llena else e)
          (agregar x c)
  agregar-Concuerda c x e a h v =
      let f = agregar-fields c x in
      elim (Bool-cases ((agregar x c).cantidad_elementos == (agregar x c).tamanio_vector)) [
        | inl full ↦ rw full (record {
          lugar = λ d. absurd (true_ne_false (sym d));
          colmada = λ d. (==_iff _ _).0 full;
        })
        | inr room ↦ rw room (record {
          lugar = λ d. omega (arith, f.0, f.1, ==_ne _ _ room);
          colmada = λ d. absurd (omega (arith, v.colmada d));
        })
      ]

  colocar-EsValida :
      (x : T) (s : CintaScanner T) → EsValida s → s.eligio ≡ true → EsValida (colocar x s)
  unfolding colocar
  colocar-EsValida x s v e =
      let p = s.proxima_cinta_a_colocar in
      let c = s.cintas p in
      let room = v.elegida e in
      let vc = v.cintas p v.dentro in
      let con = agregar-Concuerda c x (s.cinta_llena p) vc.anillo room (v.estados p v.dentro) in
      let libre : s.productor_esperando + s.semaforo_productor ≡ 0 = ground (arith, v.productor) in
      elim (Bool-cases ((agregar x c).cantidad_elementos == (agregar x c).tamanio_vector)) [
        | inl full ↦ rw full (record {
          cintas = λ k h.
              en-todas (λ n d. EsCinta d) s.cintas p (agregar x c) (agregar-EsCinta c x room vc) k
                (v.cintas k h);
          estados = λ k h.
              en-ambas Concuerda s.cinta_llena s.cintas p llena (agregar x c)
                (subst (λ b. Concuerda (if b then llena else s.cinta_llena p) (agregar x c)) full
                  con)
                k (v.estados k h);
          productor = omega arith;
          sin_lugar = λ d k h. absurd (omega arith);
          elegida = λ d. absurd (true_ne_false (sym d));
          dentro = omega arith;
        })
        | inr more ↦ rw more (record {
          cintas = λ k h.
              en-todas (λ n d. EsCinta d) s.cintas p (agregar x c) (agregar-EsCinta c x room vc) k
                (v.cintas k h);
          estados = λ k h.
              en-todas (λ n d. Concuerda (s.cinta_llena n) d) s.cintas p (agregar x c)
                (subst (λ b. Concuerda (if b then llena else s.cinta_llena p) (agregar x c)) more
                  con)
                k (v.estados k h);
          productor = omega arith;
          sin_lugar = λ d k h. absurd (omega arith);
          elegida = λ d. absurd (true_ne_false (sym d));
          dentro = omega arith;
        })
      ]

  -- The second step of the producer keeps the invariant: the piece goes behind the others of the
  -- belt that was chosen, which has room, and the other belts stay as they are.
  pub colocar_reparte :
      (nulo x : T) (s : CintaScanner T)
      → EsValida s
      → s.eligio ≡ true
      → EsValida (colocar x s)
        × (equipajes nulo ((colocar x s).cintas s.proxima_cinta_a_colocar)
            ≡ equipajes nulo (s.cintas s.proxima_cinta_a_colocar) ++ x ∷ [])
        × ((k : ℕ) → k ≢ s.proxima_cinta_a_colocar → (colocar x s).cintas k ≡ s.cintas k)
  unfolding colocar
  colocar_reparte nulo x s v e =
      let p = s.proxima_cinta_a_colocar in
      let c = s.cintas p in
      let room = v.elegida e in
      let vc = v.cintas p v.dentro in
      (
        colocar-EsValida x s v e,
        ap (equipajes nulo) (en_self s.cintas p (agregar x c)) ∙ equipajes-agregar c nulo x room vc,
        λ k h. en-ne s.cintas p (agregar x c) k h,
      )
