-- ===== src/Grupo/Clientes.antt =====
-- The array of the names of the clients: the loops that search it, and the number of names in it.
use aeropuerto.Base.{
  ℕ, zero, suc, ◌+◌, ◌-◌, ◌==◌, ◌≤◌, ◌<◌, ◌≡◌, refl, subst, List, [], ◌∷◌, Bool, true, false, not,
  Option, none, some, if◌then◌else◌, get_or, set, length, arith, Bool-cases, inl, inr, take,
}
use aeropuerto.Grupo.{
  Grupo, max_clients, con_mutex, wait_on_mutex, signalize_mutex, Nombre, no_vacio, primero,
  strncmp_igual,
}

-- What it means that a search ends at `o`.
abbrev EsPrimero : (Nombre → Bool) → List Nombre → Option ℕ → Type 0
EsPrimero p xs none = (j : ℕ) → j < length xs → p (get_or xs j []) ≡ false
EsPrimero p xs (some i) =
    (i < length xs) × (p (get_or xs i []) ≡ true) × ((j : ℕ) → j < i → p (get_or xs j []) ≡ false)

module _ (p : Nombre → Bool) where
  paso :
      (x : Nombre) (xs : List Nombre) (o : Option ℕ)
      → p x ≡ false
      → EsPrimero p xs o
      → EsPrimero p (x ∷ xs) (elim o [ none ↦ none | some i ↦ some (suc i) ])
  paso x xs none h r = ninguno
    where
      ninguno : (j : ℕ) → j < suc (length xs) → p (get_or (x ∷ xs) j []) ≡ false
      ninguno zero k = h
      ninguno (suc j) k = r j (omega arith)
  paso x xs (some i) h (a, b, r) = (omega arith, b, antes)
    where
      antes : (j : ℕ) → j < suc i → p (get_or (x ∷ xs) j []) ≡ false
      antes zero k = h
      antes (suc j) k = r j (omega arith)

  primero-EsPrimero : (xs : List Nombre) → EsPrimero p xs (primero p xs)
  primero-EsPrimero [] = λ j h. absurd (omega arith)
  primero-EsPrimero (x ∷ xs) = elim (Bool-cases (p x)) [
    | inl h ↦ rw h (omega arith, h, λ j k. absurd (omega arith))
    | inr h ↦ rw h (paso x xs (primero p xs) h (primero-EsPrimero xs))
  ]

  pub primero-some :
      (xs : List Nombre) {i : ℕ}
      → primero p xs ≡ some i
      → (i < length xs)
        × (p (get_or xs i []) ≡ true)
        × ((j : ℕ) → j < i → p (get_or xs j []) ≡ false)
  primero-some xs e = subst (EsPrimero p xs) e (primero-EsPrimero xs)

  pub primero-none :
      (xs : List Nombre)
      → primero p xs ≡ none
      → (j : ℕ) → j < length xs
      → p (get_or xs j []) ≡ false
  primero-none xs e = subst (EsPrimero p xs) e (primero-EsPrimero xs)

-- The number of names.
abbrev pub cuenta : List Nombre → ℕ
cuenta [] = 0
cuenta (x ∷ xs) = (if no_vacio x then 1 else 0) + cuenta xs

pub cuenta-set :
    (xs : List Nombre) (i : ℕ) (v : Nombre)
    → i < length xs
    → cuenta (set xs i v) + (if no_vacio (get_or xs i []) then 1 else 0)
      ≡ cuenta xs + (if no_vacio v then 1 else 0)
cuenta-set [] i v h = absurd (omega arith)
cuenta-set (x ∷ xs) zero v h = omega arith
cuenta-set (x ∷ xs) (suc i) v h = omega (arith, cuenta-set xs i v)

pub cuenta-le : (xs : List Nombre) → cuenta xs ≤ length xs
cuenta-le [] = omega arith
cuenta-le (x ∷ xs) = ground (arith, cuenta-le xs)

-- Where all are names, the array is full.
pub cuenta-llena :
    (xs : List Nombre)
    → ((j : ℕ) → j < length xs → not (no_vacio (get_or xs j [])) ≡ false)
    → cuenta xs ≡ length xs
cuenta-llena [] h = refl
cuenta-llena (x ∷ xs) h =
    let r = cuenta-llena xs (λ j k. h (suc j) (omega arith)) in
    let z = h 0 (omega arith) in ground arith

-- Where there is a name, the count is not 0.
pub cuenta-pos :
    (xs : List Nombre) (j : ℕ) → j < length xs → no_vacio (get_or xs j []) ≡ true → 0 < cuenta xs
cuenta-pos [] j h k = absurd (omega arith)
cuenta-pos (x ∷ xs) zero h k = ground arith
cuenta-pos (x ∷ xs) (suc j) h k = omega (arith, cuenta-pos xs j)

pub cuenta-pos-ex :
    (xs : List Nombre)
    → 0 < cuenta xs
    → (j : ℕ) × (j < length xs) × (no_vacio (get_or xs j []) ≡ true)
cuenta-pos-ex [] h = absurd (omega arith)
cuenta-pos-ex ([] ∷ xs) h =
    let (j, a, b) = cuenta-pos-ex xs (omega arith) in (suc j, omega arith, b)
cuenta-pos-ex ((y ∷ ys) ∷ xs) h = (0, omega arith, refl)

-- A name that was copied is the name.
pub strncmp_igual-take : (n : ℕ) (a : Nombre) → strncmp_igual n (take n a) a ≡ true
strncmp_igual-take zero a = refl
strncmp_igual-take (suc n) [] = refl
strncmp_igual-take (suc n) (x ∷ xs) = let r = strncmp_igual-take n xs in ground arith

-- The table has its slots, and the number of clients is that of the names in it.
pub record EsGrupo (g : Grupo) : Type 0 where
  pub length_names : length g.client_names ≡ max_clients
  pub cuantos : g.cant_clientes ≡ cuenta g.client_names
  pub actual_dentro : g.cliente_actual < max_clients

-- What holds of an operation and the mutex that is given back at its end holds of the operation under
-- the mutex, when it does not wait.
pub con_mutex-elim :
    {A : Type 0} (P : Grupo × A → Type 0) (f : Grupo → Grupo × A) (g : Grupo) {r : Grupo × A}
    → con_mutex f g ≡ some r
    → (0 < g.mutex
        → P (
          signalize_mutex (f (record g { mutex = g.mutex - 1 })).0,
          (f (record g { mutex = g.mutex - 1 })).1,
        ))
    → P r
unfolding con_mutex wait_on_mutex
con_mutex-elim P f g {r} e k = elim (Bool-cases (g.mutex == 0)) [
  | inl waits ↦ absurd (ground arith)
  | inr up ↦
      subst P
        {x = (
          signalize_mutex (f (record g { mutex = g.mutex - 1 })).0,
          (f (record g { mutex = g.mutex - 1 })).1,
        )}
        (ground arith) (k (ground arith))
]

-- With the mutex up an operation does not wait.
pub con_mutex-avanza :
    {A : Type 0} (f : Grupo → Grupo × A) (g : Grupo)
    → 0 < g.mutex
    → let r = f (record g { mutex = g.mutex - 1 }) in
      con_mutex f g ≡ some (signalize_mutex r.0, r.1)
unfolding con_mutex wait_on_mutex
con_mutex-avanza f g up = ground arith
