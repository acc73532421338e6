-- ===== src/Multiplexer/Registro.antt =====
-- The numbers of the groups in the table.
use aeropuerto.Base.{
  ℕ, zero, suc, ◌+◌, ◌-◌, ◌<◌, ◌≡◌, ◌∙◌, refl, sym, ap, List, [], ◌∷◌, true, false, Option, none,
  some, ◌==◌, get_or, length, ◌++◌, if◌then◌else◌, Bool-cases, inl, inr, arith, true_ne_false,
  some_ne_none, some-injective,
}
use aeropuerto.Grupo.{Nombre, no_vacio, strncmp_igual, max_nombre_recurso}
use aeropuerto.Multiplexer.{Multiplexer, Paquete, es_este, buscar_desde}
use aeropuerto.AnilloDeBrokers.{leader}

strncmp_igual-eq : (n : ℕ) (a b : Nombre) → strncmp_igual n a b ≡ true → length b < n → a ≡ b
strncmp_igual-eq zero a b h l = absurd (omega arith)
strncmp_igual-eq (suc n) [] [] h l = refl
strncmp_igual-eq (suc n) [] (y ∷ ys) h l = absurd (true_ne_false (sym h))
strncmp_igual-eq (suc n) (x ∷ xs) [] h l = absurd (true_ne_false (sym h))
strncmp_igual-eq (suc n) (x ∷ xs) (y ∷ ys) h l = ground (arith, strncmp_igual-eq n xs ys)

pub es_este-eq :
    (nombre x : Nombre) → length nombre < max_nombre_recurso → es_este nombre x ≡ true → x ≡ nombre
es_este-eq nombre [] l h = absurd (true_ne_false (sym h))
es_este-eq nombre (x ∷ xs) l h = strncmp_igual-eq 64 (x ∷ xs) nombre h l

-- The search ends at a name, or without a number at a free entry.
con_numero :
    (i : ℕ) (nombre x : Nombre) (xs : List Nombre)
    → es_este nombre x ≡ true
    → buscar_desde i nombre (x ∷ xs) ≡ some (suc i)
con_numero i nombre x xs e = rw e (ap some (omega arith))

sin_numero :
    (i : ℕ) {k : ℕ} (nombre x : Nombre) (xs : List Nombre)
    → no_vacio x ≡ false
    → ¬ (buscar_desde i nombre (x ∷ xs) ≡ some k)
sin_numero i nombre [] xs v h = some_ne_none (sym h)
sin_numero i nombre (y ∷ ys) xs v h = true_ne_false v

sigue :
    (i : ℕ) (nombre x : Nombre) (xs : List Nombre)
    → es_este nombre x ≡ false
    → no_vacio x ≡ true
    → buscar_desde i nombre (x ∷ xs) ≡ buscar_desde (i + 1) nombre xs
sigue i nombre x xs e v = rw e (rw v refl)

-- The entry with the number of a group is its name.
pub buscar_desde-get_or :
    (i : ℕ) (nombre : Nombre) (xs : List Nombre) {k : ℕ}
    → length nombre < max_nombre_recurso
    → buscar_desde i nombre xs ≡ some k
    → (i < k) × (get_or xs (k - 1 - i) [] ≡ nombre)
buscar_desde-get_or i nombre [] l h = absurd (some_ne_none (sym h))
buscar_desde-get_or i nombre (x ∷ xs) {k} l h = elim (Bool-cases (es_este nombre x)) [
  | inl e ↦
      let n : suc i ≡ k = some-injective (sym (con_numero i nombre x xs e) ∙ h) in
      (omega arith, ap (λ j. get_or (x ∷ xs) j []) {y = 0} (omega arith) ∙ es_este-eq nombre x l e)
  | inr e ↦ elim (Bool-cases (no_vacio x)) [
    | inl v ↦
        let (a, b) =
          buscar_desde-get_or (i + 1) nombre xs {k = k} l (sym (sigue i nombre x xs e v) ∙ h) in
        (omega arith, ap (λ j. get_or (x ∷ xs) j []) {y = suc (k - 1 - (i + 1))} (omega arith) ∙ b)
    | inr v ↦ absurd (sin_numero i nombre x xs v h)
  ]
]

-- What a registration comes to.
abbrev pub TrasRegistrar :
    (anterior : ℕ) (contenido : Paquete) → Nombre → Multiplexer → Option (Multiplexer × ℕ) → Type 0
TrasRegistrar anterior contenido nombre s none = s.mutex ≡ 0
TrasRegistrar anterior contenido nombre s (some (s', numero)) =
    (0 < s.mutex)
    × ((elim (buscar_desde 0 nombre s'.grupos_creados) [ none ↦ anterior | some k ↦ k ]) ≡ numero)
    × ((otro : Nombre) (k : ℕ)
        → buscar_desde 0 otro s.grupos_creados ≡ some k
        → buscar_desde 0 otro s'.grupos_creados ≡ some k)
    × ((otro : Nombre) (k : ℕ)
        → length otro < max_nombre_recurso
        → buscar_desde 0 nombre s'.grupos_creados ≡ some k
        → buscar_desde 0 otro s'.grupos_creados ≡ some k
        → nombre ≡ otro)
    × (s'.cola_espera_grupos ≡ (
        if s.lider == 1
        then s.cola_espera_grupos
          ++ record {
            mtype = numero;
            contenido = record contenido { mensaje = record contenido.mensaje { tipo = leader } };
          }
            ∷ []
        else s.cola_espera_grupos))
    × (s'.mutex ≡ s.mutex)
    × (s'.lider ≡ s.lider)
    × (s'.grupos ≡ s.grupos)
    × (s'.interfaz_grupos ≡ s.interfaz_grupos)
