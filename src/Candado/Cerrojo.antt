-- ===== src/Candado/Cerrojo.antt =====
-- What a distributed memory promises: a lock with one owner at a time, and a value that only the owner
-- writes and that `lock` shows.
use aeropuerto.Base.{ℕ, ◌≡◌, sym, subst, List, [], ◌∷◌, ◌++◌, Option, none, some}
use aeropuerto.Candado.Sistema.{Evento, entro, escribio, salio}

pub record Cerrojo : Type 0 where
  pub valor : List ℕ
  pub duenio : Option ℕ

-- Who enters finds nobody inside, and the value that was there.
abbrev pub Accion : Evento → Cerrojo → Cerrojo → Type 0
Accion (entro i x) a b = (a.duenio ≡ none) × (x ≡ a.valor) × (b ≡ record a { duenio = some i })
Accion (escribio i x) a b = (a.duenio ≡ some i) × (b ≡ record a { valor = x })
Accion (salio i) a b = (a.duenio ≡ some i) × (b ≡ record a { duenio = none })

abbrev pub Acciones : List Evento → Cerrojo → Cerrojo → Type 0
Acciones [] a b = a ≡ b
Acciones (e ∷ es) a b = (c : Cerrojo) × Accion e a c × Acciones es c b

pub Acciones-append :
    (es fs : List Evento) (a b c : Cerrojo)
    → Acciones es a b
    → Acciones fs b c
    → Acciones (es ++ fs) a c
Acciones-append [] fs a b c p q = subst (λ a. Acciones fs a c) (sym p) q
Acciones-append (e ∷ es) fs a b c (a', h, p) q = (a', h, Acciones-append es fs a' b c p q)
