-- ===== src/Cintas/Checkin/Traza.antt =====
-- Runs of a check-in belt: the passes of its producers and of its consumer in any order.
use aeropuerto.Base.{
  ℕ, ◌≤◌, ◌<◌, ◌≡◌, sym, ap, ◌∙◌, List, [], ◌∷◌, ◌++◌, append_assoc, append-nil, Bool, Option, some,
  if◌then◌else◌,
}
use aeropuerto.Cintas.Checkin.{Cinta, poner_equipaje, sacar_equipaje}
use aeropuerto.Cintas.Checkin.Invariante.{EsValida, equipajes}
use aeropuerto.Cintas.Checkin.Pasadas.{lista, poner_equipaje_lem, sacar_equipaje_lem}

-- From `c` the run leads to the last belt. `puestos` are the pieces that its passes placed and
-- `sacados` those that they took, each in order.
pub data Traza {ℓ} {T : Type ℓ} (nulo : T) (c : Cinta T)
    : (puestos sacados : List T) → Cinta T → Type ℓ where
  inicio : Traza nulo c [] [] c
  pone :
      {ps qs ss : List T} {d d' : Cinta T}
      → Traza nulo c ps ss d
      → (x : T) (id_productor : ℕ) (coloque : Bool) → 0 < id_productor
      → id_productor ≤ d.productores.cantidad
      → poner_equipaje x id_productor d ≡ some (d', coloque)
      → qs ≡ ps ++ (if coloque then x ∷ [] else [])
      → Traza nulo c qs ss d'
  saca :
      {ps ss rs : List T} {d d' : Cinta T}
      → Traza nulo c ps ss d
      → (elemento : Option T) → sacar_equipaje nulo d ≡ some (d', elemento)
      → rs ≡ ss ++ lista elemento
      → Traza nulo c ps rs d'

module _ {ℓ} {T : Type ℓ} (nulo : T) {c : Cinta T} where
  -- Every run from a valid belt leads to a valid belt, whatever the order of the passes.
  pub Traza-EsValida :
      {ps ss : List T} {d : Cinta T} → EsValida c → Traza nulo c ps ss d → EsValida d
  Traza-EsValida v inicio = v
  Traza-EsValida v (pone {d = d} t x id_productor coloque hp hc e q) =
      (poner_equipaje_lem nulo d (Traza-EsValida v t) x id_productor hp hc e).0
  Traza-EsValida v (saca {d = d} t elemento e q) =
      (sacar_equipaje_lem nulo d (Traza-EsValida v t) e).0

  -- Over any run from a valid belt, no piece is lost, duplicated or overtaken: the pieces that lay
  -- there and those placed since are, in order, those taken and those that lie there now.
  pub Traza-equipajes :
      {ps ss : List T} {d : Cinta T}
      → EsValida c
      → Traza nulo c ps ss d
      → equipajes nulo c ++ ps ≡ ss ++ equipajes nulo d
  Traza-equipajes v inicio = append-nil (equipajes nulo c)
  Traza-equipajes v (pone {ps = ps} {ss = ss} {d = d} t x id_productor coloque hp hc e q) =
      ap (◌++◌ (equipajes nulo c)) q
      ∙ sym (append_assoc (equipajes nulo c) ps (if coloque then x ∷ [] else []))
      ∙ ap (λ l. l ++ (if coloque then x ∷ [] else [])) (Traza-equipajes v t)
      ∙ append_assoc ss (equipajes nulo d) (if coloque then x ∷ [] else [])
      ∙ ap (◌++◌ ss) (sym (poner_equipaje_lem nulo d (Traza-EsValida v t) x id_productor hp hc e).2)
  Traza-equipajes v (saca {ss = ss} {d = d} {d' = d'} t elemento e q) =
      Traza-equipajes v t
      ∙ ap (◌++◌ ss) (sacar_equipaje_lem nulo d (Traza-EsValida v t) e).2
      ∙ sym (append_assoc ss (lista elemento) (equipajes nulo d'))
      ∙ ap (λ l. l ++ equipajes nulo d') (sym q)
