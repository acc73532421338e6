-- ===== src/Cintas/Carga/Recorrido.antt =====
-- Runs of a container belt: passes of its producers and its consumer, closings and new loads, in any
-- order.
use aeropuerto.Base.{
  ℕ, ◌≤◌, ◌<◌, ◌≡◌, refl, sym, ap, ◌∙◌, List, [], ◌∷◌, ◌++◌, append_assoc, append-nil, Bool, Option,
  some, if◌then◌else◌,
}
use aeropuerto.Cintas.Checkin.Invariante.{equipajes}
use aeropuerto.Cintas.Checkin.Pasadas.{lista}
use aeropuerto.Cintas.Carga.{
  CintaCarga, poner_equipaje, sacar_equipaje, comenzar_nueva_carga, avisar_cierre_de_checkin,
}
use aeropuerto.Cintas.Carga.Invariante.{
  EsCarga, aviso_pendiente, comenzar_nueva_carga-EsCarga, avisar_cierre_de_checkin-EsCarga,
  poner_equipaje-EsCarga, sacar_equipaje-Saco,
}
use aeropuerto.Cintas.Carga.Cierre.{avisar_cierre_de_checkin-campos}

-- `puestos` are the pieces placed and `sacados` the pieces taken. What a pass returns for a closing is
-- no piece.
pub data Recorrido {ℓ} {T : Type ℓ} (nulo : T) (k : CintaCarga T)
    : (puestos sacados : List T) → CintaCarga T → Type ℓ where
  inicio : Recorrido nulo k [] [] k
  pone :
      {ps qs ss : List T} {d d' : CintaCarga T}
      → Recorrido nulo k ps ss d
      → (x : T) (id_productor : ℕ) (coloque : Bool) → 0 < id_productor
      → id_productor ≤ d.cinta.productores.cantidad
      → poner_equipaje x id_productor d ≡ some (d', coloque)
      → qs ≡ ps ++ (if coloque then x ∷ [] else [])
      → Recorrido nulo k qs ss d'
  saca :
      {ps ss rs : List T} {d d' : CintaCarga T}
      → Recorrido nulo k ps ss d
      → (id_consumidor : ℕ) (elemento : Option T) → 0 < id_consumidor
      → id_consumidor ≤ d.cinta.consumidores.cantidad
      → sacar_equipaje nulo id_consumidor d ≡ some (d', elemento)
      → rs ≡ ss ++ (if aviso_pendiente d then [] else lista elemento)
      → Recorrido nulo k ps rs d'
  avisa :
      {ps ss : List T} {d : CintaCarga T}
      → Recorrido nulo k ps ss d
      → (cantidad_de_valijas : ℕ)
      → Recorrido nulo k ps ss (avisar_cierre_de_checkin cantidad_de_valijas d)
  comienza :
      {ps ss : List T} {d : CintaCarga T}
      → Recorrido nulo k ps ss d
      → Recorrido nulo k ps ss (comenzar_nueva_carga d)

equipajes-comenzar_nueva_carga {ℓ} :
    {T : Type ℓ} (nulo : T) (k : CintaCarga T)
    → equipajes nulo (comenzar_nueva_carga k).cinta ≡ equipajes nulo k.cinta
unfolding comenzar_nueva_carga
equipajes-comenzar_nueva_carga nulo k = refl

module _ {ℓ} {T : Type ℓ} (nulo : T) {k : CintaCarga T} where
  -- Every run from a valid belt leads to a valid belt.
  pub Recorrido-EsCarga :
      {ps ss : List T} {d : CintaCarga T} → EsCarga k → Recorrido nulo k ps ss d → EsCarga d
  Recorrido-EsCarga v inicio = v
  Recorrido-EsCarga v (pone {d = d} t x id_productor coloque hp hc e q) =
      (poner_equipaje-EsCarga nulo d (Recorrido-EsCarga v t) x id_productor hp hc e).0
  Recorrido-EsCarga v (saca {d = d} t id_consumidor elemento hp hc e q) =
      (sacar_equipaje-Saco nulo d (Recorrido-EsCarga v t) id_consumidor hp hc e).0
  Recorrido-EsCarga v (avisa {d = d} t n) =
      avisar_cierre_de_checkin-EsCarga d (Recorrido-EsCarga v t) n
  Recorrido-EsCarga v (comienza {d = d} t) = comenzar_nueva_carga-EsCarga d (Recorrido-EsCarga v t)

  -- Over any run from a valid belt, closings and new loads included, no piece is lost, duplicated or
  -- overtaken: the pieces that lay there and those placed since are, in order, those taken and those
  -- that lie there now.
  pub Recorrido-equipajes :
      {ps ss : List T} {d : CintaCarga T}
      → EsCarga k
      → Recorrido nulo k ps ss d
      → equipajes nulo k.cinta ++ ps ≡ ss ++ equipajes nulo d.cinta
  Recorrido-equipajes v inicio = append-nil (equipajes nulo k.cinta)
  Recorrido-equipajes v (pone {ps = ps} {ss = ss} {d = d} t x id_productor coloque hp hc e q) =
      let placed = if coloque then x ∷ [] else [] in
      ap (◌++◌ (equipajes nulo k.cinta)) q
      ∙ sym (append_assoc (equipajes nulo k.cinta) ps placed)
      ∙ ap (λ l. l ++ placed) (Recorrido-equipajes v t)
      ∙ append_assoc ss (equipajes nulo d.cinta) placed
      ∙ ap (◌++◌ ss)
          (sym (poner_equipaje-EsCarga nulo d (Recorrido-EsCarga v t) x id_productor hp hc e).3)
  Recorrido-equipajes v (saca {ss = ss} {d = d} {d' = d'} t id_consumidor elemento hp hc e q) =
      Recorrido-equipajes v t
      ∙ ap (◌++◌ ss) (sacar_equipaje-Saco nulo d (Recorrido-EsCarga v t) id_consumidor hp hc e).4
      ∙ sym (
          append_assoc ss (if aviso_pendiente d then [] else lista elemento)
            (equipajes nulo d'.cinta))
      ∙ ap (λ l. l ++ equipajes nulo d'.cinta) (sym q)
  Recorrido-equipajes v (avisa {ss = ss} {d = d} t n) =
      Recorrido-equipajes v t
      ∙ ap (◌++◌ ss) (sym (avisar_cierre_de_checkin-campos nulo d (Recorrido-EsCarga v t) n).4)
  Recorrido-equipajes v (comienza {ss = ss} {d = d} t) =
      Recorrido-equipajes v t ∙ ap (◌++◌ ss) (sym (equipajes-comenzar_nueva_carga nulo d))
