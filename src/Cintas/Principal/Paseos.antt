-- ===== src/Cintas/Principal/Paseos.antt =====
-- Runs of the central belt: the passes of its producers and consumers, and what the consumers do with
-- the pieces that they have read, in any order. A consumer is to call `avanzar_cinta`
-- and `extraer_elemento` only with a piece that he has read; in api/api_despachante.cpp `saco_elemento`
-- guards the first, and the second returns `ultimo_equipaje_leido`.
use aeropuerto.Base.{
  ℕ, ◌≤◌, ◌<◌, ◌≡◌, sym, ap, subst, ◌∙◌, List, [], ◌∷◌, ◌++◌, append_assoc, append-nil, Bool,
  Option, some, if◌then◌else◌, length, length-append, arith, ◌+◌, refl,
}
use aeropuerto.Base.Anillo.{length-ventana}
use aeropuerto.Cintas.Principal.{
  CintaPrincipal, cinta_inicial, colocar_elemento, leer_elemento, avanzar_cinta, extraer_elemento,
}
use aeropuerto.Cintas.Principal.Turno.{lista}
use aeropuerto.Cintas.Principal.Invariante.{EsValida, equipajes, cinta_inicial-EsValida}
use aeropuerto.Cintas.Principal.Pasadas.{colocar_elemento_lem, leer_elemento_lem}
use aeropuerto.Cintas.Principal.Entregas.{
  avanzar_cinta_lem, extraer_elemento_lem, leer_elemento_avanza,
}

-- From `c` the run leads to the last belt. `puestos` are the pieces that its passes placed and
-- `entregados` those that the consumers who took one out return, each in order. `leidos` are the
-- pieces that consumers have read since and neither passed on nor taken out.
pub data Paseo {ℓ} {T : Type ℓ} (nulo : T) (c : CintaPrincipal T)
    : (puestos entregados leidos : List T) → CintaPrincipal T → Type ℓ where
  inicio : Paseo nulo c [] [] [] c
  coloca :
      {ps qs es ls : List T} {d d' : CintaPrincipal T}
      → Paseo nulo c ps es ls d
      → (x : T) (id_productor : ℕ) (coloque : Bool) → 0 < id_productor
      → id_productor ≤ d.productores.cantidad
      → colocar_elemento x id_productor d ≡ some (d', coloque)
      → qs ≡ ps ++ (if coloque then x ∷ [] else [])
      → Paseo nulo c qs es ls d'
  lee :
      {ps es ls ms : List T} {d d' : CintaPrincipal T}
      → Paseo nulo c ps es ls d
      → (id_consumidor : ℕ) (elemento : Option T) → 0 < id_consumidor
      → id_consumidor ≤ d.cantidad_consumidores
      → leer_elemento nulo id_consumidor d ≡ some (d', elemento)
      → ms ≡ lista elemento ++ ls
      → Paseo nulo c ps es ms d'
  avanza :
      {ps es ls : List T} {d : CintaPrincipal T} {x : T}
      → Paseo nulo c ps es (x ∷ ls) d
      → (id_consumidor : ℕ) → Paseo nulo c ps es ls (avanzar_cinta id_consumidor d)
  extrae :
      {ps es fs ls : List T} {d : CintaPrincipal T} {x : T}
      → Paseo nulo c ps es (x ∷ ls) d
      → fs ≡ es ++ x ∷ []
      → Paseo nulo c ps fs ls (extraer_elemento d)

module _ {ℓ} {T : Type ℓ} (nulo : T) {c : CintaPrincipal T} where
  -- Every run from a valid belt where nobody has a piece in his hands leads to a valid belt, whatever
  -- the order of the passes.
  pub Paseo-EsValida :
      {ps es ls : List T} {d : CintaPrincipal T}
      → EsValida nulo c []
      → Paseo nulo c ps es ls d
      → EsValida nulo d ls
  Paseo-EsValida v inicio = v
  Paseo-EsValida v (coloca {d = d} t x id_productor coloque hp hc e q) =
      (colocar_elemento_lem nulo d (Paseo-EsValida v t) x id_productor hp hc e).0
  Paseo-EsValida v (lee {d = d} {d' = d'} t id_consumidor elemento hp hc e q) =
      let r = leer_elemento_lem nulo d (Paseo-EsValida v t) id_consumidor hp hc e in
      subst (EsValida nulo d')
        (sym (append-nil (lista elemento)) ∙ ap (◌++◌ (lista elemento)) (sym r.0) ∙ sym q) r.1
  Paseo-EsValida v (avanza {d = d} {x = x} t id_consumidor) =
      (avanzar_cinta_lem nulo d x (Paseo-EsValida v t) id_consumidor).0
  Paseo-EsValida v (extrae {d = d} {x = x} t q) =
      (extraer_elemento_lem nulo d x (Paseo-EsValida v t)).0

  -- Over any run from a valid belt, at most one consumer at a time has a piece in his hands.
  pub Paseo-exclusion :
      {ps es ls : List T} {d : CintaPrincipal T}
      → EsValida nulo c []
      → Paseo nulo c ps es ls d
      → length ls ≤ 1
  Paseo-exclusion v t = omega (arith, (Paseo-EsValida v t).turno.uno)

  -- Over any run from a valid belt, no piece is lost, duplicated or overtaken: the pieces that lay
  -- there and those placed since are, in order, those that the consumers have got and those that lie
  -- there now. Each consumer gets the piece that he read.
  pub Paseo-equipajes :
      {ps es ls : List T} {d : CintaPrincipal T}
      → EsValida nulo c []
      → Paseo nulo c ps es ls d
      → equipajes nulo c ++ ps ≡ es ++ equipajes nulo d
  Paseo-equipajes v inicio = append-nil (equipajes nulo c)
  Paseo-equipajes v (coloca {ps = ps} {es = es} {d = d} t x id_productor coloque hp hc e q) =
      let added = if coloque then x ∷ [] else [] in
      ap (◌++◌ (equipajes nulo c)) q
      ∙ sym (append_assoc (equipajes nulo c) ps added)
      ∙ ap (λ l. l ++ added) (Paseo-equipajes v t)
      ∙ append_assoc es (equipajes nulo d) added
      ∙ ap (◌++◌ es)
          (sym (colocar_elemento_lem nulo d (Paseo-EsValida v t) x id_productor hp hc e).2)
  Paseo-equipajes v (lee {es = es} {d = d} t id_consumidor elemento hp hc e q) =
      Paseo-equipajes v t
      ∙ ap (◌++◌ es) (sym (leer_elemento_lem nulo d (Paseo-EsValida v t) id_consumidor hp hc e).2)
  Paseo-equipajes v (avanza {es = es} {d = d} {x = x} t id_consumidor) =
      Paseo-equipajes v t
      ∙ ap (◌++◌ es) (sym (avanzar_cinta_lem nulo d x (Paseo-EsValida v t) id_consumidor).1)
  Paseo-equipajes v (extrae {es = es} {d = d} {x = x} t q) =
      let d' = extraer_elemento d in
      Paseo-equipajes v t
      ∙ ap (◌++◌ es) (extraer_elemento_lem nulo d x (Paseo-EsValida v t)).1
      ∙ sym (append_assoc es (x ∷ []) (equipajes nulo d'))
      ∙ ap (λ l. l ++ equipajes nulo d') (sym q)

module _ {ℓ} {T : Type ℓ} (nulo : T) (capacidad productores otros : ℕ) (h : 0 < capacidad)
    {ps es : List T} {d : CintaPrincipal T} where
  -- The turn of the consumers is never lost: over any run from an empty belt after which nobody has a
  -- piece in his hands, as long as fewer pieces have been taken out than placed, there is a consumer
  -- whose next pass of `leer_elemento` does not wait, and reads the oldest piece that lies there.
  pub Paseo-leer_avanza :
      Paseo nulo (cinta_inicial capacidad productores otros nulo) ps es [] d
      → length es < length ps
      → (id_consumidor : ℕ) × (0 < id_consumidor)
        × (id_consumidor ≤ d.cantidad_consumidores)
        × ((d' : CintaPrincipal T) × (x : T) × (leer_elemento nulo id_consumidor d
              ≡ some (d', some x))
            × ((r : List T) × (equipajes nulo d ≡ x ∷ r)))
  Paseo-leer_avanza t hay =
      let v0 = cinta_inicial-EsValida capacidad productores otros nulo h in
      let v = Paseo-EsValida nulo v0 t in
      let cuenta =
        ap length (Paseo-equipajes nulo v0 t)
        ∙ length-append es (equipajes nulo d)
        ∙ ap (◌+◌ (length es)) (
            length-ventana nulo d.vector_elementos d.tamanio_vector d.posicion_ocupada
              d.cantidad_elementos) in
      let (i, hp, hc, (d', x, e)) = leer_elemento_avanza nulo d v (omega (arith, cuenta)) in
      let r = leer_elemento_lem nulo d v i hp hc e in
      let (resto, q) = r.1.leido x [] refl in (i, hp, hc, (d', x, e, (resto, sym r.2 ∙ q)))
