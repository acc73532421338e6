-- ===== src/Cintas/Despachante/Manos.antt =====
-- The piece in the hands of the one despachante who has the turn.
use aeropuerto.Base.{
  ◌≤◌, ◌<◌, ◌≡◌, ◌∙◌, refl, sym, ap, subst, List, [], ◌∷◌, Bool, true, false, Option, none, some,
  if◌then◌else◌, Option-cases, Bool-cases, inl, inr, some-injective, some_ne_none,
}
use aeropuerto.Cintas.Principal
use aeropuerto.Cintas.Principal.{CintaPrincipal}
use aeropuerto.Cintas.Principal.Turno.{lista}
use aeropuerto.Cintas.Principal.Invariante.{EsValida, equipajes}
use aeropuerto.Cintas.Principal.Pasadas.{leer_elemento_lem}
use aeropuerto.Cintas.Principal.Entregas.{avanzar_cinta_lem, extraer_elemento_lem}
use aeropuerto.Cintas.Despachante.{
  Despachante, avanzar_cinta, anotar_leido, tras_pasada, leer_proximo_equipaje, extraer_equipaje,
}

module _ {ℓ} {T : Type ℓ} (nulo : T) where
  -- What he has in his hands is the piece that he noted.
  abbrev pub manos : Despachante T → List T
  manos d = if d.saco_elemento then [] else d.ultimo_equipaje_leido ∷ []

  -- The belt is valid, and nobody but he has a piece in his hands.
  abbrev pub EnManos : Despachante T × CintaPrincipal T → Type ℓ
  EnManos (d, c) = EsValida nulo c (manos d)

  -- A piece that was read with empty hands is in his hands once he has noted it.
  anotar_leido-EnManos :
      (d : Despachante T) (c : CintaPrincipal T)
      → d.saco_elemento ≡ true
      → (elemento : Option T) → EsValida nulo c (lista elemento)
      → EnManos (anotar_leido d elemento, c)
  anotar_leido-EnManos d c empty none v = rw empty v
  anotar_leido-EnManos d c empty (some x) v = v

  module _ (d : Despachante T) (c : CintaPrincipal T) (v : EnManos (d, c)) where
    abbrev manos_con : Bool → List T
    manos_con b = if b then [] else d.ultimo_equipaje_leido ∷ []

    -- `avanzar_cinta` leaves him with empty hands and the queue as it was, also if his hands were empty
    -- already.
    pub avanzar_cinta-EnManos :
        let r = avanzar_cinta d c in
        EnManos r × (r.0.saco_elemento ≡ true) × (equipajes nulo r.1 ≡ equipajes nulo c)
    unfolding avanzar_cinta
    avanzar_cinta-EnManos =
        let avanzado : Despachante T × CintaPrincipal T =
          (record d { saco_elemento = true }, Principal.avanzar_cinta d.numero_despachante c) in
        elim (Bool-cases d.saco_elemento) [
          | inl empty ↦
              subst
                (λ r.
                  EnManos r × (r.0.saco_elemento ≡ true) × (equipajes nulo r.1 ≡ equipajes nulo c))
                (sym (ap (λ b. if b then (d, c) else avanzado) empty)) (v, empty, refl)
          | inr busy ↦
              let w = subst (λ b. EsValida nulo c (manos_con b)) busy v in
              let a = avanzar_cinta_lem nulo c d.ultimo_equipaje_leido w d.numero_despachante in
              rw busy (a.0, refl, a.1)
        ]

    -- With a piece in his hands `extraer_equipaje` returns that piece, which is the one that leaves the
    -- head of the queue, and his hands are empty.
    pub extraer_equipaje-EnManos :
        d.saco_elemento ≡ false
        → let (r, x) = extraer_equipaje d c in
          EnManos r × (equipajes nulo c ≡ x ∷ equipajes nulo r.1)
    unfolding extraer_equipaje
    extraer_equipaje-EnManos busy =
        let w = subst (λ b. EsValida nulo c (manos_con b)) busy v in
        extraer_elemento_lem nulo c d.ultimo_equipaje_leido w

    -- A pass of the reading with empty hands leaves the queue as it was, and in his hands the piece at
    -- its head, if there is one.
    pub leer_proximo_equipaje-EnManos :
        {r : Despachante T × CintaPrincipal T}
        → d.saco_elemento ≡ true
        → 0 < d.numero_despachante
        → d.numero_despachante ≤ c.cantidad_consumidores
        → leer_proximo_equipaje nulo d c ≡ some r
        → EnManos r × (equipajes nulo r.1 ≡ equipajes nulo c)
    unfolding leer_proximo_equipaje
    leer_proximo_equipaje-EnManos {r} empty hp hc e =
        elim (Option-cases (Principal.leer_elemento nulo d.numero_despachante c)) [
          | inl fails ↦ elim (some_ne_none (sym e ∙ ap (tras_pasada d) fails)) [ ]
          | inr ((c', elemento), pass) ↦
              let w = subst (λ b. EsValida nulo c (manos_con b)) empty v in
              let p = leer_elemento_lem nulo c w d.numero_despachante hp hc pass in
              let q = some-injective (sym e ∙ ap (tras_pasada d) pass) in
              subst (λ r. EnManos r × (equipajes nulo r.1 ≡ equipajes nulo c)) (sym q)
                (anotar_leido-EnManos d c' empty elemento p.1, p.2)
        ]
