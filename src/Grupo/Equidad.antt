-- ===== src/Grupo/Equidad.antt =====
-- Fairness of the token: in as many passes as the table has slots, every client gets it.
use aeropuerto.Base.{
  ℕ, zero, suc, refl, ap, ◌+◌, ◌-◌, ◌%◌, ◌≤◌, ◌<◌, ◌≡◌, ◌∙◌, ◌⊎◌, sym, subst, List, [], ◌∷◌, true,
  false, some, get_or, length, arith, inl, inr, dec_lt, ℕ_discrete, true_ne_false,
}
use aeropuerto.Grupo.{
  Grupo, signalize_mutex, locked_pasar_token, no_vacio, max_clients, pasar_token_a_proximo_cliente,
}
use aeropuerto.Grupo.Clientes.{EsGrupo, cuenta-pos, cuenta, con_mutex-avanza}
use aeropuerto.Grupo.Turno.{EsProximo}
use aeropuerto.Grupo.Token.Paso.{pasar_token_lem}

-- Passes of the token one after the other, and the clients that they served, in order.
pub data Pases : Grupo → List ℕ → Grupo → Type 0 where
  ninguno : {g : Grupo} → Pases g [] g
  uno_mas :
      {g g' g'' : Grupo} {atendidos : List ℕ}
      → pasar_token_a_proximo_cliente g ≡ some (g', tt)
      → Pases g' atendidos g''
      → Pases g (g'.cliente_actual ∷ atendidos) g''

abbrev pub Atendido : ℕ → List ℕ → Type 0
Atendido b [] = ⊥
Atendido b (a ∷ ls) = (a ≡ b) ⊎ Atendido b ls

-- How many slots the token has to go on to get to `b`; a whole round to come back.
abbrev distancia : (actual b : ℕ) → ℕ
distancia actual b = (b + max_clients - actual - 1) % max_clients + 1

-- The search stops at `b` at the latest.
pasos-le :
    {g : Grupo} {r : ℕ} (b : ℕ)
    → EsGrupo g
    → b < max_clients
    → no_vacio (get_or g.client_names b []) ≡ true
    → (p : EsProximo g.client_names g.cliente_actual r) → p.pasos ≤ distancia g.cliente_actual b
pasos-le {g} b v hb e p = elim (dec_lt (distancia g.cliente_actual b) p.pasos) [
  | no le ↦ omega arith
  | yes lt ↦
      let q : (g.cliente_actual + distancia g.cliente_actual b) % max_clients ≡ b =
        omega (arith, v.actual_dentro) in
      absurd (
        true_ne_false (
          sym e
          ∙ subst (λ k. no_vacio (get_or g.client_names k []) ≡ false) q
              (p.saltados (distancia g.cliente_actual b) (omega arith) lt)))
]

module _ (b : ℕ) (hb : b < max_clients) where
  atiende :
      {g g' : Grupo} {atendidos : List ℕ}
      → EsGrupo g
      → no_vacio (get_or g.client_names b []) ≡ true
      → distancia g.cliente_actual b ≤ length atendidos
      → Pases g atendidos g'
      → Atendido b atendidos
  atiende v e h ninguno = omega arith
  atiende {g} v e h (uno_mas {g'} {atendidos = ls} q rest) =
      let c = cuenta-pos g.client_names b (omega (arith, v.length_names)) e in
      let (p, paso) = pasar_token_lem g v (omega (arith, v.cuantos)) q in
      elim (ℕ_discrete g'.cliente_actual b) [
        | yes eq ↦ inl eq
        | no ne ↦ inr (
            atiende paso.valido (subst (λ l. no_vacio (get_or l b []) ≡ true) (sym paso.names) e)
              (omega (arith, pasos-le b v hb e p, p.donde, p.alguno, p.una_vuelta, v.actual_dentro))
              rest)
      ]

  -- Every client gets the token within as many passes as the table has slots, wherever the token is.
  pub Pases-Atendido :
      {g g' : Grupo} {atendidos : List ℕ}
      → EsGrupo g
      → no_vacio (get_or g.client_names b []) ≡ true
      → max_clients ≤ length atendidos
      → Pases g atendidos g'
      → Atendido b atendidos
  Pases-Atendido v e h run = atiende v e (omega arith) run

-- With a client in the group and the mutex up, the token can be passed as often as one wants.
pub Pases-existe :
    (n : ℕ) (g : Grupo)
    → EsGrupo g
    → 0 < g.mutex
    → 0 < g.cant_clientes
    → (atendidos : List ℕ) × (g' : Grupo) × (length atendidos ≡ n) × Pases g atendidos g'
unfolding pasar_token_a_proximo_cliente
Pases-existe zero g v up h = ([], g, refl, ninguno)
Pases-existe (suc n) g v up h =
    let q = con_mutex-avanza locked_pasar_token g up in
    let g1 = signalize_mutex (locked_pasar_token (record g { mutex = g.mutex - 1 })).0 in
    let (p, paso) = pasar_token_lem g v h q in
    let (ls, g', e, run) =
      Pases-existe n g1 paso.valido (omega (arith, paso.mutex))
        (omega (arith, v.cuantos, paso.valido.cuantos, ap cuenta paso.names)) in
    (g1.cliente_actual ∷ ls, g', omega arith, uno_mas q run)
