-- ===== src/Grupo/Turno.antt =====
-- The round robin of the token: the search for the next client.
use aeropuerto.Base.{
  ℕ, zero, suc, ◌+◌, ◌-◌, ◌%◌, ◌≤◌, ◌<◌, ◌≡◌, ◌∙◌, refl, sym, subst, List, [], true, false, some,
  if◌then◌else◌, get_or, arith, Bool-cases, inl, inr, ◌==◌, dec_lt, ℕ_discrete, ltb, true_ne_false,
}
use aeropuerto.Grupo.{
  Grupo, Nombre, no_vacio, max_clients, buscar_proximo, proximo, signalize_mutex,
  locked_proximo_cliente, obtener_proximo_cliente,
}
use aeropuerto.Grupo.Clientes.{EsGrupo, con_mutex-elim, cuenta-pos-ex}

-- `r` is the next client after `actual`: the first name on the way round the array from the slot
-- after `actual`, which ends with `actual` itself.
pub record EsProximo (names : List Nombre) (actual r : ℕ) : Type 0 where
  pub pasos : ℕ
  pub alguno : 0 < pasos
  pub una_vuelta : pasos ≤ max_clients
  pub donde : r ≡ (actual + pasos) % max_clients
  pub en_uso : no_vacio (get_or names r []) ≡ true
  pub saltados :
      (j : ℕ) → 0 < j → j < pasos → no_vacio (get_or names ((actual + j) % max_clients) []) ≡ false

module _ (names : List Nombre) (actual : ℕ) (h : actual < max_clients) where
  abbrev Libres : ℕ → Type 0
  Libres s =
      (j : ℕ) → 0 < j → j < s → no_vacio (get_or names ((actual + j) % max_clients) []) ≡ false

  Libres-suc :
      (s : ℕ)
      → Libres s
      → no_vacio (get_or names ((actual + s) % max_clients) []) ≡ false
      → Libres (s + 1)
  Libres-suc s libres e j hj hk = elim (dec_lt j s) [
    | yes before ↦ libres j hj before
    | no here ↦
        subst (λ k. no_vacio (get_or names ((actual + k) % max_clients) []) ≡ false) {x = s}
          (omega arith) e
  ]

  -- A whole round that finds nobody else comes back to `actual`.
  solo_actual :
      Libres max_clients
      → (x : ℕ) → x < max_clients
      → no_vacio (get_or names x []) ≡ true
      → no_vacio (get_or names actual []) ≡ true
  solo_actual libres x hx e = elim (ℕ_discrete x actual) [
    | yes eq ↦ subst (λ k. no_vacio (get_or names k []) ≡ true) eq e
    | no ne ↦
        let d = if ltb x actual then x + max_clients - actual else x - actual in
        let q : (actual + d) % max_clients ≡ x = ground arith in
        absurd (
          true_ne_false (
            sym e
            ∙ subst (λ k. no_vacio (get_or names k []) ≡ false) q
                (libres d (ground arith) (ground arith))))
  ]

  sigue :
      (s : ℕ) → ((actual + s) % max_clients + 1) % max_clients ≡ (actual + (s + 1)) % max_clients
  sigue s = omega arith

  buscar_proximo-EsProximo :
      (rounds s : ℕ)
      → 0 < s
      → s < max_clients
      → rounds + s ≡ max_clients
      → Libres s
      → (x : ℕ) → x < max_clients
      → no_vacio (get_or names x []) ≡ true
      → EsProximo names actual
          (buscar_proximo (suc rounds) ((actual + s) % max_clients) actual names)
  unfolding buscar_proximo
  buscar_proximo-EsProximo zero s hs hk hr libres x hx e = absurd (omega arith)
  buscar_proximo-EsProximo (suc rounds) s hs hk hr libres x hx e =
      elim (Bool-cases (no_vacio (get_or names ((actual + s) % max_clients) []))) [
        | inl found ↦ rw found (record {
          pasos = s;
          alguno = hs;
          una_vuelta = omega arith;
          donde = refl;
          en_uso = found;
          saltados = libres;
        })
        | inr free ↦ elim (Bool-cases (actual == ((actual + s) % max_clients + 1) % max_clients)) [
          | inl round ↦
              rw (free, round)
                (let full : s + 1 ≡ max_clients = ground arith in
                  let libres' = subst Libres full (Libres-suc s libres free) in
                  record {
                    pasos = max_clients;
                    alguno = omega arith;
                    una_vuelta = omega arith;
                    donde = omega arith;
                    en_uso = solo_actual libres' x hx e;
                    saltados = libres';
                  })
          | inr more ↦
              rw (free, more)
                (subst (λ i. EsProximo names actual (buscar_proximo (suc rounds) i actual names))
                  (sym (sigue s))
                  (buscar_proximo-EsProximo rounds (s + 1) (omega arith) (ground arith)
                    (omega arith) (Libres-suc s libres free) x hx e))
        ]
      ]

locked_proximo_cliente-eq :
    (g : Grupo)
    → 0 < g.cant_clientes
    → locked_proximo_cliente g ≡ (record g { cliente_actual = proximo g }, proximo g)
unfolding locked_proximo_cliente
locked_proximo_cliente-eq g h = ground arith

module _ (g : Grupo) (v : EsGrupo g) where
  pub proximo-EsProximo :
      0 < g.cant_clientes → EsProximo g.client_names g.cliente_actual (proximo g)
  proximo-EsProximo h =
      let (x, hx, e) = cuenta-pos-ex g.client_names (omega (arith, v.cuantos)) in
      buscar_proximo-EsProximo g.client_names g.cliente_actual v.actual_dentro 49 1 (omega arith)
        (omega arith) refl (λ j a b. absurd (omega arith)) x (omega (arith, v.length_names)) e

  con_proximo :
      0 < g.mutex
      → 0 < g.cant_clientes
      → let p = locked_proximo_cliente (record g { mutex = g.mutex - 1 }) in
        EsProximo g.client_names g.cliente_actual p.1
        × ((signalize_mutex p.0).cliente_actual ≡ p.1)
        × EsGrupo (signalize_mutex p.0)
        × ((signalize_mutex p.0).mutex ≡ g.mutex)
  unfolding signalize_mutex
  con_proximo up h =
      let n = proximo-EsProximo h in
      rw (locked_proximo_cliente-eq (record g { mutex = g.mutex - 1 }) h) (
        n,
        refl,
        record {
          length_names = v.length_names;
          cuantos = v.cuantos;
          actual_dentro = omega (arith, n.donde);
        },
        omega arith,
      )

  -- With clients in the group `obtener_proximo_cliente` answers the next client in use after the
  -- current one, passing over free slots only, makes it the current one, and keeps the invariant and
  -- the mutex.
  pub obtener_proximo_cliente_lem :
      {g' : Grupo} {r : ℕ}
      → 0 < g.cant_clientes
      → obtener_proximo_cliente g ≡ some (g', r)
      → EsProximo g.client_names g.cliente_actual r
        × (g'.cliente_actual ≡ r)
        × EsGrupo g'
        × (g'.mutex ≡ g.mutex)
  unfolding obtener_proximo_cliente
  obtener_proximo_cliente_lem {g'} {r} h e =
      con_mutex-elim
        (λ p.
          EsProximo g.client_names g.cliente_actual p.1
          × (p.0.cliente_actual ≡ p.1)
          × EsGrupo p.0
          × (p.0.mutex ≡ g.mutex))
        locked_proximo_cliente g e (λ up. con_proximo up h)
