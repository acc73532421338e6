-- ===== src/Grupo/Token/Paso.antt =====
-- A whole `pasar_token_a_proximo_cliente`, and who has the token after it.
use aeropuerto.Base.{
  ℕ, ◌+◌, ◌-◌, ◌<◌, ◌≡◌, ◌↔◌, ◌++◌, refl, sym, subst, [], ◌∷◌, Bool, true, false, some,
  if◌then◌else◌, get_or, arith, ◌==◌,
}
use aeropuerto.Grupo.{
  Grupo, strncmp_igual, localbroker, max_clients, proximo, signalize_mutex, entregar_token,
  locked_pasar_token, pasar_token_a_proximo_cliente,
}
use aeropuerto.Grupo.Clientes.{EsGrupo, con_mutex-elim}
use aeropuerto.Grupo.Turno.{EsProximo, proximo-EsProximo}
use aeropuerto.Grupo.Token.{tengo_el_token_cliente}

-- Whether the local broker is client `i`.
abbrev pub es_broker : Grupo → ℕ → Bool
es_broker g i = strncmp_igual 11 (get_or g.client_names i []) localbroker

module _ (g : Grupo) (v : EsGrupo g) where
  -- What a pass of the token leaves: one more message in the queue, for the queue number of the new
  -- current client, and the flags that say that he has it.
  pub record Paso (g' : Grupo) : Type 0 where
    pub valido : EsGrupo g'
    pub cola :
        g'.cola
        ≡ g.cola
          ++ record { mtype = g'.cliente_actual + g.numero_base_cola_asignada; tipo = 1 } ∷ []
    pub cliente : g'.tengo_token_cliente ≡ g'.cliente_actual
    pub grupo : g'.tengo_token_grupo ≡ (if es_broker g g'.cliente_actual then 0 else 1)
    pub base : g'.numero_base_cola_asignada ≡ g.numero_base_cola_asignada
    pub names : g'.client_names ≡ g.client_names
    pub mutex : g'.mutex ≡ g.mutex

  entregar_token-Paso :
      (i : ℕ)
      → i < max_clients
      → 0 < g.mutex
      → Paso (signalize_mutex (entregar_token i (record g { mutex = g.mutex - 1 })))
  unfolding entregar_token signalize_mutex
  entregar_token-Paso i h up = record {
    valido = record { length_names = v.length_names; cuantos = v.cuantos; actual_dentro = h };
    cola = refl;
    cliente = refl;
    grupo = refl;
    base = refl;
    names = refl;
    mutex = omega arith;
  }

  entregar_token-cliente_actual :
      (i m : ℕ) → (signalize_mutex (entregar_token i (record g { mutex = m }))).cliente_actual ≡ i
  unfolding entregar_token signalize_mutex
  entregar_token-cliente_actual i m = refl

  locked_pasar_token_lem :
      0 < g.cant_clientes
      → 0 < g.mutex
      → let g' = signalize_mutex (locked_pasar_token (record g { mutex = g.mutex - 1 })).0 in
        EsProximo g.client_names g.cliente_actual g'.cliente_actual × Paso g'
  unfolding locked_pasar_token
  locked_pasar_token_lem h up =
      let n = proximo-EsProximo g v h in
      let p : (g.cant_clientes == 0) ≡ false = ground arith in
      rw (p, locked_pasar_token)
        (
          subst (EsProximo g.client_names g.cliente_actual)
              (sym (entregar_token-cliente_actual (proximo g) (g.mutex - 1))) n,
          entregar_token-Paso (proximo g) (omega (arith, n.donde)) up,
        )

  -- With clients in the group the token goes to the next one in use after the current one, passing
  -- over free slots only: one message is sent, to that client's queue, the flags name him, the
  -- invariant and the mutex are kept, and the names do not change.
  pub pasar_token_lem :
      {g' : Grupo}
      → 0 < g.cant_clientes
      → pasar_token_a_proximo_cliente g ≡ some (g', tt)
      → EsProximo g.client_names g.cliente_actual g'.cliente_actual × Paso g'
  unfolding pasar_token_a_proximo_cliente
  pasar_token_lem h e =
      con_mutex-elim (λ p. EsProximo g.client_names g.cliente_actual p.0.cliente_actual × Paso p.0)
        locked_pasar_token g e (locked_pasar_token_lem h)

  -- After it, an object of the group whose queue is that of client `k` finds the token its own
  -- exactly if `k` is the client that it went to.
  pub tengo_el_token_cliente-pasar_token :
      {g' g'' : Grupo} {tiene : Bool} (k : ℕ)
      → 0 < g.cant_clientes
      → pasar_token_a_proximo_cliente g ≡ some (g', tt)
      → tengo_el_token_cliente
          (record g' { numero_cola_asignada = k + g.numero_base_cola_asignada })
        ≡ some (g'', tiene)
      → (tiene ≡ true) ↔ (k ≡ g'.cliente_actual)
  unfolding tengo_el_token_cliente
  tengo_el_token_cliente-pasar_token {g'} k h e f =
      let (n, p) = pasar_token_lem h e in
      con_mutex-elim (λ r. (r.1 ≡ true) ↔ (k ≡ g'.cliente_actual))
        (λ g. (g, g.numero_cola_asignada - g.numero_base_cola_asignada == g.tengo_token_cliente))
        (record g' { numero_cola_asignada = k + g.numero_base_cola_asignada }) f
        (λ up. ground (arith, p.base, p.cliente))
