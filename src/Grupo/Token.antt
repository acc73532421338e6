-- ===== src/Grupo/Token.antt =====
-- The flags of the token in the table of a group, and where `pasar_token_a_proximo_cliente` sends it.
pub mod Paso
use aeropuerto.Base.{
  ℕ, ◌+◌, ◌-◌, ◌++◌, List, [], ◌∷◌, Bool, true, false, Option, none, some, if◌then◌else◌, ◌==◌, ltb,
  get_or,
}
use aeropuerto.Grupo.{Grupo, TraspasoToken, Nombre, strncmp_igual, localbroker, primero, con_mutex}

unfoldable pub locked_reenviar : Grupo → Grupo × Unit {0}
locked_reenviar g = (
  record g {
    cola =
        g.cola ++ record { mtype = g.cliente_actual + g.numero_base_cola_asignada; tipo = 1 } ∷ [];
  },
  tt,
)

unfoldable pub reenviar_token_al_cliente : Grupo → Option (Grupo × Unit {0})
reenviar_token_al_cliente = con_mutex locked_reenviar

unfoldable pub tengo_el_token : Grupo → Option (Grupo × Bool)
tengo_el_token = con_mutex (λ g. (g, g.tengo_token_grupo == 1))

unfoldable pub esta_enviando_token : Grupo → Option (Grupo × Bool)
esta_enviando_token = con_mutex (λ g. (g, g.token_enviado == 0))

unfoldable pub el_token_se_envio : Grupo → Option (Grupo × Unit {0})
el_token_se_envio = con_mutex (λ g. (record g { token_enviado = 1; avisar_envio = 0 }, tt))

unfoldable pub locked_avisar : Grupo → Grupo × Unit {0}
locked_avisar g = (
  (if g.tengo_token_grupo == 0
      then (if g.token_enviado == 0 then record g { avisar_envio = 1 } else g)
      else g),
  tt,
)

unfoldable pub avisar_si_se_esta_enviando_token : Grupo → Option (Grupo × Unit {0})
avisar_si_se_esta_enviando_token = con_mutex locked_avisar

unfoldable pub tengo_que_avisar_envio : Grupo → Option (Grupo × Bool)
tengo_que_avisar_envio = con_mutex (λ g. (g, g.avisar_envio == 1))

-- The object's queue is never below the first queue of its group.
unfoldable pub tengo_el_token_cliente : Grupo → Option (Grupo × Bool)
tengo_el_token_cliente =
    con_mutex
      (λ g. (g, g.numero_cola_asignada - g.numero_base_cola_asignada == g.tengo_token_cliente))

-- The message of a replication goes to the client that is the local broker, if there is one.
unfoldable pub locked_replicar : Grupo → Grupo × Unit {0}
locked_replicar g = (
  (if ltb 0 g.cant_clientes
      then elim (primero (λ n. strncmp_igual 11 localbroker n) g.client_names) [
        | none ↦ g
        | some j ↦ record g {
          cola = g.cola ++ record { mtype = j + g.numero_base_cola_asignada; tipo = 2 } ∷ [];
        }
      ]
      else g),
  tt,
)

-- A group without memory is not replicated, and its mutex is not asked for.
unfoldable pub replicar_brokers : Grupo → Option (Grupo × Unit {0})
replicar_brokers g = if g.mem_size == 0 then some (g, tt) else con_mutex locked_replicar g

-- `cola.pull` with a type: the first message of that type.
abbrev pub sacar : ℕ → List TraspasoToken → Option (TraspasoToken × List TraspasoToken)
sacar mtype [] = none
sacar mtype (x ∷ xs) =
    let resto = sacar mtype xs in
    if x.mtype == mtype
    then some (x, xs)
    else elim resto [ none ↦ none | some (y, ys) ↦ some (y, x ∷ ys) ]

-- The kind of the message that it has got.
unfoldable pub lock_token : Grupo → Option (Grupo × ℕ)
lock_token g = elim (sacar g.numero_cola_asignada g.cola) [
  | none ↦ none
  | some (x, xs) ↦ some (record g { cola = xs }, x.tipo)
]

-- On the queue of the token manager.
abbrev pub release_token : List TraspasoToken → List TraspasoToken
release_token cola_token_mgr = cola_token_mgr ++ record { mtype = 1; tipo = 1 } ∷ []
