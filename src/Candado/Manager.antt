-- ===== src/Candado/Manager.antt =====
-- A round of the token manager: the token goes from his queue to that of one client.
use aeropuerto.Base.{◌+◌, ◌≡◌, List, [], ◌∷◌, ◌++◌, some, arith, Option-cases, inl, inr}
use aeropuerto.Grupo.{
  Grupo, TraspasoToken, con_mutex, wait_on_mutex, signalize_mutex, pasar_token_a_proximo_cliente,
  locked_pasar_token, entregar_token,
}
use aeropuerto.Grupo.Token.{replicar_brokers, locked_replicar}
use aeropuerto.Candado.Sistema.{Sistema, atender}
use aeropuerto.Candado.Lugar.{SinBroker}

-- The table with these messages in the queue of the clients.
pub record ConCola (g : Grupo) (q : List TraspasoToken) (g' : Grupo) : Type 0 where
  pub cola : g'.cola ≡ q
  pub base : g'.numero_base_cola_asignada ≡ g.numero_base_cola_asignada
  pub names : g'.client_names ≡ g.client_names
  pub mutex : g'.mutex ≡ g.mutex

replicar_brokers-ConCola :
    (g : Grupo) {r : Grupo × Unit {0}}
    → SinBroker g
    → replicar_brokers g ≡ some r
    → ConCola g g.cola r.0
unfolding replicar_brokers locked_replicar con_mutex wait_on_mutex signalize_mutex
replicar_brokers-ConCola g b e = ground arith

pasar_token-ConCola :
    (g : Grupo) {r : Grupo × Unit {0}}
    → pasar_token_a_proximo_cliente g ≡ some r
    → ConCola g
        (g.cola
          ++ record { mtype = r.0.cliente_actual + g.numero_base_cola_asignada; tipo = 1 } ∷ [])
        r.0
unfolding pasar_token_a_proximo_cliente locked_pasar_token entregar_token con_mutex wait_on_mutex
    signalize_mutex
pasar_token-ConCola g e = ground arith

pub atender-nil : (s : Sistema) {t : Sistema} → s.cola_token_manager ≡ [] → ¬ (atender s ≡ some t)
unfolding atender
atender-nil s h e = ground arith

-- The token leaves the queue of the manager, and a message for one client is sent.
pub atender_lem :
    (s : Sistema) (x : TraspasoToken) (xs : List TraspasoToken) {t : Sistema}
    → s.cola_token_manager ≡ x ∷ xs
    → SinBroker s.grupo
    → s.grupo.cola ≡ []
    → atender s ≡ some t
    → let g = t.grupo in
      ConCola s.grupo
        (record { mtype = g.cliente_actual + s.grupo.numero_base_cola_asignada; tipo = 1 } ∷ [])
        g
      × (t.clientes ≡ s.clientes)
      × (t.memoria_compartida ≡ s.memoria_compartida)
      × (t.cola_token_manager ≡ xs)
unfolding atender
atender_lem s x xs h b q e = elim (Option-cases (replicar_brokers s.grupo)) [
  | inl waits ↦ absurd (ground arith)
  | inr (r, done) ↦
      let v = replicar_brokers-ConCola s.grupo b done in
      elim (Option-cases (pasar_token_a_proximo_cliente r.0)) [
        | inl waits ↦ absurd (ground arith)
        | inr (p, passed) ↦ let w = pasar_token-ConCola r.0 passed in ground arith
      ]
]
