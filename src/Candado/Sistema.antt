-- ===== src/Candado/Sistema.antt =====
-- All the clients of one resource, its table in the broker, and the token manager
-- (`TokenManager::run`, local_broker/token_manager.cpp), interleaved in any order.
use aeropuerto.Base.{ℕ, ◌+◌, ◌≡◌, List, [], ◌∷◌, Option, none, some, if◌then◌else◌, ◌==◌, length}
use aeropuerto.Grupo.{Grupo, TraspasoToken, Nombre, pasar_token_a_proximo_cliente}
use aeropuerto.Grupo.Token.{replicar_brokers, lock_token, release_token}
use aeropuerto.Transferencia.{Peticion, data_size}
use aeropuerto.Candado.{
  Cliente, cargar_esperando_token, limpiar_esperando_token, comparar_token, enviar_al_cliente,
  recibir_del_cliente, soltar_token, recibir_del_broker, entregar_si_espera, esperar_token,
  enviar_al_broker, pedir, tomar, entrar, escribir, salir, soltar, tomar_token,
}

-- The messages of this resource in the queue of the token manager, the table of the group as the
-- token manager has it, the buffer of `ControlTokens`, the memory of the group, and the client of each
-- slot of the table.
pub record Sistema : Type 0 where
  pub cola_token_manager : List TraspasoToken
  pub grupo : Grupo
  pub token_esperando : Nombre
  pub memoria_compartida : List ℕ
  pub clientes : ℕ → Cliente

abbrev pub update : (ℕ → Cliente) → ℕ → Cliente → ℕ → Cliente
update clientes i c j = if i == j then c else clientes j

-- A round of `TokenManager::run` for a token that was given back.
unfoldable pub atender : Sistema → Option Sistema
atender s = elim s.cola_token_manager [
  | [] ↦ none
  | x ∷ xs ↦ elim (replicar_brokers s.grupo) [
    | none ↦ none
    | some (g, _) ↦ elim (pasar_token_a_proximo_cliente g) [
      | none ↦ none
      | some (g, _) ↦ some (record s { cola_token_manager = xs; grupo = g })
    ]
  ]
]

-- An operation of client `i` that touches nothing else.
unfoldable pub con_cliente : ℕ → (Cliente → Option Cliente) → Sistema → Option Sistema
con_cliente i op s = elim (op (s.clientes i)) [
  | none ↦ none
  | some c ↦ some (record s { clientes = update s.clientes i c })
]

-- `lock_token` of the object `Grupo` that the process of client `i` has.
unfoldable pub tomar_en : ℕ → Sistema → Option Sistema
tomar_en i s =
    elim (lock_token
      (record s.grupo { numero_cola_asignada = i + s.grupo.numero_base_cola_asignada })) [
        | none ↦ none
        | some (g, _) ↦
            con_cliente i tomar_token (record s { grupo = record s.grupo { cola = g.cola } })
      ]

unfoldable pub recibir_en : (tamanio i : ℕ) → Sistema → Option Sistema
recibir_en tamanio i s = elim (recibir_del_cliente tamanio (s.clientes i)) [
  | none ↦ none
  | some (c, memoria) ↦
      some (record s { clientes = update s.clientes i c; memoria_compartida = memoria })
]

-- What the clients see: `lock` returns and the memory is this one, a write, the start of `unlock`.
pub data Evento : Type 0 where
  entro : (cliente : ℕ) → (memoria : List ℕ) → Evento
  escribio : (cliente : ℕ) → (memoria : List ℕ) → Evento
  salio : (cliente : ℕ) → Evento

-- A step of any process. The buffers from which messages are sent may hold anything before.
pub data Paso (nombre : Nombre) (tamanio : ℕ) (s : Sistema) : List Evento → Sistema → Type 0 where
  manager : {t : Sistema} → atender s ≡ some t → Paso nombre tamanio s [] t
  toma_token : {t : Sistema} (i : ℕ) → tomar_en i s ≡ some t → Paso nombre tamanio s [] t
  envia_al_cliente :
      {t : Sistema} (i : ℕ) (datos : List ℕ) (peticion : Peticion)
      → length datos ≡ data_size
      → con_cliente i (enviar_al_cliente tamanio s.memoria_compartida datos peticion) s ≡ some t
      → Paso nombre tamanio s [] t
  recibe_del_cliente :
      {t : Sistema} (i : ℕ) → recibir_en tamanio i s ≡ some t → Paso nombre tamanio s [] t
  suelta_token :
      {t : Sistema} (i : ℕ)
      → con_cliente i soltar_token
          (record s { cola_token_manager = release_token s.cola_token_manager })
        ≡ some t
      → Paso nombre tamanio s [] t
  recibe_del_broker :
      {t : Sistema} (i : ℕ)
      → con_cliente i (recibir_del_broker tamanio) s ≡ some t
      → Paso nombre tamanio s [] t
  entrega :
      {t : Sistema} (i : ℕ)
      → con_cliente i (entregar_si_espera (comparar_token s.token_esperando nombre)) s ≡ some t
      → Paso nombre tamanio s [] t
  espera_token :
      {t : Sistema} (i : ℕ) → con_cliente i esperar_token s ≡ some t → Paso nombre tamanio s [] t
  envia_al_broker :
      {t : Sistema} (i : ℕ) (datos : List ℕ)
      → length datos ≡ data_size
      → con_cliente i (enviar_al_broker tamanio datos) s ≡ some t
      → Paso nombre tamanio s [] t
  pide :
      {t : Sistema} (i : ℕ)
      → con_cliente i pedir (record s { token_esperando = cargar_esperando_token nombre }) ≡ some t
      → Paso nombre tamanio s [] t
  toma : {t : Sistema} (i : ℕ) → con_cliente i tomar s ≡ some t → Paso nombre tamanio s [] t
  entra :
      {t : Sistema} (i : ℕ)
      → con_cliente i entrar (record s { token_esperando = limpiar_esperando_token }) ≡ some t
      → Paso nombre tamanio s (entro i (t.clientes i).memoria ∷ []) t
  escribe :
      {t : Sistema} (i : ℕ) (memoria : List ℕ)
      → length memoria ≡ tamanio
      → con_cliente i (escribir memoria) s ≡ some t
      → Paso nombre tamanio s (escribio i memoria ∷ []) t
  sale :
      {t : Sistema} (i : ℕ)
      → con_cliente i salir (record s { token_esperando = limpiar_esperando_token }) ≡ some t
      → Paso nombre tamanio s (salio i ∷ []) t
  suelta : {t : Sistema} (i : ℕ) → con_cliente i soltar s ≡ some t → Paso nombre tamanio s [] t
  -- Another program of the host waits for another resource, or has got it.
  otro_control : (otro : Nombre) → Paso nombre tamanio s [] (record s { token_esperando = otro })
