-- ===== src/AnilloDeBrokers/Nodo.antt =====
-- A host of the ring as its process `GroupReceiver` sees it: `recv_token`, `procesar_mensaje`,
-- `inicializando` and what they call, of local_broker/group_receiver.cpp.
pub mod Vuelta
pub mod Numeros
mod Tests
use aeropuerto.Base.{
  ℕ, zero, suc, ◌+◌, ◌-◌, ◌*◌, List, [], ◌∷◌, ◌++◌, Bool, true, false, not, Option, none, some,
  ◌>>=◌, if◌then◌else◌, ◌==◌, leb, replicate, take, length,
}
use aeropuerto.Grupo.{Nombre, Grupo, TraspasoToken}
use aeropuerto.Grupo.Token.{
  tengo_el_token, avisar_si_se_esta_enviando_token, reenviar_token_al_cliente, release_token,
}
use aeropuerto.Init.{cmp, contar_cifras, valor_desde}
use aeropuerto.Transferencia.{data_size, memcpy}
use aeropuerto.AnilloDeBrokers.Textos.{
  c_str, strcpy, strncpy, sscanf_numero, texto_ok, texto_formato,
}
use aeropuerto.AnilloDeBrokers.{
  GroupMsg, leader, token_deliver, group_discover, token_lost, initialization, token_recover,
  leader_elected, memory_update, token_discover, token_ok, Mensaje, sprintf_numero, Receptor,
  procesar_recepcion_token, procesar_memory_update,
}

-- `memoria` is the memory of the group, and `leader_q` the queue of the process `lider`. Members that
-- are never read are left out.
pub record Nodo : Type 0 where
  pub broker_local : Nombre
  pub receptor : Receptor
  pub mutex : Bool
  pub crear_token : Bool
  pub memoria_inicializada : Bool
  pub data_group : List ℕ
  pub cantidad_recibida_grupo : ℕ
  pub grupo : Grupo
  pub memoria : List ℕ
  pub cola_token_manager : List TraspasoToken
  pub leader_q : List Mensaje
  pub lider_lanzado : Bool

unfoldable pub reenviar_mensaje_a_lider : Mensaje → Nodo → Nodo
reenviar_mensaje_a_lider m s =
    if not s.mutex then record s { leader_q = s.leader_q ++ m ∷ [] } else s

unfoldable pub entregar_token_a_aplicacion : Nodo → Nodo
entregar_token_a_aplicacion s = record s {
  memoria = memcpy s.memoria 0 s.receptor.data_token s.grupo.mem_size;
  cola_token_manager = release_token s.cola_token_manager;
}

unfoldable pub launch_lider : Nodo → Nodo
launch_lider s =
    if not s.mutex
    then record s { receptor = record s.receptor { numero_de_nodo = 1 }; lider_lanzado = true }
    else s

-- The new state and the message that it forwards.
unfoldable pub actualizar_numero_de_nodo : Mensaje → Nodo → Nodo × Mensaje
actualizar_numero_de_nodo m s =
    let n = sscanf_numero m.data_bytes s.receptor.numero_de_nodo + 1 in
    (
      record s { receptor = record s.receptor { numero_de_nodo = n } },
      record m { data_bytes = sprintf_numero n m.data_bytes },
    )

-- A message that asks who has the token: the answer, if it is this host.
unfoldable pub responder : Mensaje → Nodo → Option (Nodo × List Mensaje)
responder respuesta s = do
  r ← tengo_el_token s.grupo
  if r.1
      then some (record s { grupo = r.0 }, respuesta ∷ [])
      else (avisar_si_se_esta_enviando_token r.0 >>= λ q. some (record s { grupo = q.0 }, []))

unfoldable pub recibir_grupo : Mensaje → Nodo → Nodo × Bool
recibir_grupo m s =
    let llegada = s.cantidad_recibida_grupo + data_size in
    let datos = memcpy s.data_group 0 m.data_bytes data_size in
    if leb m.cantidad_bytes_total llegada
    then (record s { data_group = datos; cantidad_recibida_grupo = 0 }, true)
    else (record s { data_group = datos; cantidad_recibida_grupo = llegada }, false)

-- The body of the loop of `recv_token`, by the kind of the message: the new state, the messages that it
-- pushes, and whether the loop ends.
unfoldable pub recv_token : GroupMsg → Mensaje → Nodo → Option (Nodo × List Mensaje × Bool)
recv_token token_deliver m s =
    let (r, ms, completo) = procesar_recepcion_token m s.receptor in
    some (record s { receptor = r }, ms, completo)
recv_token token_ok m s = do
  let respuesta : Mensaje = record m {
    tipo = token_ok;
    cantidad_bytes_total = 1;
    numero_de_mensaje = 0;
    data_bytes = strncpy m.data_bytes texto_formato s.receptor.numero_de_nodo;
  }
  r ← responder respuesta s
  some (r.0, r.1, false)
recv_token group_discover m s = let (s', completo) = recibir_grupo m s in some (s', [], completo)
recv_token memory_update m s =
    let (r, ms) = procesar_memory_update m s.receptor in some (record s { receptor = r }, ms, false)
recv_token token_discover m s =
    let respuesta : Mensaje = record m {
      tipo = token_ok;
      data_bytes = sprintf_numero s.receptor.numero_de_nodo m.data_bytes;
    } in
    if s.receptor.es_leader
    then some (reenviar_mensaje_a_lider m s, [], false)
    else (responder respuesta s >>= λ r. some (r.0, r.1, false))
recv_token tipo m s = some (s, [], true)

-- `inicial` is what `Grupo::inicializar_memoria` makes of the memory, and `entero` what stands in the
-- variable that `sscanf` has not set.
module _ (inicial : List ℕ → List ℕ) (entero : ℕ) where
  unfoldable pub inicializar_grupo : Nodo → Nodo
  inicializar_grupo s = record s {
    memoria = inicial s.memoria;
    memoria_inicializada = true;
    cola_token_manager =
        (if s.crear_token then release_token s.cola_token_manager else s.cola_token_manager);
  }

  unfoldable pub ser_leader : Nodo → Nodo
  ser_leader s = if not s.receptor.token_inicializado then inicializar_grupo s else s

  -- By the kind of the message: the new state and the messages that it pushes.
  unfoldable pub procesar_mensaje : GroupMsg → Mensaje → Nodo → Option (Nodo × List Mensaje)
  procesar_mensaje token_deliver m s = some (entregar_token_a_aplicacion s, [])
  procesar_mensaje group_discover m s =
      let (s', m') = actualizar_numero_de_nodo m s in
      if s.receptor.es_leader then some (reenviar_mensaje_a_lider m s, []) else some (s', m' ∷ [])
  procesar_mensaje initialization m s =
      if not (cmp s.broker_local (c_str m.data_bytes))
      then some (s, (if s.receptor.es_leader then record m { tipo = leader_elected } else m) ∷ [])
      else some (s, [])
  procesar_mensaje leader m s =
      let lider = record s {
        receptor = record s.receptor { es_leader = true; numero_de_nodo = 1 };
      } in
      if not s.receptor.es_leader then some (launch_lider (ser_leader lider), []) else some (s, [])
  procesar_mensaje token_recover m s =
      let n = sscanf_numero m.data_bytes entero in
      if s.receptor.es_leader
      then some (reenviar_mensaje_a_lider m s, [])
      else if not (cmp (c_str m.data_bytes) texto_ok)
      then (if n == s.receptor.numero_de_nodo
          then (reenviar_token_al_cliente s.grupo >>= λ r. some (
            record s { grupo = r.0 },
            record m { data_bytes = strcpy m.data_bytes texto_ok } ∷ [],
          ))
          else some (s, []))
      else some (s, [])
  procesar_mensaje tipo m s = some (s, [])

  -- One message in the loops of `loop_token` and `recv_token`.
  unfoldable pub atender : Mensaje → Nodo → Option (Nodo × List Mensaje)
  atender m s = do
    r ← recv_token m.tipo m s
    if r.2 then (procesar_mensaje m.tipo m r.0 >>= λ q. some (q.0, r.1 ++ q.1)) else some (r.0, r.1)

  abbrev pub atender_todos : List Mensaje → Nodo → Option (Nodo × List Mensaje)
  atender_todos [] s = some (s, [])
  atender_todos (m ∷ ms) s =
      atender m s >>= λ r. atender_todos ms r.0 >>= λ q. some (q.0, r.1 ++ q.1)

  -- The hosts of a ring one after the other: each gets what the one before it pushed.
  abbrev pub vuelta : List Nodo → List Mensaje → Option (List Nodo × List Mensaje)
  vuelta [] ms = some ([], ms)
  vuelta (n ∷ ns) ms = atender_todos ms n >>= λ r. vuelta ns r.1 >>= λ q. some (r.0 ∷ q.0, q.1)

  -- A message in the loop of `inicializando`: the new state, the messages that it pushes, and whether
  -- the loop goes on.
  unfoldable pub inicializando : GroupMsg → Mensaje → Nodo → Nodo × List Mensaje × Bool
  inicializando leader m s =
      let lider = record s { receptor = record s.receptor { es_leader = true } } in
      (launch_lider (ser_leader lider), [], false)
  inicializando initialization m s = (s, [], not (cmp s.broker_local (c_str m.data_bytes)))
  inicializando leader_elected m s = (
    record s { receptor = record s.receptor { es_leader = false; token_inicializado = true } },
    [],
    false,
  )
  inicializando tipo m s = (s, m ∷ [], true)

-- The message that `inicializando` begins with.
abbrev pub presentacion : (broker_local : Nombre) (data_bytes : List ℕ) → Mensaje
presentacion broker_local data_bytes = record {
  tipo = initialization;
  numero_de_mensaje = 0;
  cantidad_bytes_total = length broker_local;
  data_bytes = strcpy data_bytes broker_local;
}
