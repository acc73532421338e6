-- ===== src/AnilloDeBrokers.antt =====
-- The messages by which the brokers of several hosts pass the token of a group round a ring, and the
-- processes that send and receive them: `GroupSender::send_token` of local_broker/group_sender.cpp and
-- the receptions of class `GroupReceiver` of local_broker/group_receiver.cpp.
pub mod Token
pub mod Replica
pub mod Envio
pub mod Textos
pub mod Nodo
mod Tests
use aeropuerto.Base.{
  ℕ, zero, suc, ◌+◌, ◌-◌, ◌*◌, min, ◌>>=◌, List, [], ◌∷◌, ◌++◌, Bool, true, false, not, Option,
  none, some, if◌then◌else◌, ◌==◌, ltb, leb, take, drop, length,
}
use aeropuerto.Grupo.{Nombre, Grupo}
use aeropuerto.Grupo.Token.{tengo_que_avisar_envio, el_token_se_envio}
use aeropuerto.Init.Decimal.{decimal}
use aeropuerto.Transferencia.{data_size, memcpy, cantidad_de_bloques}

-- `TOKEN_OK` and `TOKEN_IN_TRANSIT` are one number.
pub data GroupMsg : Type 0 where
  leader : GroupMsg
  token_deliver : GroupMsg
  group_discover : GroupMsg
  token_lost : GroupMsg
  initialization : GroupMsg
  token_recover : GroupMsg
  leader_elected : GroupMsg
  memory_update : GroupMsg
  token_discover : GroupMsg
  token_ok : GroupMsg

pub record Mensaje : Type 0 where
  pub tipo : GroupMsg
  pub numero_de_mensaje : ℕ
  pub cantidad_bytes_total : ℕ
  pub data_bytes : List ℕ

-- `sprintf(data, "%d", n)`.
abbrev pub sprintf_numero : (n : ℕ) (data_bytes : List ℕ) → List ℕ
sprintf_numero n data_bytes =
    let texto = decimal n ++ 0 ∷ [] in memcpy data_bytes 0 texto (length texto)

-- The part of `GroupReceiver` that the receptions work on. `siguiente` is `numero_anterior + 1`, which
-- the code compares with, and `siguiente_replica` is `numero_anterior_replica + 1`.
pub record Receptor : Type 0 where
  pub mem_size : ℕ
  pub es_leader : Bool
  pub numero_de_nodo : ℕ
  pub token_inicializado : Bool
  pub siguiente : ℕ
  pub cantidad_recibida_token : ℕ
  pub data_token : List ℕ
  pub siguiente_replica : ℕ
  pub cantidad_recibida_replica : ℕ
  pub replica_ok : Bool
  pub data_replica : List ℕ

-- `std::min(mem_size - i * DATA_SIZE, DATA_SIZE)` on `size_t`, which wraps below 0.
abbrev pub bytes_recibidos : (mem_size i : ℕ) → ℕ
bytes_recibidos mem_size i =
    if leb (i * data_size) mem_size then min (mem_size - i * data_size) data_size else data_size

abbrev pub empezar_token : Mensaje → Receptor → Receptor
empezar_token m r =
    if m.numero_de_mensaje == 0 then record r { siguiente = 0; cantidad_recibida_token = 0 } else r

-- A block that came in its turn, and whether it was the last one.
abbrev pub bloque_de_token : Mensaje → Receptor → Receptor × Bool
bloque_de_token m r =
    let llegada = r.cantidad_recibida_token + data_size in
    let guardada =
      memcpy r.data_token (m.numero_de_mensaje * data_size) m.data_bytes
        (bytes_recibidos r.mem_size m.numero_de_mensaje) in
    if leb m.cantidad_bytes_total llegada
    then (record r { data_token = guardada; cantidad_recibida_token = 0; siguiente = 0 }, true)
    else (
      record r {
        data_token = guardada;
        cantidad_recibida_token = llegada;
        siguiente = r.siguiente + 1;
      },
      false,
    )

-- The new state, the messages that it pushes, and whether the token is complete.
unfoldable pub procesar_recepcion_token : Mensaje → Receptor → Receptor × List Mensaje × Bool
procesar_recepcion_token m r =
    let r' = empezar_token m r in
    if not (m.numero_de_mensaje == r'.siguiente)
    then (
      record r' {
        cantidad_recibida_token = r'.cantidad_recibida_token + data_size;
        token_inicializado = true;
      },
      record m { tipo = token_lost; data_bytes = sprintf_numero r.numero_de_nodo m.data_bytes }
          ∷ [],
      false,
    )
    else (let (r'', completo) = bloque_de_token m r' in
        (record r'' { token_inicializado = true }, [], completo))

abbrev pub empezar_replica : Mensaje → Receptor → Receptor
empezar_replica m r =
    if m.numero_de_mensaje == 0
    then record r { cantidad_recibida_replica = 0; replica_ok = false; siguiente_replica = 0 }
    else r

abbrev pub bloque_de_replica : Mensaje → Receptor → Receptor
bloque_de_replica m r =
    let llegada = r.cantidad_recibida_replica + data_size in
    let guardada =
      memcpy r.data_replica (m.numero_de_mensaje * data_size) m.data_bytes
        (bytes_recibidos r.mem_size m.numero_de_mensaje) in
    if leb m.cantidad_bytes_total llegada
    then record r {
      data_replica = guardada;
      cantidad_recibida_replica = llegada;
      replica_ok = true;
      siguiente_replica = 1;
      data_token = memcpy r.data_token 0 guardada r.mem_size;
    }
    else record r {
      data_replica = guardada;
      cantidad_recibida_replica = llegada;
      siguiente_replica = r.siguiente_replica + 1;
    }

-- The messages are those that it forwards.
unfoldable pub procesar_memory_update : Mensaje → Receptor → Receptor × List Mensaje
procesar_memory_update m r =
    let r' = empezar_replica m r in
    if not (m.numero_de_mensaje == r'.siguiente_replica)
    then (bloque_de_replica m r', (if r'.es_leader then [] else m ∷ []))
    else (record r' { cantidad_recibida_replica = 0; siguiente_replica = 0 }, [])

-- The part of the loop in `recv_token` that takes the messages of a token until it is complete.
unfoldable pub recibir_token : List Mensaje → Receptor → Receptor × Bool
recibir_token [] r = (r, false)
recibir_token (m ∷ ms) r =
    let (r', _, completo) = procesar_recepcion_token m r in
    let resto = recibir_token ms r' in if completo then (r', true) else resto

unfoldable pub recibir_replica : List Mensaje → Receptor → Receptor
recibir_replica [] r = r
recibir_replica (m ∷ ms) r = recibir_replica ms (procesar_memory_update m r).0

-- The loop of `GroupSender::send_token`, and its buffer in the end. `memcpy` takes whole blocks, also
-- where the memory ends in the middle of one: `detras` is what lies behind it.
unfoldable pub enviar_bloques :
    (bloques i : ℕ) → GroupMsg → (memoria detras data_bytes : List ℕ) → List Mensaje × List ℕ
enviar_bloques zero i tipo memoria detras data_bytes = ([], data_bytes)
enviar_bloques (suc bloques) i tipo memoria detras data_bytes =
    let llenos =
      sprintf_numero i (memcpy data_bytes 0 (drop (i * data_size) (memoria ++ detras)) data_size) in
    let (ms, ultimo) = enviar_bloques bloques (i + 1) tipo memoria detras llenos in
    (
      record {
        tipo = tipo;
        numero_de_mensaje = i;
        cantidad_bytes_total = length memoria;
        data_bytes = llenos;
      }
          ∷ ms,
      ultimo,
    )

-- The kind of a message, by what `lock_token` has got.
abbrev pub tipo_de_envio : (tipo : ℕ) → GroupMsg → GroupMsg
tipo_de_envio tipo anterior =
    if tipo == 1 then token_deliver else if tipo == 2 then memory_update else anterior

-- The messages that `GroupSender::send_token` pushes; `TOKEN_IN_TRANSIT` is the number `token_ok`.
unfoldable pub send_token :
    (tipo : ℕ) (anterior : GroupMsg) (broker_local : Nombre) (memoria detras data_bytes : List ℕ)
    → Grupo
    → Option (Grupo × List Mensaje)
send_token tipo anterior broker_local memoria detras data_bytes g = do
  let (ms, ultimo) =
      enviar_bloques (cantidad_de_bloques (length memoria)) 0 (tipo_de_envio tipo anterior) memoria
        detras data_bytes
  (g', avisar) ← tengo_que_avisar_envio g
  (g'', _) ← el_token_se_envio g'
  let aviso : Mensaje = record {
    tipo = token_ok;
    numero_de_mensaje = 0;
    cantidad_bytes_total = length memoria;
    data_bytes = memcpy ultimo 0 broker_local (length broker_local);
  }
  some (g'', (if avisar then ms ++ aviso ∷ [] else ms))
