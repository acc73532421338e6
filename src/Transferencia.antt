-- ===== src/Transferencia.antt =====
-- How the token of a resource travels between the broker and a client, with the memory of the
-- resource: `send_token` and `recv_token` of class `ClientHandler` (local_broker/client_handler.cpp),
-- `send_token(void *)` and `wait_token(void *)` of class `LocalBrokerComm`
-- (clientes/local_broker_comm.cpp). A socket is the list of the messages that wait in it.
pub mod Copia
pub mod Viaje
pub mod ClientHandler
pub mod LocalBrokerComm
mod Tests
use aeropuerto.Base.{
  ℕ, zero, suc, ◌+◌, ◌-◌, ◌*◌, ◌/◌, ◌%◌, min, List, [], ◌∷◌, ◌++◌, Bool, true, false, not, ◌&&◌,
  ◌||◌, if◌then◌else◌, ◌==◌, ltb, take, drop, replicate, length,
}

abbrev pub data_size : ℕ
data_size = 256

pub data Peticion : Type 0 where
  register : Peticion
  join : Peticion
  join_fork : Peticion
  leave : Peticion
  token_free : Peticion
  end : Peticion
  leaved : Peticion
  token_leave : Peticion

abbrev pub es_leave : Peticion → Bool
es_leave leave = true
es_leave p = false

-- `mensajes_local_broker_token_t`: the answer and the name of the resource are left out.
pub record Mensaje : Type 0 where
  pub peticion : Peticion
  pub datos : List ℕ

-- `memcpy(destino + i, origen, n)`.
abbrev pub memcpy : (destino : List ℕ) → ℕ → (origen : List ℕ) → ℕ → List ℕ
memcpy destino i origen n = take i destino ++ take n origen ++ drop (i + n) destino

-- The number of messages for a memory, as `join_group` counts them.
unfoldable pub cantidad_de_bloques : ℕ → ℕ
cantidad_de_bloques tamanio =
    if not (tamanio % data_size == 0) || tamanio == 0 || ltb tamanio data_size
    then tamanio / data_size + 1
    else tamanio / data_size

-- The bytes of message `i`.
abbrev pub bytes_del_bloque : (tamanio i : ℕ) → ℕ
bytes_del_bloque tamanio i = min (tamanio - i * data_size) data_size

-- The loop of both `send_token`, from message `i` on. `datos` is the buffer of the one message that it
-- fills and sends again and again: what a short block does not overwrite stays in it.
unfoldable pub enviar_desde :
    (bloques i tamanio : ℕ) (memoria datos : List ℕ) → Peticion → List Mensaje
enviar_desde zero i tamanio memoria datos peticion = []
enviar_desde (suc bloques) i tamanio memoria datos peticion =
    let llenos =
      if tamanio == 0
      then datos
      else memcpy datos 0 (drop (i * data_size) memoria) (bytes_del_bloque tamanio i) in
    record { peticion = peticion; datos = llenos }
    ∷ enviar_desde bloques (i + 1) tamanio memoria llenos peticion

-- `completa` has the memory and the messages left, `salida` is the end on a request to leave, and
-- `en_espera` waits for more messages.
pub data Recepcion : Type 0 where
  completa : List ℕ → List Mensaje → Recepcion
  salida : Recepcion
  en_espera : Recepcion

-- A block that is copied to its place, where `copia` says so.
abbrev pub guardar : Bool → (tamanio i : ℕ) (memoria datos : List ℕ) → List ℕ
guardar copia tamanio i memoria datos =
    if copia then memcpy memoria (i * data_size) datos (bytes_del_bloque tamanio i) else memoria

-- The loop of `ClientHandler::recv_token`, which stops at a request to leave.
unfoldable pub recibir_desde :
    (bloques i tamanio : ℕ) (mem_local : List ℕ) → List Mensaje → Recepcion
recibir_desde zero i tamanio mem_local ms = completa mem_local ms
recibir_desde (suc bloques) i tamanio mem_local [] = en_espera
recibir_desde (suc bloques) i tamanio mem_local (m ∷ ms) =
    let resto =
      recibir_desde bloques (i + 1) tamanio
        (guardar (not (tamanio == 0)) tamanio i mem_local m.datos) ms in
    if es_leave m.peticion then salida else resto

-- The loop of `LocalBrokerComm::wait_token(void *)`.
unfoldable pub esperar_desde :
    (bloques i tamanio salir : ℕ) (memory : List ℕ) → List Mensaje → Recepcion
esperar_desde zero i tamanio salir memory ms = completa memory ms
esperar_desde (suc bloques) i tamanio salir memory [] = en_espera
esperar_desde (suc bloques) i tamanio salir memory (m ∷ ms) =
    esperar_desde bloques (i + 1) tamanio salir
      (guardar (not (tamanio == 0) && (salir == 0)) tamanio i memory m.datos) ms
