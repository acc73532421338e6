-- ===== src/Candado.antt =====
-- The lock of a distributed memory, as a client and the two processes that serve him see it:
-- `MemoriaDistribuida` and `ControlTokens` of clientes/, the process that brings the token to the
-- client (`LocalBrokerComm::loop_memoria`, clientes/local_broker_comm.cpp), and the process of the
-- broker that sends it (`ClientHandler::loop_memoria`, local_broker/client_handler.cpp). Each operation
-- is what one process does between two waits; `none` is a process that waits, or is elsewhere.
pub mod Sistema
pub mod Fases
pub mod Pasos
pub mod Lugar
pub mod Manager
pub mod Movimientos
pub mod Cerrojo
pub mod Corridas
pub mod Exclusion
mod Tests
use aeropuerto.Base.{
  ℕ, ◌++◌, List, [], ◌∷◌, Bool, true, false, Option, none, some, if◌then◌else◌, take, wait_on,
  signalize,
}
use aeropuerto.Grupo.{Nombre, strncmp_igual, max_nombre_recurso}
use aeropuerto.Transferencia.{Mensaje, Peticion, completa, salida, en_espera}
use aeropuerto.Transferencia.ClientHandler
use aeropuerto.Transferencia.LocalBrokerComm

-- Class `ControlTokens`: the name of the resource that is waited for, in memory that the processes of a
-- host share. Each operation holds its mutex from its first line to its last.
abbrev pub cargar_esperando_token : Nombre → Nombre
cargar_esperando_token nombre = take max_nombre_recurso nombre

abbrev pub limpiar_esperando_token : Nombre
limpiar_esperando_token = []

unfoldable pub comparar_token : (token_esperando nombre : Nombre) → Bool
comparar_token token_esperando nombre = strncmp_igual max_nombre_recurso token_esperando nombre

-- Where the process of the broker stands in `ClientHandler::loop_memoria`: before `lock_token`, before
-- `send_token`, before `recv_token`, before `release_token`.
pub data FaseHandler : Type 0 where
  espera_token : FaseHandler
  tiene_token : FaseHandler
  espera_cliente : FaseHandler
  suelta_token : FaseHandler

-- Where the process of the client stands in `LocalBrokerComm::loop_memoria`: before `wait_token`,
-- before `comparar_token`, before `esperar_token`, before `send_token`.
pub data FaseComm : Type 0 where
  espera_broker : FaseComm
  compara : FaseComm
  espera_app : FaseComm
  devuelve : FaseComm

-- Where the program of the client stands: outside, before `wait_on` and before
-- `limpiar_esperando_token` in `lock`, between `lock` and `unlock`, before `signalize` in `unlock`.
pub data FaseApp : Type 0 where
  afuera : FaseApp
  pide : FaseApp
  limpia : FaseApp
  adentro : FaseApp
  sale : FaseApp

-- A client: his three processes, the two directions of the socket, the two semaphores `mutex` of
-- `MemoriaDistribuida`, and his copy of the memory.
pub record Cliente : Type 0 where
  pub handler : FaseHandler
  pub comm : FaseComm
  pub app : FaseApp
  pub al_cliente : List Mensaje
  pub al_broker : List Mensaje
  pub semaforos : List ℕ
  pub memoria : List ℕ

-- `lock_token` has returned.
unfoldable pub tomar_token : Cliente → Option Cliente
tomar_token c = elim c.handler [
  | espera_token ↦ some (record c { handler = tiene_token })
  | _ ↦ none
]

unfoldable pub enviar_al_cliente :
    (tamanio : ℕ) (memoria_compartida datos : List ℕ) → Peticion → Cliente → Option Cliente
enviar_al_cliente tamanio memoria_compartida datos peticion c = elim c.handler [
  | tiene_token ↦ some (record c {
    handler = espera_cliente;
    al_cliente = c.al_cliente ++ ClientHandler.send_token tamanio memoria_compartida datos peticion;
  })
  | _ ↦ none
]

-- With the new memory of the group.
unfoldable pub recibir_del_cliente : (tamanio : ℕ) → Cliente → Option (Cliente × List ℕ)
recibir_del_cliente tamanio c = elim c.handler [
  | espera_cliente ↦ elim (ClientHandler.recv_token tamanio c.al_broker) [
    | completa memoria ms ↦ some (record c { handler = suelta_token; al_broker = ms }, memoria)
    | salida ↦ none
    | en_espera ↦ none
  ]
  | _ ↦ none
]

unfoldable pub soltar_token : Cliente → Option Cliente
soltar_token c = elim c.handler [
  | suelta_token ↦ some (record c { handler = espera_token })
  | _ ↦ none
]

unfoldable pub recibir_del_broker : (tamanio : ℕ) → Cliente → Option Cliente
recibir_del_broker tamanio c = elim c.comm [
  | espera_broker ↦ elim (LocalBrokerComm.wait_token tamanio 0 c.memoria c.al_cliente) [
    | completa memoria ms ↦ some (record c { comm = compara; al_cliente = ms; memoria = memoria })
    | salida ↦ none
    | en_espera ↦ none
  ]
  | _ ↦ none
]

-- `entregar_token`, if the client waits for this resource.
unfoldable pub entregar_si_espera : (espera : Bool) → Cliente → Option Cliente
entregar_si_espera espera c = elim c.comm [
  | compara ↦ some (
      if espera
      then record c { comm = espera_app; semaforos = signalize c.semaforos 0 }
      else record c { comm = devuelve })
  | _ ↦ none
]

unfoldable pub esperar_token : Cliente → Option Cliente
esperar_token c = elim c.comm [
  | espera_app ↦ elim (wait_on c.semaforos 1) [
    | some s ↦ some (record c { comm = devuelve; semaforos = s })
    | none ↦ none
  ]
  | _ ↦ none
]

unfoldable pub enviar_al_broker : (tamanio : ℕ) (datos : List ℕ) → Cliente → Option Cliente
enviar_al_broker tamanio datos c = elim c.comm [
  | devuelve ↦ some (record c {
    comm = espera_broker;
    al_broker = c.al_broker ++ LocalBrokerComm.send_token tamanio 0 c.memoria datos;
  })
  | _ ↦ none
]

-- The three parts of `MemoriaDistribuida::lock`.
unfoldable pub pedir : Cliente → Option Cliente
pedir c = elim c.app [ afuera ↦ some (record c { app = pide }) | _ ↦ none ]

unfoldable pub tomar : Cliente → Option Cliente
tomar c = elim c.app [
  | pide ↦ elim (wait_on c.semaforos 0) [
    | some s ↦ some (record c { app = limpia; semaforos = s })
    | none ↦ none
  ]
  | _ ↦ none
]

unfoldable pub entrar : Cliente → Option Cliente
entrar c = elim c.app [ limpia ↦ some (record c { app = adentro }) | _ ↦ none ]

-- A write of the program between `lock` and `unlock`.
unfoldable pub escribir : List ℕ → Cliente → Option Cliente
escribir memoria c = elim c.app [ adentro ↦ some (record c { memoria = memoria }) | _ ↦ none ]

-- The two parts of `MemoriaDistribuida::unlock`.
unfoldable pub salir : Cliente → Option Cliente
salir c = elim c.app [ adentro ↦ some (record c { app = sale }) | _ ↦ none ]

unfoldable pub soltar : Cliente → Option Cliente
soltar c = elim c.app [
  | sale ↦ some (record c { app = afuera; semaforos = signalize c.semaforos 1 })
  | _ ↦ none
]
