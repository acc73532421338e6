-- ===== src/Reconexion.antt =====
-- How a client looks for a local broker: `LocalBrokerComm::reconectar` of
-- clientes/local_broker_comm.cpp. Whether an attempt succeeds is a parameter: it depends on the number of
-- the attempt and on the broker. The loops have fuel.
pub mod Primera
pub mod Otra
mod Tests
use aeropuerto.Base.{ℕ, zero, suc, ◌+◌, ◌%◌, Bool, true, false, if◌then◌else◌, ◌==◌}

-- `lanza` is the error "Unable to connect to local brokers", and `sigue` a loop without fuel.
pub data Conexion : Type 0 where
  conectado_a : (broker : ℕ) → Conexion
  lanza : Conexion
  sigue : Conexion

module _ (conecta : (intento broker : ℕ) → Bool) (cant_brokers : ℕ) where
  -- The first time, from broker `i` on.
  abbrev pub primera_vez : (rounds intento i : ℕ) → Conexion
  primera_vez zero intento i = sigue
  primera_vez (suc rounds) intento i =
      let rest = primera_vez rounds (intento + 1) ((i + 1) % cant_brokers) in
      if conecta intento i
      then conectado_a i
      else if (i + 1) % cant_brokers == 0
      then lanza
      else rest

  -- The attempts with the same broker.
  abbrev pub mismo_broker : (faltan intento numero_broker : ℕ) → Bool
  mismo_broker zero intento numero_broker = false
  mismo_broker (suc faltan) intento numero_broker =
      let rest = mismo_broker faltan (intento + 1) numero_broker in
      if conecta intento numero_broker then true else rest

  -- The attempts with another one.
  abbrev pub otro_broker : (rounds intento numero_broker : ℕ) → Conexion
  otro_broker zero intento numero_broker = sigue
  otro_broker (suc rounds) intento numero_broker =
      let i = (numero_broker + 1) % cant_brokers in
      let rest = otro_broker rounds (intento + 1) numero_broker in
      if conecta intento i
      then conectado_a i
      else if (i + 1) % cant_brokers == numero_broker
      then lanza
      else rest

  -- Without the registration that follows.
  unfoldable pub reconectar : (rounds : ℕ) (conectado : Bool) (numero_broker : ℕ) → Conexion
  reconectar rounds false numero_broker = primera_vez rounds 0 0
  reconectar rounds true numero_broker =
      let rest = otro_broker rounds 3 numero_broker in
      if mismo_broker 3 0 numero_broker then conectado_a numero_broker else rest
