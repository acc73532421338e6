-- ===== src/Transferencia/LocalBrokerComm.antt =====
-- The client's side of a transfer: class `LocalBrokerComm` of clientes/local_broker_comm.cpp.
use aeropuerto.Base.{ℕ, List, if◌then◌else◌, ◌==◌}
use aeropuerto.Transferencia.{
  Mensaje, Recepcion, token_free, token_leave, cantidad_de_bloques, enviar_desde, esperar_desde,
}

-- A client that has to leave (`salir`) says so with the token.
unfoldable pub send_token : (tamanio salir : ℕ) (memory datos : List ℕ) → List Mensaje
send_token tamanio salir memory datos =
    enviar_desde (cantidad_de_bloques tamanio) 0 tamanio memory datos
      (if salir == 0 then token_free else token_leave)

unfoldable pub wait_token : (tamanio salir : ℕ) (memory : List ℕ) → List Mensaje → Recepcion
wait_token tamanio salir memory ms =
    esperar_desde (cantidad_de_bloques tamanio) 0 tamanio salir memory ms
