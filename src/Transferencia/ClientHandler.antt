-- ===== src/Transferencia/ClientHandler.antt =====
-- The broker's side of a transfer: class `ClientHandler` of local_broker/client_handler.cpp.
use aeropuerto.Base.{ℕ, List, replicate}
use aeropuerto.Transferencia.{
  Peticion, Mensaje, Recepcion, cantidad_de_bloques, enviar_desde, recibir_desde,
}

unfoldable pub send_token : (tamanio : ℕ) (memoria datos : List ℕ) → Peticion → List Mensaje
send_token tamanio memoria datos peticion =
    enviar_desde (cantidad_de_bloques tamanio) 0 tamanio memoria datos peticion

-- It collects the blocks in `mem_local`, which it zeroes first, and copies them to the memory of the
-- group only when all have come. On `salida` it returns 0.
unfoldable pub recv_token : (tamanio : ℕ) → List Mensaje → Recepcion
recv_token tamanio ms =
    recibir_desde (cantidad_de_bloques tamanio) 0 tamanio (replicate tamanio 0) ms
