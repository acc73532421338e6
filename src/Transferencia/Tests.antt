-- ===== src/Transferencia/Tests.antt =====
-- A memory of three bytes, and one of two blocks, on the way.
use aeropuerto.Base.{ℕ, ◌≡◌, ◌++◌, refl, List, [], ◌∷◌, replicate}
use aeropuerto.Transferencia.{
  completa, cantidad_de_bloques, token_free, enviar_desde, esperar_desde,
}
use aeropuerto.Transferencia.ClientHandler
use aeropuerto.Transferencia.LocalBrokerComm
use aeropuerto.Transferencia.Viaje.{wait_token-send_token, recv_token-send_token}

abbrev buffer : List ℕ
buffer = replicate 256 9

bloques_257 : cantidad_de_bloques 257 ≡ 2
unfolding cantidad_de_bloques
bloques_257 = refl

llegan_tres :
    LocalBrokerComm.wait_token 3 0
      (0 ∷ 0 ∷ 0 ∷ [])
      (ClientHandler.send_token 3 (1 ∷ 2 ∷ 3 ∷ []) buffer token_free)
    ≡ completa (1 ∷ 2 ∷ 3 ∷ []) []
unfolding LocalBrokerComm.wait_token ClientHandler.send_token enviar_desde esperar_desde
    cantidad_de_bloques
llegan_tres = refl

wait_token-send_token_example :
    LocalBrokerComm.wait_token 3 0
      (0 ∷ 0 ∷ 0 ∷ [])
      (ClientHandler.send_token 3 (1 ∷ 2 ∷ 3 ∷ []) buffer token_free ++ [])
    ≡ completa (1 ∷ 2 ∷ 3 ∷ []) []
wait_token-send_token_example =
    wait_token-send_token 3 (1 ∷ 2 ∷ 3 ∷ []) buffer refl refl [] (0 ∷ 0 ∷ 0 ∷ []) token_free refl

recv_token-send_token_example :
    ClientHandler.recv_token 300 (LocalBrokerComm.send_token 300 1 (replicate 300 5) buffer ++ [])
    ≡ completa (replicate 300 5) []
recv_token-send_token_example = recv_token-send_token 300 (replicate 300 5) buffer refl refl [] 1
