-- ===== src/AnilloDeBrokers/Tests.antt =====
-- A memory of three bytes that is sent and received.
use aeropuerto.Base.{◌≡◌, refl, List, ℕ, [], arith, ◌∷◌, ◌++◌, replicate, true, false}
use aeropuerto.AnilloDeBrokers.{
  GroupMsg, token_deliver, memory_update, Mensaje, Receptor, enviar_bloques,
  procesar_recepcion_token, recibir_token, recibir_replica,
}
use aeropuerto.AnilloDeBrokers.Token.{ninguno, uno, EsEntero, recibir_token-EsEntero}
use aeropuerto.AnilloDeBrokers.Replica.{SinReplica, recibir_replica-SinReplica}
use aeropuerto.AnilloDeBrokers.Envio.{Cero, recibir_token-enviar_bloques}
use aeropuerto.Transferencia.{cantidad_de_bloques}

abbrev memoria : List ℕ
memoria = 7 ∷ 8 ∷ 9 ∷ []

abbrev mensaje : GroupMsg → Mensaje
mensaje tipo = record {
  tipo = tipo;
  numero_de_mensaje = 0;
  cantidad_bytes_total = 3;
  data_bytes = memoria ++ replicate 253 0;
}

abbrev receptor : Receptor
receptor = record {
  mem_size = 3;
  es_leader = false;
  numero_de_nodo = 1;
  token_inicializado = false;
  siguiente = 5;
  cantidad_recibida_token = 256;
  data_token = 1 ∷ 2 ∷ 3 ∷ [];
  siguiente_replica = 0;
  cantidad_recibida_replica = 0;
  replica_ok = true;
  data_replica = 0 ∷ 0 ∷ 0 ∷ [];
}

recibido : (recibir_token (mensaje token_deliver ∷ []) receptor).0.data_token ≡ memoria
unfolding recibir_token procesar_recepcion_token
recibido = refl

recibir_token-EsEntero_example :
    EsEntero memoria (recibir_token (mensaje token_deliver ∷ []) receptor)
unfolding cantidad_de_bloques
recibir_token-EsEntero_example =
    recibir_token-EsEntero memoria receptor (mensaje token_deliver ∷ []) refl refl
      (uno (mensaje token_deliver) refl refl refl refl ninguno)

recibir_replica-SinReplica_example :
    SinReplica receptor (recibir_replica (mensaje memory_update ∷ []) receptor)
unfolding cantidad_de_bloques
recibir_replica-SinReplica_example =
    recibir_replica-SinReplica 3 (mensaje memory_update ∷ []) receptor refl (refl, refl, tt)

recibir_token-enviar_bloques_example :
    let (ms, _) =
      enviar_bloques (cantidad_de_bloques 3) 0 token_deliver memoria [] (replicate 256 0) in
    Cero (recibir_token ms receptor).0.data_token
recibir_token-enviar_bloques_example =
    recibir_token-enviar_bloques memoria [] (replicate 256 0) receptor (omega arith) refl
