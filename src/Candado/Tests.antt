-- ===== src/Candado/Tests.antt =====
-- A run with one client, from the start until he has left.
use aeropuerto.Base.{ℕ, ◌≡◌, refl, List, [], ◌∷◌, none, arith, replicate, wait_on, signalize}
use aeropuerto.Grupo.{
  Grupo, Nombre, con_mutex, wait_on_mutex, signalize_mutex, buscar_proximo, entregar_token,
  locked_pasar_token, pasar_token_a_proximo_cliente,
}
use aeropuerto.Grupo.Token.{replicar_brokers, locked_replicar, lock_token}
use aeropuerto.Transferencia.{
  token_free, cantidad_de_bloques, enviar_desde, recibir_desde, esperar_desde,
}
use aeropuerto.Transferencia.ClientHandler
use aeropuerto.Transferencia.LocalBrokerComm
use aeropuerto.Candado
use aeropuerto.Candado.Sistema.{
  Sistema, atender, con_cliente, tomar_en, recibir_en, Evento, entro, escribio, salio, manager,
  toma_token, envia_al_cliente, recibe_del_cliente, suelta_token, recibe_del_broker, entrega,
  espera_token, envia_al_broker, pide, toma, entra, escribe, sale, suelta,
}
use aeropuerto.Candado.Cerrojo.{Cerrojo, Acciones}
use aeropuerto.Candado.Exclusion.{
  Corrida, aqui, luego, sistema_inicial, Corrida-Acciones, Corrida-exclusion,
}

abbrev nombre : Nombre
nombre = 109 ∷ []

-- One client, "a", in the first slot.
abbrev grupo : Grupo
grupo = record {
  cant_clientes = 1;
  mem_size = 1;
  client_names = (97 ∷ []) ∷ replicate 49 [];
  tengo_token_grupo = 0;
  tengo_token_cliente = 0;
  token_enviado = 1;
  avisar_envio = 0;
  mutex = 1;
  cola = [];
  numero_base_cola_asignada = 1;
  numero_cola_asignada = 1;
  cliente_actual = 0;
}

abbrev buffer : List ℕ
buffer = replicate 256 0

abbrev inicio : Sistema
inicio = sistema_inicial grupo 1 (7 ∷ [])

-- He gets in.
corrida_dentro : (t : Sistema) × Corrida nombre 1 inicio (entro 0 (7 ∷ []) ∷ []) t
unfolding atender replicar_brokers locked_replicar pasar_token_a_proximo_cliente locked_pasar_token
    entregar_token buscar_proximo con_mutex wait_on_mutex signalize_mutex tomar_en lock_token
    con_cliente recibir_en wait_on signalize cantidad_de_bloques enviar_desde recibir_desde
    esperar_desde ClientHandler.send_token ClientHandler.recv_token LocalBrokerComm.send_token
    LocalBrokerComm.wait_token Candado.tomar_token Candado.enviar_al_cliente
    Candado.recibir_del_cliente Candado.soltar_token Candado.recibir_del_broker
    Candado.entregar_si_espera Candado.esperar_token Candado.enviar_al_broker Candado.pedir
    Candado.tomar Candado.entrar Candado.escribir Candado.salir Candado.soltar
    Candado.comparar_token
corrida_dentro =
    let r0 : Corrida nombre 1 inicio [] _ = luego aqui (manager refl) refl in
    let r1 : Corrida nombre 1 inicio [] _ = luego r0 (toma_token 0 refl) refl in
    let r2 : Corrida nombre 1 inicio [] _ = luego r1 (pide 0 refl) refl in
    let r3 : Corrida nombre 1 inicio [] _ =
      luego r2 (envia_al_cliente 0 buffer token_free refl refl) refl in
    let r4 : Corrida nombre 1 inicio [] _ = luego r3 (recibe_del_broker 0 refl) refl in
    let r5 : Corrida nombre 1 inicio [] _ = luego r4 (entrega 0 refl) refl in
    let r6 : Corrida nombre 1 inicio [] _ = luego r5 (toma 0 refl) refl in
    (_, luego r6 (entra 0 refl) refl)

-- He writes an 8 and leaves, and the token goes round once more.
vuelta :
    (t : Sistema) × Corrida nombre 1 inicio
      (entro 0 (7 ∷ []) ∷ escribio 0 (8 ∷ []) ∷ salio 0 ∷ [])
      t
unfolding atender replicar_brokers locked_replicar pasar_token_a_proximo_cliente locked_pasar_token
    entregar_token buscar_proximo con_mutex wait_on_mutex signalize_mutex tomar_en lock_token
    con_cliente recibir_en wait_on signalize cantidad_de_bloques enviar_desde recibir_desde
    esperar_desde ClientHandler.send_token ClientHandler.recv_token LocalBrokerComm.send_token
    LocalBrokerComm.wait_token Candado.tomar_token Candado.enviar_al_cliente
    Candado.recibir_del_cliente Candado.soltar_token Candado.recibir_del_broker
    Candado.entregar_si_espera Candado.esperar_token Candado.enviar_al_broker Candado.pedir
    Candado.tomar Candado.entrar Candado.escribir Candado.salir Candado.soltar
    Candado.comparar_token corrida_dentro
vuelta =
    let es : List Evento = entro 0 (7 ∷ []) ∷ escribio 0 (8 ∷ []) ∷ salio 0 ∷ [] in
    let r0 : Corrida nombre 1 inicio (entro 0 (7 ∷ []) ∷ escribio 0 (8 ∷ []) ∷ []) _ =
      luego corrida_dentro.1 (escribe 0 (8 ∷ []) refl refl) refl in
    let r1 : Corrida nombre 1 inicio es _ = luego r0 (sale 0 refl) refl in
    let r2 : Corrida nombre 1 inicio es _ = luego r1 (suelta 0 refl) refl in
    let r3 : Corrida nombre 1 inicio es _ = luego r2 (espera_token 0 refl) refl in
    let r4 : Corrida nombre 1 inicio es _ = luego r3 (envia_al_broker 0 buffer refl refl) refl in
    let r5 : Corrida nombre 1 inicio es _ = luego r4 (recibe_del_cliente 0 refl) refl in
    let r6 : Corrida nombre 1 inicio es _ = luego r5 (suelta_token 0 refl) refl in
    (_, luego r6 (manager refl) refl)

queda_el_ocho : vuelta.0.memoria_compartida ≡ 8 ∷ []
unfolding vuelta
queda_el_ocho = refl

Corrida-Acciones_example :
    (fin : Cerrojo) × Acciones
      (entro 0 (7 ∷ []) ∷ escribio 0 (8 ∷ []) ∷ salio 0 ∷ [])
      (record { valor = 7 ∷ []; duenio = none })
      fin
Corrida-Acciones_example =
    Corrida-Acciones grupo nombre 1 (7 ∷ []) refl refl refl (omega arith) vuelta.1

Corrida-exclusion_example : ◌≡◌ {A = ℕ} 0 0
unfolding corrida_dentro
Corrida-exclusion_example =
    Corrida-exclusion grupo nombre 1 (7 ∷ []) refl refl refl (omega arith) corrida_dentro.1 0 0 refl
      refl
