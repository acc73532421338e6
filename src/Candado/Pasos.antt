-- ===== src/Candado/Pasos.antt =====
-- What each operation of a client does to the place of the token.
use aeropuerto.Base.{
  ℕ, ◌≡◌, ◌∙◌, refl, sym, ap, List, [], append-nil, Bool, true, false, some, length, wait_on,
  signalize, arith, if◌then◌else◌,
}
use aeropuerto.Transferencia.{Peticion, data_size, completa}
use aeropuerto.Transferencia.ClientHandler
use aeropuerto.Transferencia.LocalBrokerComm
use aeropuerto.Transferencia.Viaje.{
  wait_token-send_token, recv_token-send_token, wait_token-nil, recv_token-nil,
}
use aeropuerto.Candado.{
  Cliente, tomar_token, enviar_al_cliente, recibir_del_cliente, soltar_token, recibir_del_broker,
  entregar_si_espera, esperar_token, enviar_al_broker, pedir, tomar, entrar, escribir, salir,
  soltar,
}
use aeropuerto.Candado.Fases.{
  Fase, ninguna, en_handler, hacia_cliente, en_comm, ofrecido, por_limpiar, en_uso, por_soltar,
  devuelto, en_comm_vuelta, hacia_broker, en_handler_vuelta, EsCliente,
}

module _ (tamanio : ℕ) (m sh : List ℕ) (c : Cliente) where
  pub soltar_token_lem :
      (f : Fase) {c' : Cliente}
      → EsCliente tamanio f m sh c
      → soltar_token c ≡ some c'
      → (f ≡ en_handler_vuelta) × (sh ≡ m) × EsCliente tamanio ninguna m sh c'
  unfolding soltar_token
  soltar_token_lem en_handler_vuelta v e = ground arith
  soltar_token_lem f v e = absurd (ground arith)

  pub tomar_lem :
      (f : Fase) {c' : Cliente}
      → EsCliente tamanio f m sh c
      → tomar c ≡ some c'
      → (f ≡ ofrecido) × EsCliente tamanio por_limpiar m sh c'
  unfolding tomar wait_on
  tomar_lem ofrecido v e = ground arith
  tomar_lem f v e = absurd (ground arith)

  pub entregar_si_espera_lem :
      (espera : Bool) (f : Fase) {c' : Cliente}
      → EsCliente tamanio f m sh c
      → entregar_si_espera espera c ≡ some c'
      → (f ≡ en_comm) × EsCliente tamanio (if espera then ofrecido else en_comm_vuelta) m sh c'
  unfolding entregar_si_espera signalize
  entregar_si_espera_lem true en_comm v e = ground arith
  entregar_si_espera_lem false en_comm v e = ground arith
  entregar_si_espera_lem espera f v e = absurd (ground arith)

  pub tomar_token_lem :
      (f : Fase) {c' : Cliente}
      → EsCliente tamanio f m sh c
      → sh ≡ m
      → tomar_token c ≡ some c'
      → (f ≡ ninguna) × EsCliente tamanio en_handler m sh c'
  unfolding tomar_token
  tomar_token_lem ninguna v h e = ground arith
  tomar_token_lem f v h e = absurd (ground arith)

  pub enviar_al_cliente_lem :
      (datos : List ℕ) (peticion : Peticion) (f : Fase) {c' : Cliente}
      → length datos ≡ data_size
      → EsCliente tamanio f m sh c
      → enviar_al_cliente tamanio sh datos peticion c ≡ some c'
      → (f ≡ en_handler) × EsCliente tamanio hacia_cliente m sh c'
  unfolding enviar_al_cliente
  enviar_al_cliente_lem datos peticion en_handler {c'} d v e = (
    refl,
    record {
      handler = ground arith;
      comm = ground arith;
      app = ground arith;
      semaforos = ground arith;
      ida = (datos, peticion, d, ground arith);
      vuelta = ground arith;
      length_memoria = ground arith;
      copia = tt;
      compartida = tt;
    },
  )
  enviar_al_cliente_lem datos peticion f d v e = absurd (ground arith)

  pub recibir_del_broker_lem :
      (f : Fase) {c' : Cliente}
      → length m ≡ tamanio
      → EsCliente tamanio f m sh c
      → recibir_del_broker tamanio c ≡ some c'
      → (f ≡ hacia_cliente) × EsCliente tamanio en_comm m sh c'
  unfolding recibir_del_broker
  recibir_del_broker_lem hacia_cliente l v e =
      let (datos, peticion, d, q) = v.ida in
      let r : LocalBrokerComm.wait_token tamanio 0 c.memoria c.al_cliente ≡ completa m [] =
        ap (LocalBrokerComm.wait_token tamanio 0 c.memoria) (q ∙ sym (append-nil _))
        ∙ wait_token-send_token tamanio m datos l d [] c.memoria peticion v.length_memoria in
      ground (arith, r)
  recibir_del_broker_lem f l v e = absurd (ground (arith, wait_token-nil tamanio 0 c.memoria))

  pub recibir_del_cliente_lem :
      (f : Fase) {c' : Cliente} {sh' : List ℕ}
      → length m ≡ tamanio
      → EsCliente tamanio f m sh c
      → recibir_del_cliente tamanio c ≡ some (c', sh')
      → (f ≡ hacia_broker) × (sh' ≡ m) × EsCliente tamanio en_handler_vuelta m sh' c'
  unfolding recibir_del_cliente
  recibir_del_cliente_lem hacia_broker l v e =
      let (datos, d, q) = v.vuelta in
      let r : ClientHandler.recv_token tamanio c.al_broker ≡ completa m [] =
        ap (ClientHandler.recv_token tamanio) (q ∙ sym (append-nil _))
        ∙ recv_token-send_token tamanio m datos l d [] 0 in
      ground (arith, r)
  recibir_del_cliente_lem f l v e = absurd (ground (arith, recv_token-nil tamanio))

  pub esperar_token_lem :
      (f : Fase) {c' : Cliente}
      → EsCliente tamanio f m sh c
      → esperar_token c ≡ some c'
      → (f ≡ devuelto) × EsCliente tamanio en_comm_vuelta m sh c'
  unfolding esperar_token wait_on
  esperar_token_lem devuelto v e = ground arith
  esperar_token_lem f v e = absurd (ground arith)

  pub enviar_al_broker_lem :
      (datos : List ℕ) (f : Fase) {c' : Cliente}
      → length datos ≡ data_size
      → EsCliente tamanio f m sh c
      → enviar_al_broker tamanio datos c ≡ some c'
      → (f ≡ en_comm_vuelta) × EsCliente tamanio hacia_broker m sh c'
  unfolding enviar_al_broker
  enviar_al_broker_lem datos en_comm_vuelta {c'} d v e = (
    refl,
    record {
      handler = ground arith;
      comm = ground arith;
      app = ground arith;
      semaforos = ground arith;
      ida = ground arith;
      vuelta = (datos, d, ground arith);
      length_memoria = ground arith;
      copia = tt;
      compartida = tt;
    },
  )
  enviar_al_broker_lem datos f d v e = absurd (ground arith)

  pub pedir_lem :
      (f : Fase) {c' : Cliente}
      → EsCliente tamanio f m sh c
      → pedir c ≡ some c'
      → EsCliente tamanio f m sh c'
  unfolding pedir
  pedir_lem ninguna v e = ground arith
  pedir_lem f v e = ground arith

  pub entrar_lem :
      (f : Fase) {c' : Cliente}
      → EsCliente tamanio f m sh c
      → entrar c ≡ some c'
      → (f ≡ por_limpiar) × (c'.memoria ≡ m) × EsCliente tamanio en_uso m sh c'
  unfolding entrar
  entrar_lem por_limpiar v e = ground arith
  entrar_lem f v e = absurd (ground arith)

  pub escribir_lem :
      (m' : List ℕ) (f : Fase) {c' : Cliente}
      → length m' ≡ tamanio
      → EsCliente tamanio f m sh c
      → escribir m' c ≡ some c'
      → (f ≡ en_uso) × EsCliente tamanio en_uso m' sh c'
  unfolding escribir
  escribir_lem m' en_uso l v e = ground arith
  escribir_lem m' f l v e = absurd (ground arith)

  pub salir_lem :
      (f : Fase) {c' : Cliente}
      → EsCliente tamanio f m sh c
      → salir c ≡ some c'
      → (f ≡ en_uso) × EsCliente tamanio por_soltar m sh c'
  unfolding salir
  salir_lem en_uso v e = ground arith
  salir_lem f v e = absurd (ground arith)

  pub soltar_lem :
      (f : Fase) {c' : Cliente}
      → EsCliente tamanio f m sh c
      → soltar c ≡ some c'
      → (f ≡ por_soltar) × EsCliente tamanio devuelto m sh c'
  unfolding soltar signalize
  soltar_lem por_soltar v e = ground arith
  soltar_lem f v e = absurd (ground arith)

  -- A client without the token has no part in its memory.
  pub ninguna_lem :
      (m' sh' : List ℕ) → EsCliente tamanio ninguna m sh c → EsCliente tamanio ninguna m' sh' c
  ninguna_lem m' sh' v = ground arith
