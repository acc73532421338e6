-- ===== src/Candado/Corridas.antt =====
-- Runs of the whole system, and what they are to the clients.
use aeropuerto.Base.{
  ℕ, ◌≡◌, ◌≢◌, ◌∙◌, refl, sym, ap, subst, List, [], ◌∷◌, Bool, true, false, Option, none, some,
  if◌then◌else◌, ◌==◌, length, arith, inl, inr, Bool-cases, ==_iff,
}
use aeropuerto.Grupo.{Nombre}
use aeropuerto.Candado.{Cliente, comparar_token}
use aeropuerto.Candado.Fases.{
  Fase, ninguna, en_handler, hacia_cliente, en_comm, ofrecido, por_limpiar, en_uso, por_soltar,
  devuelto, en_comm_vuelta, hacia_broker, en_handler_vuelta, EsCliente,
}
use aeropuerto.Candado.Pasos
use aeropuerto.Candado.Sistema.{
  Sistema, update, Evento, entro, escribio, salio, Paso, manager, toma_token, envia_al_cliente,
  recibe_del_cliente, suelta_token, recibe_del_broker, entrega, espera_token, envia_al_broker, pide,
  toma, entra, escribe, sale, suelta, otro_control,
}
use aeropuerto.Candado.Lugar.{
  Lugar, en_manager, en_cola, en_cliente, fase_de, EsSistema, fase_de-eq,
}
use aeropuerto.Candado.Movimientos.{
  con_cliente_lem, mover, atender-EsSistema, tomar_en-EsSistema, recibir_en-EsSistema,
  soltar_en-EsSistema,
}
use aeropuerto.Candado.Cerrojo.{Cerrojo, Acciones}

-- Whether the client with the token is inside.
abbrev pub duenio_de : Lugar → Option ℕ
duenio_de (en_cliente i en_uso) = some i
duenio_de l = none

-- The lock that a system with the token at `l` and the memory `m` stands for.
abbrev pub cerrojo : Lugar → List ℕ → Cerrojo
cerrojo l m = record { valor = m; duenio = duenio_de l }

-- The system is one with one token again, and the events are those of the lock.
abbrev pub Sigue : (tamanio : ℕ) → List Evento → Lugar → List ℕ → Sistema → Type 0
Sigue tamanio es l m t =
    (l' : Lugar) × (m' : List ℕ) × EsSistema tamanio l' m' t
    × Acciones es (cerrojo l m) (cerrojo l' m')

-- The name that is waited for says nothing of the token.
con_control :
    (tamanio : ℕ) (l : Lugar) (m : List ℕ) (s : Sistema)
    → EsSistema tamanio l m s
    → (otro : Nombre) → EsSistema tamanio l m (record s { token_esperando = otro })
con_control tamanio l m s v otro = record {
  manager = v.manager;
  cola = v.cola;
  clientes = v.clientes;
  memoria = v.memoria;
  length_memoria = v.length_memoria;
  sin_broker = v.sin_broker;
  mutex = v.mutex;
}

update_self : (clientes : ℕ → Cliente) (i : ℕ) (c : Cliente) → update clientes i c i ≡ c
update_self clientes i c = ground arith

-- Client `i` does something that leaves the token where it is.
sin_mover :
    (tamanio : ℕ) (l : Lugar) (m : List ℕ) (s : Sistema)
    → EsSistema tamanio l m s
    → (i : ℕ) {c : Cliente} → EsCliente tamanio (fase_de l i) m s.memoria_compartida c
    → (otro : Nombre)
    → EsSistema tamanio l m (record s { token_esperando = otro; clientes = update s.clientes i c })
sin_mover tamanio l m s v i {c} w otro = record {
  manager = v.manager;
  cola = v.cola;
  clientes = λ j. elim (Bool-cases (i == j)) [
    | inl same ↦ rw same (
        subst (λ k. EsCliente tamanio (fase_de l k) m s.memoria_compartida c) ((==_iff i j).0 same)
          w)
    | inr other ↦ rw other (v.clientes j)
  ];
  memoria = v.memoria;
  length_memoria = v.length_memoria;
  sin_broker = v.sin_broker;
  mutex = v.mutex;
}

entregado :
    (i : ℕ) (espera : Bool)
    → duenio_de (en_cliente i en_comm)
      ≡ duenio_de (en_cliente i (if espera then ofrecido else en_comm_vuelta))
entregado i true = refl
entregado i false = refl

module _ (nombre : Nombre) (tamanio : ℕ) (l : Lugar) (m : List ℕ) (s : Sistema)
    (v : EsSistema tamanio l m s) where
  -- A step of client `i` by which the token goes from phase `f` to `f'`, in a system that differs
  -- from `s` at most in the name that is waited for.
  avanza :
      (i : ℕ) (f f' : Fase) (m' : List ℕ) (es : List Evento) (otro : Nombre) {c : Cliente}
      {t : Sistema}
      → fase_de l i ≡ f
      → f ≢ ninguna
      → length m' ≡ tamanio
      → EsCliente tamanio f' m' s.memoria_compartida c
      → Acciones es (cerrojo (en_cliente i f) m) (cerrojo (en_cliente i f') m')
      → record s { clientes = update s.clientes i c; token_esperando = otro } ≡ t
      → Sigue tamanio es l m t
  avanza i f f' m' es otro {c} p ne k w acs u =
      let h = fase_de-eq l i f p ne in
      let libre : Sistema = record s { token_esperando = otro } in
      (
        en_cliente i f',
        m',
        subst (EsSistema tamanio (en_cliente i f') m') u (
            mover tamanio l m libre (con_control tamanio l m s v otro) i f f' m'
              s.memoria_compartida h k w),
        subst (λ l. Acciones es (cerrojo l m) (cerrojo (en_cliente i f') m')) (sym h) acs,
      )

  -- Every step keeps the one token, and to the clients it is what the lock does.
  pub Paso-Sigue :
      {es : List Evento} {t : Sistema} → Paso nombre tamanio s es t → Sigue tamanio es l m t
  Paso-Sigue (manager e) =
      let (h, w) = atender-EsSistema tamanio m s l v e in (en_cola _, m, w, ap (λ l. cerrojo l m) h)
  Paso-Sigue (toma_token i e) =
      let (h, w) = tomar_en-EsSistema tamanio m s l i v e in
      (en_cliente i en_handler, m, w, ap (λ l. cerrojo l m) h)
  Paso-Sigue (envia_al_cliente i datos peticion d e) =
      let (c, done, u) = con_cliente_lem i _ s e in
      let (p, w) =
        Pasos.enviar_al_cliente_lem tamanio m s.memoria_compartida (s.clientes i) datos peticion
          (fase_de l i) d (v.clientes i) done in
      avanza i en_handler hacia_cliente m [] s.token_esperando p (λ e. ground arith)
        v.length_memoria w refl u
  Paso-Sigue (recibe_del_cliente i e) =
      let (h, w) = recibir_en-EsSistema tamanio l m s v i e in
      (en_cliente i en_handler_vuelta, m, w, ap (λ l. cerrojo l m) h)
  Paso-Sigue (suelta_token i e) =
      let (h, w) = soltar_en-EsSistema tamanio m s l i v e in
      (en_manager, m, w, ap (λ l. cerrojo l m) h)
  Paso-Sigue (recibe_del_broker i e) =
      let (c, done, u) = con_cliente_lem i _ s e in
      let (p, w) =
        Pasos.recibir_del_broker_lem tamanio m s.memoria_compartida (s.clientes i) (fase_de l i)
          v.length_memoria (v.clientes i) done in
      avanza i hacia_cliente en_comm m [] s.token_esperando p (λ e. ground arith) v.length_memoria w
        refl u
  Paso-Sigue (entrega i e) =
      let (c, done, u) = con_cliente_lem i _ s e in
      let espera = comparar_token s.token_esperando nombre in
      let (p, w) =
        Pasos.entregar_si_espera_lem tamanio m s.memoria_compartida (s.clientes i) espera
          (fase_de l i) (v.clientes i) done in
      avanza i en_comm (if espera then ofrecido else en_comm_vuelta) m [] s.token_esperando p
        (λ e. ground arith) v.length_memoria w
        (ap (λ o. record { valor = m; duenio = o }) (entregado i espera)) u
  Paso-Sigue (espera_token i e) =
      let (c, done, u) = con_cliente_lem i _ s e in
      let (p, w) =
        Pasos.esperar_token_lem tamanio m s.memoria_compartida (s.clientes i) (fase_de l i)
          (v.clientes i) done in
      avanza i devuelto en_comm_vuelta m [] s.token_esperando p (λ e. ground arith) v.length_memoria
        w refl u
  Paso-Sigue (envia_al_broker i datos d e) =
      let (c, done, u) = con_cliente_lem i _ s e in
      let (p, w) =
        Pasos.enviar_al_broker_lem tamanio m s.memoria_compartida (s.clientes i) datos (fase_de l i)
          d (v.clientes i) done in
      avanza i en_comm_vuelta hacia_broker m [] s.token_esperando p (λ e. ground arith)
        v.length_memoria w refl u
  Paso-Sigue (pide i e) =
      let (c, done, u) = con_cliente_lem i _ _ e in
      let w =
        Pasos.pedir_lem tamanio m s.memoria_compartida (s.clientes i) (fase_de l i) (v.clientes i)
          done in
      (l, m, subst (EsSistema tamanio l m) u (sin_mover tamanio l m s v i w _), refl)
  Paso-Sigue (toma i e) =
      let (c, done, u) = con_cliente_lem i _ s e in
      let (p, w) =
        Pasos.tomar_lem tamanio m s.memoria_compartida (s.clientes i) (fase_de l i) (v.clientes i)
          done in
      avanza i ofrecido por_limpiar m [] s.token_esperando p (λ e. ground arith) v.length_memoria w
        refl u
  Paso-Sigue (entra {t} i e) =
      let (c, done, u) = con_cliente_lem i _ _ e in
      let (p, q, w) =
        Pasos.entrar_lem tamanio m s.memoria_compartida (s.clientes i) (fase_de l i) (v.clientes i)
          done in
      let x =
        sym (ap (λ t. (t.clientes i).memoria) u)
        ∙ ap (λ c. c.memoria) (update_self s.clientes i c)
        ∙ q in
      avanza i por_limpiar en_uso m (entro i (t.clientes i).memoria ∷ []) _ p (λ e. ground arith)
        v.length_memoria w (_, (refl, x, refl), refl) u
  Paso-Sigue (escribe i memoria k e) =
      let (c, done, u) = con_cliente_lem i _ s e in
      let (p, w) =
        Pasos.escribir_lem tamanio m s.memoria_compartida (s.clientes i) memoria (fase_de l i) k
          (v.clientes i) done in
      avanza i en_uso en_uso memoria (escribio i memoria ∷ []) s.token_esperando p
        (λ e. ground arith) k w (_, (refl, refl), refl) u
  Paso-Sigue (sale i e) =
      let (c, done, u) = con_cliente_lem i _ _ e in
      let (p, w) =
        Pasos.salir_lem tamanio m s.memoria_compartida (s.clientes i) (fase_de l i) (v.clientes i)
          done in
      avanza i en_uso por_soltar m (salio i ∷ []) _ p (λ e. ground arith) v.length_memoria w
        (_, (refl, refl), refl) u
  Paso-Sigue (suelta i e) =
      let (c, done, u) = con_cliente_lem i _ s e in
      let (p, w) =
        Pasos.soltar_lem tamanio m s.memoria_compartida (s.clientes i) (fase_de l i) (v.clientes i)
          done in
      avanza i por_soltar devuelto m [] s.token_esperando p (λ e. ground arith) v.length_memoria w
        refl u
  Paso-Sigue (otro_control otro) = (l, m, con_control tamanio l m s v otro, refl)
