-- ===== src/Candado/Movimientos.antt =====
-- The token moves: what the steps of the system do to its place.
use aeropuerto.Base.{
  ℕ, ◌≡◌, ◌∙◌, refl, sym, ap, subst, List, [], Option, some, ◌==◌, length, arith, Bool-cases,
  Option-cases, inl, inr, ==_iff,
}
use aeropuerto.Grupo.Token.{lock_token, release_token}
use aeropuerto.Candado.{Cliente, tomar_token, recibir_del_cliente, soltar_token}
use aeropuerto.Candado.Fases.{Fase, ninguna, en_handler, hacia_broker, en_handler_vuelta, EsCliente}
use aeropuerto.Candado.Pasos.{tomar_token_lem, soltar_token_lem, recibir_del_cliente_lem}
use aeropuerto.Candado.Sistema.{Sistema, update, atender, con_cliente, tomar_en, recibir_en}
use aeropuerto.Candado.Manager.{atender_lem, atender-nil}
use aeropuerto.Candado.Lugar.{
  Lugar, en_manager, en_cola, en_cliente, fase_de, Manager, Cola, EsSistema, fase_de-eq,
  update-EsCliente, otros,
}

-- What a client does alone.
pub con_cliente_lem :
    (i : ℕ) (op : Cliente → Option Cliente) (s : Sistema) {t : Sistema}
    → con_cliente i op s ≡ some t
    → (c : Cliente) × (op (s.clientes i) ≡ some c)
      × (record s { clientes = update s.clientes i c } ≡ t)
unfolding con_cliente
con_cliente_lem i op s e = elim (Option-cases (op (s.clientes i))) [
  | inl waits ↦ absurd (ground arith)
  | inr (c, done) ↦ (c, done, ground arith)
]

module _ (tamanio : ℕ) (l : Lugar) (m : List ℕ) (s : Sistema) (v : EsSistema tamanio l m s) where
  -- Client `i` goes on with the token, and the memory of the group and of the resource are these.
  pub mover :
      (i : ℕ) (f f' : Fase) (m' sh' : List ℕ) {c : Cliente}
      → l ≡ en_cliente i f
      → length m' ≡ tamanio
      → EsCliente tamanio f' m' sh' c
      → EsSistema tamanio
          (en_cliente i f')
          m'
          (record s { clientes = update s.clientes i c; memoria_compartida = sh' })
  mover i f f' m' sh' {c} e k w = record {
    manager = subst (λ l. Manager l s.cola_token_manager) e v.manager;
    cola = subst (λ l. Cola l s.grupo.numero_base_cola_asignada s.grupo.cola) e v.cola;
    clientes =
        update-EsCliente tamanio m m' s.memoria_compartida sh' s.clientes i f'
          (otros tamanio m s.memoria_compartida s.clientes i l f e v.clientes) w;
    memoria = tt;
    length_memoria = k;
    sin_broker = v.sin_broker;
    mutex = v.mutex;
  }

  pub recibir_en-EsSistema :
      (i : ℕ) {t : Sistema}
      → recibir_en tamanio i s ≡ some t
      → (l ≡ en_cliente i hacia_broker) × EsSistema tamanio (en_cliente i en_handler_vuelta) m t
  unfolding recibir_en
  recibir_en-EsSistema i e = elim (Option-cases (recibir_del_cliente tamanio (s.clientes i))) [
    | inl waits ↦ absurd (ground arith)
    | inr ((c, sh'), done) ↦
        let (p, q, w) =
          recibir_del_cliente_lem tamanio m s.memoria_compartida (s.clientes i) (fase_de l i)
            v.length_memoria (v.clientes i) done in
        let h = fase_de-eq l i hacia_broker p (λ e. ground arith) in
        let u : record s { clientes = update s.clientes i c; memoria_compartida = sh' } ≡ _ =
          ground arith in
        (
          h,
          subst (EsSistema tamanio (en_cliente i en_handler_vuelta) m) u
              (mover i hacia_broker en_handler_vuelta m sh' h v.length_memoria w),
        )
  ]

nadie : (i j : ℕ) → fase_de (en_cliente i ninguna) j ≡ ninguna
nadie i j = ground arith

module _ (tamanio : ℕ) (m : List ℕ) (s : Sistema) where
  -- The token manager sends it on.
  pub atender-EsSistema :
      (l : Lugar) {t : Sistema}
      → EsSistema tamanio l m s
      → atender s ≡ some t
      → (l ≡ en_manager) × EsSistema tamanio (en_cola t.grupo.cliente_actual) m t
  atender-EsSistema (en_cola j) v e = absurd (atender-nil s v.manager e)
  atender-EsSistema (en_cliente j f) v e = absurd (atender-nil s v.manager e)
  atender-EsSistema en_manager {t} v e =
      let (g, cs, sh, q) = atender_lem s _ _ v.manager v.sin_broker v.cola e in
      (
        refl,
        record {
          manager = q;
          cola = ground (arith, g.cola, g.base);
          clientes = λ j.
              subst (λ cs. EsCliente tamanio ninguna m t.memoria_compartida (cs j)) (sym cs)
                (subst (λ sh. EsCliente tamanio ninguna m sh (s.clientes j)) (sym sh)
                  (v.clientes j));
          memoria = sh ∙ v.memoria;
          length_memoria = v.length_memoria;
          sin_broker = rw g.names v.sin_broker;
          mutex = omega (arith, g.mutex, v.mutex);
        },
      )

  -- The process of a client takes it out of the queue, if it is for him.
  tomar_caso :
      (l : Lugar) (i : ℕ) {t : Sistema}
      → EsSistema tamanio l m s
      → tomar_en i s ≡ some t
      → (l ≡ en_cola i)
        × ((c : Cliente) × (tomar_token (s.clientes i) ≡ some c)
            × (record s { grupo = record s.grupo { cola = [] }; clientes = update s.clientes i c }
                ≡ t))
  unfolding tomar_en lock_token
  tomar_caso en_manager i v e = absurd (ground (arith, v.cola))
  tomar_caso (en_cliente j f) i v e = absurd (ground (arith, v.cola))
  tomar_caso (en_cola j) i v e = elim (Bool-cases (j == i)) [
    | inr other ↦ absurd (ground (arith, v.cola))
    | inl same ↦
        let libre : Sistema = record s { grupo = record s.grupo { cola = [] } } in
        let r : tomar_en i s ≡ con_cliente i tomar_token libre = ground (arith, v.cola) in
        (ap en_cola ((==_iff j i).0 same), con_cliente_lem i tomar_token libre (sym r ∙ e))
  ]

  pub tomar_en-EsSistema :
      (l : Lugar) (i : ℕ) {t : Sistema}
      → EsSistema tamanio l m s
      → tomar_en i s ≡ some t
      → (l ≡ en_cola i) × EsSistema tamanio (en_cliente i en_handler) m t
  tomar_en-EsSistema l i v e =
      let (h, (c, done, u)) = tomar_caso l i v e in
      let w = subst (λ l. EsSistema tamanio l m s) h v in
      let sh = s.memoria_compartida in
      let (p, k) =
        tomar_token_lem tamanio m sh (s.clientes i) ninguna (w.clientes i) w.memoria done in
      (
        h,
        subst (EsSistema tamanio (en_cliente i en_handler) m) u (record {
          manager = w.manager;
          cola = refl;
          clientes =
              update-EsCliente tamanio m m sh sh s.clientes i en_handler (λ j ne. w.clientes j) k;
          memoria = tt;
          length_memoria = w.length_memoria;
          sin_broker = w.sin_broker;
          mutex = w.mutex;
        }),
      )

  -- It goes back to the token manager.
  pub soltar_en-EsSistema :
      (l : Lugar) (i : ℕ) {t : Sistema}
      → EsSistema tamanio l m s
      → con_cliente i soltar_token
          (record s { cola_token_manager = release_token s.cola_token_manager })
        ≡ some t
      → (l ≡ en_cliente i en_handler_vuelta) × EsSistema tamanio en_manager m t
  soltar_en-EsSistema l i v e =
      let sh = s.memoria_compartida in
      let (c, done, u) = con_cliente_lem i soltar_token _ e in
      let (p, q, k) =
        soltar_token_lem tamanio m sh (s.clientes i) (fase_de l i) (v.clientes i) done in
      let h = fase_de-eq l i en_handler_vuelta p (λ e. ground arith) in
      (
        h,
        subst (EsSistema tamanio en_manager m) u (record {
          manager = ap release_token (subst (λ l. Manager l s.cola_token_manager) h v.manager);
          cola = subst (λ l. Cola l s.grupo.numero_base_cola_asignada s.grupo.cola) h v.cola;
          clientes = λ j.
              subst (λ f. EsCliente tamanio f m sh (update s.clientes i c j)) (nadie i j)
                (update-EsCliente tamanio m m sh sh s.clientes i ninguna
                  (otros tamanio m sh s.clientes i l en_handler_vuelta h v.clientes) k j);
          memoria = q;
          length_memoria = v.length_memoria;
          sin_broker = v.sin_broker;
          mutex = v.mutex;
        }),
      )
