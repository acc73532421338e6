-- ===== src/Candado/Exclusion.antt =====
-- Runs of the system from its start: one client at a time between `lock` and `unlock`, who sees what the
-- last one left.
use aeropuerto.Base.{
  ℕ, ◌<◌, ◌≡◌, ◌≢◌, ◌∙◌, refl, sym, ap, subst, List, [], ◌∷◌, ◌++◌, false, none, length, replicate,
  length-replicate, arith,
}
use aeropuerto.Grupo.{Grupo, Nombre}
use aeropuerto.Candado.{Cliente, espera_token, espera_broker, afuera}
use aeropuerto.Candado.Fases.{Fase, ninguna, EsCliente, espera_o_no}
use aeropuerto.Candado.Sistema.{Sistema, Evento, Paso}
use aeropuerto.Candado.Lugar.{
  Lugar, en_manager, en_cliente, fase_de, EsSistema, SinBroker, fase_de-eq,
}
use aeropuerto.Candado.Cerrojo.{Cerrojo, Acciones, Acciones-append}
use aeropuerto.Candado.Corridas.{cerrojo, Sigue, Paso-Sigue}

-- The steps of all processes in any order, and the events in the order in which they happened.
pub data Corrida (nombre : Nombre) (tamanio : ℕ) (s : Sistema)
    : List Evento → Sistema → Type 0 where
  aqui : Corrida nombre tamanio s [] s
  luego :
      {es fs gs : List Evento} {t u : Sistema}
      → Corrida nombre tamanio s es t
      → Paso nombre tamanio t fs u
      → gs ≡ es ++ fs
      → Corrida nombre tamanio s gs u

-- A client whose processes have just started, with new memory and semaphores.
abbrev pub cliente_inicial : ℕ → Cliente
cliente_inicial tamanio = record {
  handler = espera_token;
  comm = espera_broker;
  app = afuera;
  al_cliente = [];
  al_broker = [];
  semaforos = 0 ∷ 0 ∷ [];
  memoria = replicate tamanio 0;
}

-- The token is created in the queue of the token manager.
abbrev pub sistema_inicial : Grupo → (tamanio : ℕ) → (memoria : List ℕ) → Sistema
sistema_inicial g tamanio memoria = record {
  cola_token_manager = record { mtype = 1; tipo = 1 } ∷ [];
  grupo = g;
  token_esperando = [];
  memoria_compartida = memoria;
  clientes = λ j. cliente_inicial tamanio;
}

cliente_inicial-EsCliente :
    (tamanio : ℕ) (m sh : List ℕ) → EsCliente tamanio ninguna m sh (cliente_inicial tamanio)
cliente_inicial-EsCliente tamanio m sh = record {
  handler = refl;
  comm = refl;
  app = refl;
  semaforos = refl;
  ida = refl;
  vuelta = refl;
  length_memoria = length-replicate tamanio 0;
  copia = tt;
  compartida = tt;
}

pub sistema_inicial-EsSistema :
    (g : Grupo) (tamanio : ℕ) (memoria : List ℕ)
    → length memoria ≡ tamanio
    → g.cola ≡ []
    → SinBroker g
    → 0 < g.mutex
    → EsSistema tamanio en_manager memoria (sistema_inicial g tamanio memoria)
sistema_inicial-EsSistema g tamanio memoria l q b up = record {
  manager = refl;
  cola = q;
  clientes = λ j. cliente_inicial-EsCliente tamanio memoria memoria;
  memoria = refl;
  length_memoria = l;
  sin_broker = b;
  mutex = up;
}

Corrida-Sigue :
    (nombre : Nombre) (tamanio : ℕ) (l : Lugar) (m : List ℕ) (s : Sistema) {es : List Evento}
    {t : Sistema}
    → EsSistema tamanio l m s
    → Corrida nombre tamanio s es t
    → Sigue tamanio es l m t
Corrida-Sigue nombre tamanio l m s v aqui = (l, m, v, refl)
Corrida-Sigue nombre tamanio l m s v (luego {es = es} {fs = fs} {t = t} r p q) =
    let (k, n, w, acs) = Corrida-Sigue nombre tamanio l m s v r in
    let (k', n', w', acs') = Paso-Sigue nombre tamanio k n t w p in
    (
      k',
      n',
      w',
      subst (λ gs. Acciones gs (cerrojo l m) (cerrojo k' n')) (sym q)
          (Acciones-append es fs (cerrojo l m) (cerrojo k n) (cerrojo k' n') acs acs'),
    )

-- A client between the two waits has the token.
con_token :
    {tamanio : ℕ} {m sh : List ℕ} {c : Cliente} (f : Fase)
    → EsCliente tamanio f m sh c
    → espera_o_no c.app ≡ false
    → f ≢ ninguna
con_token ninguna v h e = ground (arith, v.app)
con_token f v h e = ground arith

module _ (g : Grupo) (nombre : Nombre) (tamanio : ℕ) (memoria : List ℕ)
    (l : length memoria ≡ tamanio) (q : g.cola ≡ []) (b : SinBroker g) (up : 0 < g.mutex)
    {es : List Evento} {t : Sistema}
    (r : Corrida nombre tamanio (sistema_inicial g tamanio memoria) es t) where
  final : Sigue tamanio es en_manager memoria t
  final =
      Corrida-Sigue nombre tamanio en_manager memoria (sistema_inicial g tamanio memoria)
        (sistema_inicial-EsSistema g tamanio memoria l q b up) r

  -- Over any run of all processes from the start, in any order, the clients see a lock with a value:
  -- whoever gets into `lock` finds nobody inside, and his copy of the memory is what the last one
  -- inside left, or the first memory; only the one inside writes and leaves.
  pub Corrida-Acciones :
      (fin : Cerrojo) × Acciones es (record { valor = memoria; duenio = none }) fin
  Corrida-Acciones = let (k, n, w, acs) = final in (cerrojo k n, acs)

  -- At any time of such a run at most one client is between the `wait_on` of `lock` and the
  -- `signalize` of `unlock`.
  pub Corrida-exclusion :
      (i j : ℕ)
      → espera_o_no (t.clientes i).app ≡ false
      → espera_o_no (t.clientes j).app ≡ false
      → i ≡ j
  Corrida-exclusion i j hi hj =
      let (k, n, w, acs) = final in
      let p = fase_de-eq k i (fase_de k i) refl (con_token (fase_de k i) (w.clientes i) hi) in
      let q = fase_de-eq k j (fase_de k j) refl (con_token (fase_de k j) (w.clientes j) hj) in
      ap quien (sym p ∙ q)
    where
      quien : Lugar → ℕ
      quien (en_cliente i f) = i
      quien x = 0
