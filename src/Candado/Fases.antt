-- ===== src/Candado/Fases.antt =====
-- Where the token of a resource is, as far as one client goes, and what that says of his processes.
use aeropuerto.Base.{ℕ, ◌≡◌, List, [], ◌∷◌, Bool, true, false, length}
use aeropuerto.Transferencia.{Mensaje, Peticion, data_size}
use aeropuerto.Transferencia.ClientHandler
use aeropuerto.Transferencia.LocalBrokerComm
use aeropuerto.Candado.{
  FaseHandler, espera_token, tiene_token, espera_cliente, suelta_token, FaseComm, espera_broker,
  compara, espera_app, devuelve, FaseApp, afuera, pide, limpia, adentro, sale, Cliente,
}

-- `ninguna`: he does not have it. The others stand in the order in which he gets and returns it.
pub data Fase : Type 0 where
  ninguna : Fase
  en_handler : Fase
  hacia_cliente : Fase
  en_comm : Fase
  ofrecido : Fase
  por_limpiar : Fase
  en_uso : Fase
  por_soltar : Fase
  devuelto : Fase
  en_comm_vuelta : Fase
  hacia_broker : Fase
  en_handler_vuelta : Fase

abbrev pub handler_de : Fase → FaseHandler
handler_de ninguna = espera_token
handler_de en_handler = tiene_token
handler_de en_handler_vuelta = suelta_token
handler_de f = espera_cliente

abbrev pub comm_de : Fase → FaseComm
comm_de en_comm = compara
comm_de ofrecido = espera_app
comm_de por_limpiar = espera_app
comm_de en_uso = espera_app
comm_de por_soltar = espera_app
comm_de devuelto = espera_app
comm_de en_comm_vuelta = devuelve
comm_de f = espera_broker

abbrev pub semaforos_de : Fase → List ℕ
semaforos_de ofrecido = 1 ∷ 0 ∷ []
semaforos_de devuelto = 0 ∷ 1 ∷ []
semaforos_de f = 0 ∷ 0 ∷ []

abbrev pub espera_o_no : FaseApp → Bool
espera_o_no afuera = true
espera_o_no pide = true
espera_o_no a = false

abbrev pub AppDe : Fase → FaseApp → Type 0
AppDe por_limpiar a = a ≡ limpia
AppDe en_uso a = a ≡ adentro
AppDe por_soltar a = a ≡ sale
AppDe f a = espera_o_no a ≡ true

module _ (tamanio : ℕ) where
  -- The messages on the way carry the memory `m`.
  abbrev pub Ida : Fase → (m : List ℕ) → List Mensaje → Type 0
  Ida hacia_cliente m ms =
      (datos : List ℕ) × (peticion : Peticion) × (length datos ≡ data_size)
      × (ms ≡ ClientHandler.send_token tamanio m datos peticion)
  Ida f m ms = ms ≡ []

  abbrev pub Vuelta : Fase → (m : List ℕ) → List Mensaje → Type 0
  Vuelta hacia_broker m ms =
      (datos : List ℕ) × (length datos ≡ data_size)
      × (ms ≡ LocalBrokerComm.send_token tamanio 0 m datos)
  Vuelta f m ms = ms ≡ []

  -- The copies that hold the memory `m`.
  abbrev pub Copia : Fase → (m memoria : List ℕ) → Type 0
  Copia en_comm m memoria = memoria ≡ m
  Copia ofrecido m memoria = memoria ≡ m
  Copia por_limpiar m memoria = memoria ≡ m
  Copia en_uso m memoria = memoria ≡ m
  Copia por_soltar m memoria = memoria ≡ m
  Copia devuelto m memoria = memoria ≡ m
  Copia en_comm_vuelta m memoria = memoria ≡ m
  Copia f m memoria = Unit {0}

  abbrev pub Compartida : Fase → (m memoria_compartida : List ℕ) → Type 0
  Compartida en_handler m memoria_compartida = memoria_compartida ≡ m
  Compartida en_handler_vuelta m memoria_compartida = memoria_compartida ≡ m
  Compartida f m memoria_compartida = Unit {0}

  -- The client in phase `f`, where the memory of the resource is `m`.
  pub record EsCliente (f : Fase) (m memoria_compartida : List ℕ) (c : Cliente) : Type 0 where
    pub handler : c.handler ≡ handler_de f
    pub comm : c.comm ≡ comm_de f
    pub app : AppDe f c.app
    pub semaforos : c.semaforos ≡ semaforos_de f
    pub ida : Ida f m c.al_cliente
    pub vuelta : Vuelta f m c.al_broker
    pub length_memoria : length c.memoria ≡ tamanio
    pub copia : Copia f m c.memoria
    pub compartida : Compartida f m memoria_compartida
