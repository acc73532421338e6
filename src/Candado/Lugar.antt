-- ===== src/Candado/Lugar.antt =====
-- Where the one token of a resource is, and what that says of the whole system.
use aeropuerto.Base.{
  ℕ, ◌+◌, ◌<◌, ◌≡◌, ◌≢◌, ◌∙◌, sym, ap, subst, List, [], ◌∷◌, none, if◌then◌else◌, ◌==◌, length,
  arith, Bool-cases, inl, inr,
}
use aeropuerto.Grupo.{Grupo, TraspasoToken, localbroker, strncmp_igual, primero}
use aeropuerto.Candado.{Cliente}
use aeropuerto.Candado.Fases.{Fase, ninguna, EsCliente}
use aeropuerto.Candado.Pasos.{ninguna_lem}
use aeropuerto.Candado.Sistema.{Sistema, update}

pub data Lugar : Type 0 where
  en_manager : Lugar
  en_cola : ℕ → Lugar
  en_cliente : ℕ → Fase → Lugar

abbrev pub fase_de : Lugar → ℕ → Fase
fase_de (en_cliente i f) j = if i == j then f else ninguna
fase_de l j = ninguna

abbrev pub Manager : Lugar → List TraspasoToken → Type 0
Manager en_manager q = q ≡ record { mtype = 1; tipo = 1 } ∷ []
Manager l q = q ≡ []

abbrev pub Cola : Lugar → (base : ℕ) → List TraspasoToken → Type 0
Cola (en_cola i) base q = q ≡ record { mtype = i + base; tipo = 1 } ∷ []
Cola l base q = q ≡ []

-- Outside the clients the memory of the group is that of the resource.
abbrev pub Memoria : Lugar → (m memoria_compartida : List ℕ) → Type 0
Memoria (en_cliente i f) m memoria_compartida = Unit {0}
Memoria l m memoria_compartida = memoria_compartida ≡ m

-- No client is the local broker, to which replicas would go.
abbrev pub SinBroker : Grupo → Type 0
SinBroker g = primero (λ n. strncmp_igual 11 localbroker n) g.client_names ≡ none

-- There is one token, at `l`; the memory of the resource is `m`.
pub record EsSistema (tamanio : ℕ) (l : Lugar) (m : List ℕ) (s : Sistema) : Type 0 where
  pub manager : Manager l s.cola_token_manager
  pub cola : Cola l s.grupo.numero_base_cola_asignada s.grupo.cola
  pub clientes : (j : ℕ) → EsCliente tamanio (fase_de l j) m s.memoria_compartida (s.clientes j)
  pub memoria : Memoria l m s.memoria_compartida
  pub length_memoria : length m ≡ tamanio
  pub sin_broker : SinBroker s.grupo
  pub mutex : 0 < s.grupo.mutex

-- A client in a phase that is his alone has the token.
pub fase_de-eq : (l : Lugar) (i : ℕ) (f : Fase) → fase_de l i ≡ f → f ≢ ninguna → l ≡ en_cliente i f
fase_de-eq en_manager i f e h = absurd (h (sym e))
fase_de-eq (en_cola k) i f e h = absurd (h (sym e))
fase_de-eq (en_cliente k g) i f e h = elim (Bool-cases (k == i)) [
  | inl same ↦ ground arith
  | inr other ↦ absurd (h (ground arith))
]

module _ (tamanio : ℕ) (m m' sh sh' : List ℕ) (clientes : ℕ → Cliente) (i : ℕ) where
  -- The others have no part in what client `i` does with the token.
  pub update-EsCliente :
      {c : Cliente} (f' : Fase)
      → ((j : ℕ) → j ≢ i → EsCliente tamanio ninguna m sh (clientes j))
      → EsCliente tamanio f' m' sh' c
      → (j : ℕ) → EsCliente tamanio (fase_de (en_cliente i f') j) m' sh' (update clientes i c j)
  update-EsCliente {c} f' others v j = elim (Bool-cases (i == j)) [
    | inl same ↦ rw same v
    | inr other ↦
        rw other (ninguna_lem tamanio m sh (clientes j) m' sh' (others j (λ e. ground arith)))
  ]

sin_token : (i j : ℕ) (f : Fase) → j ≢ i → fase_de (en_cliente i f) j ≡ ninguna
sin_token i j f ne = elim (Bool-cases (i == j)) [
  | inl same ↦ absurd (ne (ground arith))
  | inr other ↦ rw other
]

pub otros :
    (tamanio : ℕ) (m sh : List ℕ) (clientes : ℕ → Cliente) (i : ℕ) (l : Lugar) (f : Fase)
    → l ≡ en_cliente i f
    → ((j : ℕ) → EsCliente tamanio (fase_de l j) m sh (clientes j))
    → (j : ℕ) → j ≢ i
    → EsCliente tamanio ninguna m sh (clientes j)
otros tamanio m sh clientes i l f e v j ne =
    subst (λ g. EsCliente tamanio g m sh (clientes j))
      (ap (λ l. fase_de l j) e ∙ sin_token i j f ne) (v j)
