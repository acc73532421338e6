-- ===== src/Grupo.antt =====
-- A group of the local broker: class `Grupo` of local_broker/grupo.cpp, the table of the clients of a
-- shared resource and the token that goes round among them. The table lies in shared memory and is
-- guarded by one semaphore of a set, `mutex_asignado`; an operation that must wait for it is `none`.
pub mod Clientes
pub mod Turno
pub mod Token
pub mod Registro
pub mod Equidad
pub mod Bajas
mod Tests
use aeropuerto.Base.{
  ℕ, zero, suc, ◌+◌, ◌-◌, ◌%◌, List, [], ◌∷◌, ◌++◌, Bool, true, false, not, Option, none, some,
  ◌==◌, if◌then◌else◌, get_or, set, take,
}

abbrev pub max_clients : ℕ
max_clients = 50

abbrev pub max_nombre_recurso : ℕ
max_nombre_recurso = 64

-- A C string is the list of its characters before the first '\0'.
abbrev pub Nombre : Type 0
Nombre = List ℕ

-- `strncmp(a, b, n) == 0`.
abbrev pub strncmp_igual : ℕ → Nombre → Nombre → Bool
strncmp_igual zero a b = true
strncmp_igual (suc n) [] [] = true
strncmp_igual (suc n) [] (y ∷ ys) = false
strncmp_igual (suc n) (x ∷ xs) [] = false
strncmp_igual (suc n) (x ∷ xs) (y ∷ ys) =
    let rest = strncmp_igual n xs ys in if x == y then rest else false

-- `*s != '\0'`.
abbrev pub no_vacio : Nombre → Bool
no_vacio [] = false
no_vacio (x ∷ xs) = true

-- The index at which a loop over the array breaks.
abbrev pub primero : (Nombre → Bool) → List Nombre → Option ℕ
primero p [] = none
primero p (x ∷ xs) =
    let rest = primero p xs in
    if p x then some 0 else elim rest [ none ↦ none | some i ↦ some (suc i) ]

-- "localbroker".
abbrev pub localbroker : Nombre
localbroker = 108 ∷ 111 ∷ 99 ∷ 97 ∷ 108 ∷ 98 ∷ 114 ∷ 111 ∷ 107 ∷ 101 ∷ 114 ∷ []

-- `traspaso_token_t` without the name of the resource, which the operations on the table leave alone.
pub record TraspasoToken : Type 0 where
  pub mtype : ℕ
  pub tipo : ℕ

-- The table in shared memory, the count of its semaphore, the queue of the tokens, and the members
-- that each object has for itself.
pub record Grupo : Type 0 where
  pub cant_clientes : ℕ
  pub mem_size : ℕ
  pub client_names : List Nombre
  pub tengo_token_grupo : ℕ
  pub tengo_token_cliente : ℕ
  pub token_enviado : ℕ
  pub avisar_envio : ℕ
  pub mutex : ℕ
  pub cola : List TraspasoToken
  pub numero_base_cola_asignada : ℕ
  pub numero_cola_asignada : ℕ
  pub cliente_actual : ℕ

pub data Resultado : Type 0 where
  registrado : Resultado
  cantidad_maxima_alcanzada : Resultado
  ya_esta_registrado : Resultado

-- `semaforos.wait_on(mutex_asignado)`.
unfoldable pub wait_on_mutex : Grupo → Option Grupo
wait_on_mutex g = if g.mutex == 0 then none else some (record g { mutex = g.mutex - 1 })

-- `semaforos.signalize(mutex_asignado)`.
unfoldable pub signalize_mutex : Grupo → Grupo
signalize_mutex g = record g { mutex = g.mutex + 1 }

-- An operation that holds the mutex from its first line to its last.
unfoldable pub con_mutex : {A : Type 0} → (Grupo → Grupo × A) → Grupo → Option (Grupo × A)
con_mutex f g = elim (wait_on_mutex g) [
  | none ↦ none
  | some g ↦ let r = f g in some (signalize_mutex r.0, r.1)
]

-- Where it finds the client it gives the mutex back, though the callers do that too.
unfoldable pub locked_ya_esta_cliente : Nombre → Grupo → Grupo × Bool
locked_ya_esta_cliente nombre g =
    elim (primero (λ n. strncmp_igual max_nombre_recurso n nombre) g.client_names) [
      | none ↦ (g, false)
      | some i ↦ (signalize_mutex g, true)
    ]

unfoldable pub ya_esta_cliente : Nombre → Grupo → Option (Grupo × Bool)
ya_esta_cliente nombre = con_mutex (locked_ya_esta_cliente nombre)

-- The last loop of `join`, and its break.
unfoldable pub anotar : Nombre → Grupo → Grupo
anotar nombre g = elim (primero (λ n. not (no_vacio n)) g.client_names) [
  | none ↦ g
  | some i ↦ record g {
    client_names = set g.client_names i (take max_nombre_recurso nombre);
    cant_clientes = g.cant_clientes + 1;
    numero_cola_asignada = i + g.numero_base_cola_asignada;
  }
]

-- The two early ends of `join` are the two errors that it throws.
unfoldable pub locked_join : Nombre → Grupo → Grupo × Resultado
locked_join nombre g =
    if g.cant_clientes == max_clients
    then (g, cantidad_maxima_alcanzada)
    else (let (g', esta) = locked_ya_esta_cliente nombre g in
        if esta then (g', ya_esta_registrado) else (anotar nombre g', registrado))

unfoldable pub join : Nombre → Grupo → Option (Grupo × Resultado)
join nombre = con_mutex (locked_join nombre)

unfoldable pub locked_leave : Nombre → Grupo → Grupo × Unit {0}
locked_leave nombre g =
    elim (primero (λ n. strncmp_igual max_nombre_recurso n nombre) g.client_names) [
      | none ↦ (g, tt)
      | some i ↦ (
        record g { client_names = set g.client_names i []; cant_clientes = g.cant_clientes - 1 },
        tt,
      )
    ]

unfoldable pub leave : Nombre → Grupo → Option (Grupo × Unit {0})
leave nombre = con_mutex (locked_leave nombre)

-- The loop `do ... while (cliente_actual != i)` with its break; its value is `cliente_actual` at the
-- end. It makes fewer than `max_clients` rounds.
unfoldable pub buscar_proximo : (rounds i cliente_actual : ℕ) → List Nombre → ℕ
buscar_proximo zero i actual names = actual
buscar_proximo (suc rounds) i actual names =
    let i' = (i + 1) % max_clients in
    let rest = buscar_proximo rounds i' actual names in
    if no_vacio (get_or names i []) then i else if actual == i' then actual else rest

abbrev pub proximo : Grupo → ℕ
proximo g =
    buscar_proximo max_clients ((g.cliente_actual + 1) % max_clients) g.cliente_actual
      g.client_names

unfoldable pub locked_proximo_cliente : Grupo → Grupo × ℕ
locked_proximo_cliente g =
    if g.cant_clientes == 0 then (g, 0) else (record g { cliente_actual = proximo g }, proximo g)

unfoldable pub obtener_proximo_cliente : Grupo → Option (Grupo × ℕ)
obtener_proximo_cliente = con_mutex locked_proximo_cliente

-- The client that gets the token, and the flags: a token for the local broker is one to be sent.
unfoldable pub entregar_token : (cliente : ℕ) → Grupo → Grupo
entregar_token cliente g =
    let es_broker = strncmp_igual 11 (get_or g.client_names cliente []) localbroker in
    record g {
      cliente_actual = cliente;
      tengo_token_grupo = (if es_broker then 0 else 1);
      token_enviado = (if es_broker then 0 else g.token_enviado);
      tengo_token_cliente = cliente;
      cola = g.cola ++ record { mtype = cliente + g.numero_base_cola_asignada; tipo = 1 } ∷ [];
    }

unfoldable pub locked_pasar_token : Grupo → Grupo × Unit {0}
locked_pasar_token g = (entregar_token (if g.cant_clientes == 0 then 0 else proximo g) g, tt)

unfoldable pub pasar_token_a_proximo_cliente : Grupo → Option (Grupo × Unit {0})
pasar_token_a_proximo_cliente = con_mutex locked_pasar_token
