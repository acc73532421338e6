-- ===== src/Registracion.antt =====
-- How a client joins a resource: `registrar` and `join` of class `LocalBrokerComm`
-- (clientes/local_broker_comm.cpp), `procesar_peticion` and `join_group` of class `ClientHandler`
-- (local_broker/client_handler.cpp).
pub mod Union
mod Tests
use aeropuerto.Base.{
  ℕ, zero, suc, ◌+◌, List, [], ◌∷◌, ◌++◌, Bool, true, false, Option, none, some, ◌>>=◌,
  if◌then◌else◌, ◌==◌, take,
}
use aeropuerto.Grupo.{
  Grupo, Nombre, TraspasoToken, max_nombre_recurso, Resultado, registrado,
  cantidad_maxima_alcanzada, ya_esta_registrado,
}
use aeropuerto.Grupo.{join as unir}
use aeropuerto.Init.{es_cifra, valor_desde}
use aeropuerto.Init.Decimal.{decimal}
use aeropuerto.Transferencia.{
  Peticion, register, join, join_fork, leave, data_size, cantidad_de_bloques,
}
use aeropuerto.AnilloDeBrokers.Textos.{c_str}

pub data Respuesta : Type 0 where
  ok : Respuesta
  error : Respuesta
  leave_ok : Respuesta
  r_token : Respuesta
  r_token_check : Respuesta

-- `mensajes_local_broker_t`.
pub record Mensaje : Type 0 where
  pub peticion : Peticion
  pub respuesta : Respuesta
  pub datos : List ℕ

-- The table of the group stands for the object that `join_group` makes: the constructor waits until the
-- group exists.
pub record Handler : Type 0 where
  pub nombre_cliente : Nombre
  pub nombre_grupo : Nombre
  pub tipo_join : Peticion
  pub cantidad_de_bloques_a_enviar : ℕ
  pub tamanio_memoria : ℕ
  pub cola_token_manager : List TraspasoToken
  pub grupo : Grupo

unfoldable pub avisar_creacion_grupo : Handler → Handler
avisar_creacion_grupo h = record h {
  cola_token_manager = h.cola_token_manager ++ record { mtype = 1; tipo = 3 } ∷ [];
}

-- How a call of the handler ends. It `espera` for the semaphore of the group; it `lanza` an error that
-- `run` does not catch, so that it gets to `main` and the process of the handler ends with the state as
-- it is then and nothing sent; or it `devuelve`.
pub data Final {ℓ} (A : Type ℓ) : Type ℓ where
  espera : Final A
  lanza : Handler → Final A
  devuelve : A → Final A

abbrev pub y_despues {ℓ κ} : {A : Type ℓ} {B : Type κ} → Final A → (A → Final B) → Final B
y_despues espera f = espera
y_despues (lanza h) f = lanza h
y_despues (devuelve a) f = f a

-- The rest of `join_group` once `join` of the group has ended: both errors that it throws pass through.
abbrev pub tras_join : Resultado → Handler → Final Handler
tras_join registrado h = devuelve (record h {
  cantidad_de_bloques_a_enviar = cantidad_de_bloques h.grupo.mem_size;
  tamanio_memoria = h.grupo.mem_size;
})
tras_join cantidad_maxima_alcanzada h = lanza h
tras_join ya_esta_registrado h = lanza h

unfoldable pub join_group : Nombre → Handler → Final Handler
join_group nombre_grupo h = elim (unir h.nombre_cliente h.grupo) [
  | none ↦ espera
  | some (g, r) ↦
      tras_join r (record (avisar_creacion_grupo h) { nombre_grupo = nombre_grupo; grupo = g })
]

-- `snprintf(datos, DATA_SIZE, "%lu:%lu", a, b)`; `resto` is what stays in the array behind it.
abbrev pub dos_numeros : (a b : ℕ) (resto : List ℕ) → List ℕ
dos_numeros a b resto = decimal a ++ (58 ∷ (decimal b ++ (0 ∷ resto)))

-- The case of `procesar_peticion` that JOIN and JOIN_FORK share.
unfoldable pub responder_join : Peticion → Mensaje → Handler → Final (Handler × Mensaje)
responder_join peticion m h = y_despues (join_group (c_str m.datos) h) (λ q. devuelve (
  record q { tipo_join = peticion },
  record m {
    datos = dos_numeros q.cantidad_de_bloques_a_enviar q.tamanio_memoria m.datos;
    respuesta = ok;
  },
))

-- `procesar_peticion`: the new state and the message that it sends back. It does not set `respuesta` of
-- a registration.
unfoldable pub procesar_peticion : Peticion → Mensaje → Handler → Final (Handler × Mensaje)
procesar_peticion register m h = devuelve (record h { nombre_cliente = c_str m.datos }, m)
procesar_peticion join m h = responder_join join m h
procesar_peticion join_fork m h = responder_join join_fork m h
procesar_peticion leave m h = devuelve (h, record m { respuesta = ok })
procesar_peticion peticion m h = devuelve (h, m)

-- The rest of a text behind the digits at its front.
abbrev pub tras_cifras : List ℕ → List ℕ
tras_cifras [] = []
tras_cifras (c ∷ cs) = let rest = tras_cifras cs in if es_cifra c then rest else c ∷ cs

-- The second number of `sscanf(datos, "%lu:%lu", &a, &b)`; without a colon it stays.
abbrev pub segundo_numero : (anterior : ℕ) → List ℕ → ℕ
segundo_numero anterior [] = anterior
segundo_numero anterior (c ∷ cs) = if c == 58 then valor_desde 0 cs else anterior

abbrev pub sscanf_dos_numeros : (anterior : ℕ) → List ℕ → ℕ × ℕ
sscanf_dos_numeros anterior datos =
    (valor_desde 0 datos, segundo_numero anterior (tras_cifras datos))

abbrev pub es_error : Respuesta → Bool
es_error error = true
es_error respuesta = false

-- The part of `LocalBrokerComm` that a connection sets.
pub record Comm : Type 0 where
  pub cantidad_de_bloques : ℕ
  pub tamanio_memoria : ℕ

-- `basura` is what the client's message has in `respuesta`, which it does not set either. The `Bool` is
-- whether the client throws an error.
unfoldable pub registrar :
    (basura : Respuesta) (nombre_aplicacion : Nombre) → Handler → Final (Handler × Bool)
registrar basura nombre_aplicacion h =
    y_despues
      (procesar_peticion register
        (record { peticion = register; respuesta = basura; datos = nombre_aplicacion ++ 0 ∷ [] }) h)
      (λ r. devuelve (r.0, es_error r.1.respuesta))

-- What the client takes from the answer; `none` is the error that it throws.
abbrev pub leer_respuesta : (anterior : ℕ) → Mensaje → Option Comm
leer_respuesta anterior m =
    if es_error m.respuesta
    then none
    else let (a, b) = sscanf_dos_numeros anterior m.datos in
      some (record { cantidad_de_bloques = a; tamanio_memoria = b })

-- The client's message with the name of the resource.
abbrev pub pedido : (basura : Respuesta) → Peticion → (nombre_grupo : Nombre) → Mensaje
pedido basura peticion nombre_grupo = record {
  peticion = peticion;
  respuesta = basura;
  datos = take max_nombre_recurso (nombre_grupo ++ 0 ∷ []);
}

-- `compartida` is whether the resource has a memory. `anterior` is the size before. If the handler ends
-- without an answer, what the client does at the closed connection is not modelled.
unfoldable pub unirse :
    (basura : Respuesta) (compartida : Bool) (anterior : ℕ) (nombre_grupo : Nombre)
    → Handler
    → Final (Handler × Option Comm)
unirse basura compartida anterior nombre_grupo h =
    let peticion = if compartida then join else join_fork in
    y_despues (procesar_peticion peticion (pedido basura peticion nombre_grupo) h)
      (λ r. devuelve (r.0, leer_respuesta anterior r.1))
