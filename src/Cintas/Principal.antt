-- ===== src/Cintas/Principal.antt =====
-- The central belt: class `CintaPrincipal` of api/cintaprincipal.h. A piece at its head is read by
-- one consumer after the other; each passes the turn on (`avanzar_cinta`) or takes the piece out
-- (`extraer_elemento`). The one turn of the consumers stands in `semaforo_consumidores`; consumer
-- `id_consumidor` waits on semaphore `id_consumidor - 1`.
pub mod Invariante
pub mod Turno
pub mod Pasadas
pub mod Entregas
pub mod Paseos
mod Tests
use aeropuerto.Base.{
  ℕ, ◌+◌, ◌-◌, ◌%◌, List, ◌∷◌, Bool, Option, none, some, ltb, ◌==◌, if◌then◌else◌, get_or, set,
  wait_on, signalize, replicate,
}
use aeropuerto.Cintas.Lado.{Lado, inicial, esperar_turno, dar_turno, dormir, despertar}

pub record CintaPrincipal {ℓ} (T : Type ℓ) : Type ℓ where
  pub tamanio_vector : ℕ
  pub posicion_libre : ℕ
  pub posicion_ocupada : ℕ
  pub cantidad_elementos : ℕ
  pub productores : Lado
  pub cantidad_consumidores : ℕ
  pub consumidor_esperando : ℕ
  pub semaforo_consumidores : List ℕ
  pub vector_elementos : List T

module _ {ℓ} {T : Type ℓ} where
  -- An empty belt of the memory that cinta_principal.init describes, with `otros + 1` consumers. The
  -- list of groups gives a token to the semaphore of the first consumer alone.
  abbrev pub cinta_inicial : (capacidad productores otros : ℕ) (nulo : T) → CintaPrincipal T
  cinta_inicial capacidad productores otros nulo = record {
    tamanio_vector = capacidad;
    posicion_libre = 0;
    posicion_ocupada = 0;
    cantidad_elementos = 0;
    productores = inicial productores;
    cantidad_consumidores = otros + 1;
    consumidor_esperando = 0;
    semaforo_consumidores = 1 ∷ replicate otros 0;
    vector_elementos = replicate capacidad nulo;
  }

  unfoldable pub signalize_consumidor : ℕ → CintaPrincipal T → CintaPrincipal T
  signalize_consumidor i c = record c {
    semaforo_consumidores = signalize c.semaforo_consumidores i;
  }

  -- The branch of `colocar_elemento` that finds room.
  unfoldable pub colocar : T → CintaPrincipal T → CintaPrincipal T
  colocar elemento c =
      let c' : CintaPrincipal T = record c {
        vector_elementos = set c.vector_elementos c.posicion_libre elemento;
        posicion_libre = (c.posicion_libre + 1) % c.tamanio_vector;
        cantidad_elementos = c.cantidad_elementos + 1;
      } in
      if c'.cantidad_elementos == 1
      then (if ltb 0 c.consumidor_esperando
          then signalize_consumidor 0 (record c' { consumidor_esperando = 0 })
          else c')
      else c'

  -- The end of its pass.
  unfoldable pub ceder_productor : ℕ → CintaPrincipal T → CintaPrincipal T
  ceder_productor i c =
      if c.cantidad_elementos == c.tamanio_vector
      then record c { productores = dormir i c.productores }
      else record c { productores = dar_turno i c.productores }

  -- What producer `i` does under the lock; the result is `coloque`.
  unfoldable pub colocar_con_lock : T → ℕ → CintaPrincipal T → CintaPrincipal T × Bool
  colocar_con_lock elemento i c =
      let coloque = ltb c.cantidad_elementos c.tamanio_vector in
      (ceder_productor i (if coloque then colocar elemento c else c), coloque)

  -- One pass of the loop of `colocar_elemento`; `none` if it waits for its semaphore.
  unfoldable pub colocar_elemento :
      T → (id_productor : ℕ) → CintaPrincipal T → Option (CintaPrincipal T × Bool)
  colocar_elemento elemento id_productor c = elim (esperar_turno (id_productor - 1) c.productores) [
    | none ↦ none
    | some turno ↦
        some (colocar_con_lock elemento (id_productor - 1) (record c { productores = turno }))
  ]

  -- The turn goes to the next consumer, and from the last back to the first.
  unfoldable pub avanzar_cinta : (id_consumidor : ℕ) → CintaPrincipal T → CintaPrincipal T
  avanzar_cinta id_consumidor c =
      if ltb id_consumidor c.cantidad_consumidores
      then signalize_consumidor id_consumidor c
      else signalize_consumidor 0 c

  -- The first half of `extraer_elemento`: the piece at the head goes, and a belt that was full wakes
  -- its producers.
  unfoldable pub quitar : CintaPrincipal T → CintaPrincipal T
  quitar c =
      let c' : CintaPrincipal T = record c {
        posicion_ocupada = (c.posicion_ocupada + 1) % c.tamanio_vector;
        cantidad_elementos = c.cantidad_elementos - 1;
      } in
      if c'.cantidad_elementos == c.tamanio_vector - 1
      then record c' { productores = despertar c'.productores }
      else c'

  -- Its end.
  unfoldable pub ceder_turno : CintaPrincipal T → CintaPrincipal T
  ceder_turno c =
      if c.cantidad_elementos == 0
      then record c { consumidor_esperando = 1 }
      else signalize_consumidor 0 c

  unfoldable pub extraer_elemento : CintaPrincipal T → CintaPrincipal T
  extraer_elemento c = ceder_turno (quitar c)

  module _ (nulo : T) where
    -- What a consumer does under the lock; a piece that is read stays on the belt.
    unfoldable pub leer_con_lock : CintaPrincipal T → CintaPrincipal T × Option T
    leer_con_lock c = (
      (if c.cantidad_elementos == 0 then record c { consumidor_esperando = 1 } else c),
      (if ltb 0 c.cantidad_elementos
          then some (get_or c.vector_elementos c.posicion_ocupada nulo)
          else none),
    )

    -- One pass of the loop of `leer_elemento`.
    unfoldable pub leer_elemento :
        (id_consumidor : ℕ) → CintaPrincipal T → Option (CintaPrincipal T × Option T)
    leer_elemento id_consumidor c = elim (wait_on c.semaforo_consumidores (id_consumidor - 1)) [
      | none ↦ none
      | some semaforo ↦ some (leer_con_lock (record c { semaforo_consumidores = semaforo }))
    ]
