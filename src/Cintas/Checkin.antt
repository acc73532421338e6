-- ===== src/Cintas/Checkin.antt =====
-- The check-in belt: class `Cinta` of api/cinta.h. Its members are the shared memory and the two
-- sets of semaphores. `memoria_compartida->lock()` and `unlock()` enclose a pass of the loops, so a
-- pass is one step of the model; `wait_on` before the lock decides whether the pass begins.
pub mod Invariante
pub mod Pasadas
pub mod Traza
pub mod Avance
mod Tests
use aeropuerto.Base.{
  ℕ, ◌+◌, ◌-◌, ◌%◌, List, Bool, Option, none, some, ltb, ◌==◌, if◌then◌else◌, get_or, set,
  replicate,
}
use aeropuerto.Cintas.Lado.{Lado, inicial, esperar_turno, dar_turno, dormir, despertar}

pub record Cinta {ℓ} (T : Type ℓ) : Type ℓ where
  pub tamanio_vector : ℕ
  pub posicion_libre : ℕ
  pub posicion_ocupada : ℕ
  pub cantidad_elementos : ℕ
  pub productores : Lado
  pub consumidores : Lado
  pub vector_elementos : List T

module _ {ℓ} {T : Type ℓ} where
  -- An empty belt of the memory that the file cinta_checkin.init describes.
  abbrev pub cinta_inicial : (capacidad productores consumidores : ℕ) (nulo : T) → Cinta T
  cinta_inicial capacidad productores consumidores nulo = record {
    tamanio_vector = capacidad;
    posicion_libre = 0;
    posicion_ocupada = 0;
    cantidad_elementos = 0;
    productores = inicial productores;
    consumidores = inicial consumidores;
    vector_elementos = replicate capacidad nulo;
  }

  unfoldable pub despertar_consumidores : Cinta T → Cinta T
  despertar_consumidores c = record c { consumidores = despertar c.consumidores }

  unfoldable pub despertar_productores : Cinta T → Cinta T
  despertar_productores c = record c { productores = despertar c.productores }

  -- The branch of `poner_equipaje` that finds room.
  unfoldable pub colocar : T → Cinta T → Cinta T
  colocar elemento c =
      let c' : Cinta T = record c {
        vector_elementos = set c.vector_elementos c.posicion_libre elemento;
        posicion_libre = (c.posicion_libre + 1) % c.tamanio_vector;
        cantidad_elementos = c.cantidad_elementos + 1;
      } in
      if c'.cantidad_elementos == 1 then despertar_consumidores c' else c'

  -- The end of a pass: a full belt puts the producer to sleep, else he gives his turn back.
  unfoldable pub ceder_productor : ℕ → Cinta T → Cinta T
  ceder_productor i c =
      if c.cantidad_elementos == c.tamanio_vector
      then record c { productores = dormir i c.productores }
      else record c { productores = dar_turno i c.productores }

  -- What producer `i` does under the lock; the result is `coloque`.
  unfoldable pub poner_con_lock : T → ℕ → Cinta T → Cinta T × Bool
  poner_con_lock elemento i c =
      let coloque = ltb c.cantidad_elementos c.tamanio_vector in
      (ceder_productor i (if coloque then colocar elemento c else c), coloque)

  -- One pass of the loop of `poner_equipaje`; `none` if it waits for its semaphore.
  unfoldable pub poner_equipaje : T → (id_productor : ℕ) → Cinta T → Option (Cinta T × Bool)
  poner_equipaje elemento id_productor c = elim (esperar_turno (id_productor - 1) c.productores) [
    | none ↦ none
    | some turno ↦
        some (poner_con_lock elemento (id_productor - 1) (record c { productores = turno }))
  ]

  -- The branch of `sacar_equipaje` that finds a piece.
  unfoldable pub quitar : Cinta T → Cinta T
  quitar c =
      let c' : Cinta T = record c {
        posicion_ocupada = (c.posicion_ocupada + 1) % c.tamanio_vector;
        cantidad_elementos = c.cantidad_elementos - 1;
      } in
      if c'.cantidad_elementos == c.tamanio_vector - 1 then despertar_productores c' else c'

  -- The end of its pass: an empty belt puts the consumer to sleep, else he gives his turn back.
  unfoldable pub ceder_consumidor : ℕ → Cinta T → Cinta T
  ceder_consumidor i c =
      if c.cantidad_elementos == 0
      then record c { consumidores = dormir i c.consumidores }
      else record c { consumidores = dar_turno i c.consumidores }

  module _ (nulo : T) where
    -- What consumer `i` does under the lock; `some` is a piece, with `extrajo`. `nulo` is the
    -- default `T elemento`; a read inside the vector never gives it.
    unfoldable pub sacar_con_lock : ℕ → Cinta T → Cinta T × Option T
    sacar_con_lock i c =
        if ltb 0 c.cantidad_elementos
        then (
          ceder_consumidor i (quitar c),
          some (get_or c.vector_elementos c.posicion_ocupada nulo),
        )
        else (ceder_consumidor i c, none)

    -- One pass of the loop of `sacar_equipaje`.
    unfoldable pub sacar_equipaje : Cinta T → Option (Cinta T × Option T)
    sacar_equipaje c = elim (esperar_turno 0 c.consumidores) [
      | none ↦ none
      | some turno ↦ some (sacar_con_lock 0 (record c { consumidores = turno }))
    ]
