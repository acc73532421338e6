-- ===== src/Cintas/Escaner.antt =====
-- The belts of the scanners: class `CintaScanner` of api/cintascanner.h. One producer, the check-in
-- robot, deals the pieces out to the belts of up to four scanners, in turn. The producer takes the lock
-- of the control memory to choose a belt and afterwards the lock of that belt, so a pass of his is two
-- steps, `elegir_cinta` and `colocar`, and scanners may take pieces between them.
pub mod Invariante
pub mod Reparto
pub mod Retiro
pub mod Alta
pub mod Eleccion
pub mod Apagada
pub mod Servicio
mod Tests
use aeropuerto.Base.{
  ℕ, zero, suc, ◌+◌, ◌-◌, ◌%◌, List, Bool, true, false, Option, none, some, ltb, ◌==◌,
  if◌then◌else◌, get_or, set,
}

abbrev pub max_scanners : ℕ
max_scanners = 4

-- `control_cinta_llena`: -1, 0 or 1.
pub data EstadoCinta : Type 0 where
  inactiva : EstadoCinta
  con_lugar : EstadoCinta
  llena : EstadoCinta

abbrev pub es_con_lugar : EstadoCinta → Bool
es_con_lugar inactiva = false
es_con_lugar con_lugar = true
es_con_lugar llena = false

abbrev pub es_llena : EstadoCinta → Bool
es_llena inactiva = false
es_llena con_lugar = false
es_llena llena = true

-- The memory of one belt, and the count of its scanner's semaphore.
pub record CintaEscaner {ℓ} (T : Type ℓ) : Type ℓ where
  pub tamanio_vector : ℕ
  pub posicion_libre : ℕ
  pub posicion_ocupada : ℕ
  pub cantidad_elementos : ℕ
  pub consumidor_esperando : ℕ
  pub semaforo : ℕ
  pub vector_elementos : List T

-- The belts by their index, the control memory, the count of the producer's semaphore, and the
-- producer's own `proxima_cinta_a_colocar`; `eligio` says that he stands between his two steps.
pub record CintaScanner {ℓ} (T : Type ℓ) : Type ℓ where
  pub cintas : ℕ → CintaEscaner T
  pub cinta_llena : ℕ → EstadoCinta
  pub productor_esperando : ℕ
  pub semaforo_productor : ℕ
  pub proxima_cinta_a_colocar : ℕ
  pub eligio : Bool

-- An array with one entry changed.
abbrev pub en {ℓ} : {A : Type ℓ} → (ℕ → A) → ℕ → A → ℕ → A
en f i v j = if j == i then v else f j

-- The loop of the search: the belt that it ends at, and whether that has room. `rounds` counts
-- `cantidad_cintas_llenas` down from `MAX_SCANNERS`.
unfoldable pub buscar_cinta : (rounds proxima : ℕ) → (ℕ → EstadoCinta) → ℕ × Bool
buscar_cinta zero proxima estados = (proxima, false)
buscar_cinta (suc rounds) proxima estados =
    let rest = buscar_cinta rounds ((proxima + 1) % max_scanners) estados in
    if es_con_lugar (estados proxima) then (proxima, true) else rest

module _ {ℓ} {T : Type ℓ} where
  -- The first step of a pass of `poner_equipaje`; `none` if the producer waits.
  unfoldable pub elegir_con_lock : CintaScanner T → CintaScanner T
  elegir_con_lock s =
      let r = buscar_cinta max_scanners s.proxima_cinta_a_colocar s.cinta_llena in
      record s {
        proxima_cinta_a_colocar = r.0;
        eligio = r.1;
        productor_esperando = (if r.1 then s.productor_esperando else 1);
      }

  unfoldable pub elegir_cinta : CintaScanner T → Option (CintaScanner T)
  elegir_cinta s =
      if s.semaforo_productor == 0
      then none
      else some (elegir_con_lock (record s { semaforo_productor = s.semaforo_productor - 1 }))

  -- A piece on one belt; its scanner is woken if the belt was empty and he sleeps.
  unfoldable pub agregar : T → CintaEscaner T → CintaEscaner T
  agregar equipaje c =
      let c' : CintaEscaner T = record c {
        vector_elementos = set c.vector_elementos c.posicion_libre equipaje;
        posicion_libre = (c.posicion_libre + 1) % c.tamanio_vector;
        cantidad_elementos = c.cantidad_elementos + 1;
      } in
      if c'.cantidad_elementos == 1
      then (if c.consumidor_esperando == 1
          then record c' { semaforo = c.semaforo + 1; consumidor_esperando = 0 }
          else c')
      else c'

  -- The second step of a pass of `poner_equipaje`.
  unfoldable pub colocar : T → CintaScanner T → CintaScanner T
  colocar equipaje s =
      let p = s.proxima_cinta_a_colocar in
      let c = agregar equipaje (s.cintas p) in
      record s {
        cintas = en s.cintas p c;
        cinta_llena =
            (if c.cantidad_elementos == c.tamanio_vector
              then en s.cinta_llena p llena
              else s.cinta_llena);
        proxima_cinta_a_colocar = (p + 1) % max_scanners;
        semaforo_productor = s.semaforo_productor + 1;
        eligio = false;
      }

  -- The control memory once a belt that was full has room: the producer is woken if he sleeps.
  unfoldable pub liberar : ℕ → CintaScanner T → CintaScanner T
  liberar n s =
      if es_llena (s.cinta_llena n)
      then (let s' : CintaScanner T = record s { cinta_llena = en s.cinta_llena n con_lugar } in
          if s.productor_esperando == 1
          then record s' { productor_esperando = 0; semaforo_productor = s.semaforo_productor + 1 }
          else s')
      else s

  -- The oldest piece of one belt goes.
  unfoldable pub quitar : CintaEscaner T → CintaEscaner T
  quitar c = record c {
    posicion_ocupada = (c.posicion_ocupada + 1) % c.tamanio_vector;
    cantidad_elementos = c.cantidad_elementos - 1;
  }

  -- The end of a scanner's pass.
  unfoldable pub ceder : CintaEscaner T → CintaEscaner T
  ceder c =
      if c.cantidad_elementos == 0
      then record c { consumidor_esperando = 1 }
      else record c { semaforo = c.semaforo + 1 }

  module _ (nulo : T) where
    -- What scanner `n` does under the lock of his belt `c`.
    unfoldable pub sacar_con_lock : ℕ → CintaEscaner T → CintaScanner T → CintaScanner T × Option T
    sacar_con_lock n c s =
        if ltb 0 c.cantidad_elementos
        then (
          (let s' : CintaScanner T = record s { cintas = en s.cintas n (ceder (quitar c)) } in
              if c.cantidad_elementos - 1 == c.tamanio_vector - 1 then liberar n s' else s'),
          some (get_or c.vector_elementos c.posicion_ocupada nulo),
        )
        else (record s { cintas = en s.cintas n (ceder c) }, none)

    -- One pass of the loop of `sacar_equipaje` by scanner `n`; `none` if he waits.
    unfoldable pub sacar_equipaje : ℕ → CintaScanner T → Option (CintaScanner T × Option T)
    sacar_equipaje n s =
        let c = s.cintas n in
        if c.semaforo == 0
        then none
        else some (sacar_con_lock n (record c { semaforo = c.semaforo - 1 }) s)
