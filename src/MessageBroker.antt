-- ===== src/MessageBroker.antt =====
-- The table of the queues of the message broker: class `MessageBroker` of
-- local_broker/message_broker.cpp. Whoever reads and writes the table in one operation holds its
-- semaphore from the first line to the last.
pub mod Tabla
pub mod Pisada
pub mod Registro
mod Tests
use aeropuerto.Base.{
  ℕ, zero, suc, ◌+◌, ◌*◌, drop, ◌∷◌, List, [], Bool, true, false, not, ◌&&◌, Option, none, some,
  if◌then◌else◌, ◌==◌, ltb, set, length, replicate,
}
use aeropuerto.Grupo.{Nombre, no_vacio, primero}

-- `MessageBrokerData`: the identifier of the queue that each number stands for, or "".
abbrev pub max_colas : ℕ
max_colas = 255

abbrev pub max_queue_id : ℕ
max_queue_id = 255

abbrev pub Colas : Type 0
Colas = List Nombre

-- The first constructor.
abbrev pub colas_inicial : Colas
colas_inicial = replicate max_colas []

-- `strcmp(a, b) == 0`.
abbrev pub strcmp_igual : Nombre → Nombre → Bool
strcmp_igual [] [] = true
strcmp_igual [] (y ∷ ys) = false
strcmp_igual (x ∷ xs) [] = false
strcmp_igual (x ∷ xs) (y ∷ ys) = let rest = strcmp_igual xs ys in if x == y then rest else false

-- `pisa` is an identifier that runs over the entries behind its own, and the table as these entries read
-- right afterwards, each up to the one 0 behind the identifier. They are one text in memory from then
-- on, so later operations are not those below. `desborda` is an access outside the table.
pub data Resultado : Type 0 where
  ok : Colas → (proj_id : ℕ) → Resultado
  pisa : Colas → (proj_id : ℕ) → Resultado
  lanza : Colas → Resultado
  desborda : Resultado

-- A number of a queue is a `char`, so from 128 on it is negative where it is an index.
abbrev pub es_indice : ℕ → Bool
es_indice proj_id = ltb proj_id 128

-- What the entries read as once `strcpy` has written the identifier and a 0 behind it from entry `pos`
-- on: as long as the 0 is not in an entry, the text goes on in the next.
abbrev pub pisar : (pos : ℕ) → Nombre → Colas → Colas
pisar zero queue_id [] = []
pisar zero queue_id (x ∷ xs) =
    let rest = pisar zero (drop 255 queue_id) xs in
    queue_id ∷ (if ltb (length queue_id) 255 then xs else rest)
pisar (suc pos) queue_id [] = []
pisar (suc pos) queue_id (x ∷ xs) = x ∷ pisar pos queue_id xs

unfoldable pub allocate_queue_id : Nombre → Colas → Resultado
allocate_queue_id queue_id t = elim (primero (λ n. not (no_vacio n)) t) [
  | none ↦ lanza t
  | some pos ↦
      if es_indice pos
      then (if ltb (length queue_id) max_queue_id
          then ok (set t pos queue_id) pos
          else if ltb (pos * max_queue_id + length queue_id) (max_colas * max_queue_id)
          then pisa (pisar pos queue_id t) pos
          else desborda)
      else desborda
]

-- 255 is `(char)-1`.
unfoldable pub get_proj_id : Nombre → Colas → ℕ
get_proj_id queue_id t = elim (primero (λ n. strcmp_igual n queue_id) t) [
  | none ↦ 255
  | some pos ↦ pos
]

unfoldable pub exist_queue : Nombre → Colas → Bool
exist_queue queue_id t = elim (primero (λ n. strcmp_igual n queue_id) t) [
  | none ↦ false
  | some pos ↦ true
]

unfoldable pub deallocate_queue_id : Nombre → Colas → Resultado
deallocate_queue_id queue_id t =
    let pos = get_proj_id queue_id t in if es_indice pos then ok (set t pos []) pos else desborda

-- `crea` says for which numbers the system makes a queue.
unfoldable pub create_queue : (crea : ℕ → Bool) → Nombre → Colas → Resultado
create_queue crea queue_id t = elim (allocate_queue_id queue_id t) [
  | ok t' proj_id ↦ if crea proj_id then ok t' proj_id else lanza t'
  | pisa t' proj_id ↦ if crea proj_id then pisa t' proj_id else lanza t'
  | lanza t' ↦ lanza t'
  | desborda ↦ desborda
]

-- `abre` says for which numbers the system has a queue.
unfoldable pub destroy_queue : (abre : ℕ → Bool) → Nombre → Colas → Resultado
destroy_queue abre queue_id t =
    if abre (get_proj_id queue_id t) then deallocate_queue_id queue_id t else lanza t
