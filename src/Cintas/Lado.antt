-- ===== src/Cintas/Lado.antt =====
-- One side of a belt (api/cinta.h, api/cintacarga.h, api/cintaprincipal.h): those who put pieces on
-- it, or those who take them. `despertar_productores` and `despertar_consumidores` are one function
-- of the side.
use aeropuerto.Base.{
  ℕ, zero, suc, ◌+◌, List, Option, none, some, ltb, ◌==◌, if◌then◌else◌, get_or, set, replicate,
  wait_on, signalize,
}

-- `cantidad_productores`, `cantidad_productores_esperando`, `ids_productores_esperando` and
-- `semaforo_productores`, or the same four for the consumers.
pub record Lado : Type 0 where
  pub cantidad : ℕ
  pub esperando : ℕ
  pub ids : List ℕ
  pub semaforo : List ℕ

-- A side of `n` users as the `.init` files and the list of groups leave it: nobody sleeps, and each
-- semaphore's token is in its group.
abbrev pub inicial : ℕ → Lado
inicial n = record { cantidad = n; esperando = 0; ids = replicate n 0; semaforo = replicate n 1 }

-- `semaforo->wait_on(i)`; `none` is a caller that waits.
unfoldable pub esperar_turno : ℕ → Lado → Option Lado
esperar_turno i l = elim (wait_on l.semaforo i) [
  | none ↦ none
  | some semaforo ↦ some (record l { semaforo = semaforo })
]

-- `semaforo->signalize(i)`.
unfoldable pub dar_turno : ℕ → Lado → Lado
dar_turno i l = record l { semaforo = signalize l.semaforo i }

-- The caller notes that he sleeps.
unfoldable pub dormir : ℕ → Lado → Lado
dormir i l = record l { esperando = l.esperando + 1; ids = set l.ids i 1 }

-- One round of the loop: user `i` gets a turn and his flag is cleared, if he sleeps.
unfoldable pub despertar_uno : ℕ → Lado → Lado
unfolding dar_turno
despertar_uno i l =
    if get_or l.ids i 0 == 1 then dar_turno i (record l { ids = set l.ids i 0 }) else l

-- `for (; rounds > 0; i++, rounds--)`.
unfoldable pub despertar_desde : (rounds i : ℕ) → Lado → Lado
despertar_desde zero i l = l
despertar_desde (suc rounds) i l = despertar_desde rounds (suc i) (despertar_uno i l)

unfoldable pub despertar : Lado → Lado
unfolding despertar_desde despertar_uno
despertar l =
    if ltb 0 l.esperando then record (despertar_desde l.cantidad 0 l) { esperando = 0 } else l
