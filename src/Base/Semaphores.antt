-- ===== src/Base/Semaphores.antt =====
-- A set of counting semaphores: `SemaphoreSetDistribuido::wait_on` and `signalize` as a client of
-- the set sees them, and `SemaphoreSet::op` below them.
use aeropuerto.Base.Tests.{◌==◌, if◌then◌else◌}
use aeropuerto.Base.Lists.{length, get_or, set, set-set_self, set-get_or, get_or-set}
use Prim.Native.Nat.{ℕ, ◌+◌, ◌-◌, ◌<◌}
use mathlib.Core.Path.{◌≡◌}
use mathlib.Core.List.{List}
use mathlib.Core.Option.{Option, none, some}
use native.Mathlib.Omega.{arith}

-- A semaphore whose count is 0 makes the caller wait: `none`.
unfoldable pub wait_on : List ℕ → ℕ → Option (List ℕ)
wait_on sems i = if get_or sems i 0 == 0 then none else some (set sems i (get_or sems i 0 - 1))

unfoldable pub signalize : List ℕ → ℕ → List ℕ
signalize sems i = set sems i (get_or sems i 0 + 1)

-- What `wait_on` leaves when it does not wait.
pub wait_on-eq-some :
    (sems : List ℕ) (i : ℕ) {sems' : List ℕ}
    → wait_on sems i ≡ some sems'
    → (0 < get_or sems i 0) × (sems' ≡ set sems i (get_or sems i 0 - 1))
unfolding wait_on
wait_on-eq-some sems i h = ground arith

pub wait_on-eq-none : (sems : List ℕ) (i : ℕ) → wait_on sems i ≡ none → get_or sems i 0 ≡ 0
unfolding wait_on
wait_on-eq-none sems i h = ground arith

-- Whoever took his turn and gives it back leaves the semaphores as they were.
pub signalize-wait_on :
    (sems : List ℕ) (i : ℕ) {sems' : List ℕ}
    → i < length sems
    → wait_on sems i ≡ some sems'
    → signalize sems' i ≡ sems
unfolding wait_on signalize
signalize-wait_on sems i h w = ground (
  arith,
  get_or-set sems i i (get_or sems i 0 - 1) 0,
  set-set_self sems i (get_or sems i 0 - 1) (get_or sems i 0),
  set-get_or sems i 0,
)
