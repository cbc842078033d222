-- ===== src/Riscv/Hart/Task.antt =====
-- Starting and joining tasks: hart_start, hart_join and hart_check_complete of hart.c on hart 0, one
-- store after the other, and the loop from label 7 on in start.S on every other hart.
use Prim.Native.String.{String}
use abstract_machine.Base.{
  ℕ, zero, suc, ◌-◌, Bool, false, ◌||◌, not, ltb, ◌==◌, ◌!=◌, if◌then◌else◌,
}

-- hart_mailbox, hart_done and hart_pending; a function is its address, and 0 is no function.
pub record Boxes : Type 0 where
  pub mailbox : ℕ → ℕ
  pub done : ℕ → ℕ
  pub pending : ℕ → ℕ

abbrev pub set : {A : Type 0} → (ℕ → A) → ℕ → A → ℕ → A
set f i v j = if j == i then v else f j

-- Where hart 0 stands: in the test itself, in the loop of hart_join, behind it, or before one of
-- the three stores of hart_start. A `next` that is not 0 is what hart_start will post when the join
-- that it calls is over. A failed or skipped run has ended.
pub data Main : Type 0 where
  in_test : Main
  joining : (id next : ℕ) → Main
  joined : (id next : ℕ) → Main
  clearing : (id fn : ℕ) → Main
  marking : (id fn : ℕ) → Main
  posting : (id fn : ℕ) → Main
  failed : String → Main
  skipped : String → Main

-- Where a worker stands: in its polling loop, before it empties the mailbox, in the task, or before
-- it reports the end of the task.
pub data Worker : Type 0 where
  polling : Worker
  taking : (fn : ℕ) → Worker
  running : (fn : ℕ) → Worker
  reporting : Worker

-- hart_join on the hart `hart`, up to its loop.
unfoldable pub hart_join : ℕ → ℕ → Boxes → ℕ → ℕ → Main
hart_join hart_max hart m id next =
    if hart != 0
    then failed "hart_join from non-0"
    else if id == 0 || not (ltb id hart_max)
    then failed "hart_join id"
    else if m.pending id == 0
    then failed "hart_join without a task"
    else joining id next

-- hart_start, up to its first store or to the loop of the join that it calls.
unfoldable pub hart_start : ℕ → ℕ → Boxes → ℕ → ℕ → Main
hart_start hart_max hart m id fn =
    if hart != 0
    then failed "hart_start from non-0"
    else if not (ltb id hart_max)
    then skipped "hart_start needs more configured harts"
    else if id == 0 || fn == 0
    then failed "hart_start id"
    else if m.pending id != 0
    then hart_join hart_max hart m id fn
    else clearing id fn

-- One access of hart 0.
unfoldable pub main_move : Boxes → Main → Boxes × Main
main_move m in_test = (m, in_test)
main_move m (joining id next) = (m, if m.done id == 0 then joining id next else joined id next)
main_move m (joined id next) =
    (record m { pending = set m.pending id 0 }, if next == 0 then in_test else clearing id next)
main_move m (clearing id fn) = (record m { done = set m.done id 0 }, marking id fn)
main_move m (marking id fn) = (record m { pending = set m.pending id 1 }, posting id fn)
main_move m (posting id fn) = (record m { mailbox = set m.mailbox id fn }, in_test)
main_move m (failed msg) = (m, failed msg)
main_move m (skipped msg) = (m, skipped msg)

-- One access of the worker `i`; what the task does is not in these variables.
unfoldable pub worker_move : ℕ → Boxes → Worker → Boxes × Worker
worker_move i m polling = (m, if m.mailbox i == 0 then polling else taking (m.mailbox i))
worker_move i m (taking fn) = (record m { mailbox = set m.mailbox i 0 }, running fn)
worker_move i m (running fn) = (m, reporting)
worker_move i m reporting = (record m { done = set m.done i 1 }, polling)

-- `for (id = 1; id < HART_MAX; id++) if (hart_pending[id])`, counted down from HART_MAX - 1.
unfoldable pub any_pending : ℕ → Boxes → Bool
any_pending zero m = false
any_pending (suc id) m = any_pending id m || m.pending (suc id) != 0

unfoldable pub hart_check_complete : ℕ → Boxes → Main
hart_check_complete hart_max m =
    if any_pending (hart_max - 1) m then failed "worker task was not joined" else in_test
