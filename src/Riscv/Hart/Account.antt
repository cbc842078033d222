-- ===== src/Riscv/Hart/Account.antt =====
-- The account of one hart: what its variables, its worker and hart 0 can be at the same time.
use abstract_machine.Base.{ℕ, ◌≡◌, ◌≢◌, List, ◌∷◌, ◌==◌, if◌then◌else◌, refl, arith}
use abstract_machine.Riscv.Hart.Task.{
  Main, joining, joined, clearing, marking, posting, Worker, polling, taking, running, reporting,
}

-- What hart 0 does about one hart.
pub data Stage : Type 0 where
  away : Stage
  awaits : Stage
  resets : Stage
  clears : Stage
  marks : Stage
  posts : (fn : ℕ) → Stage

abbrev pub stage : ℕ → Main → Stage
stage i (joining id next) = if i == id then awaits else away
stage i (joined id next) = if i == id then resets else away
stage i (clearing id fn) = if i == id then clears else away
stage i (marking id fn) = if i == id then marks else away
stage i (posting id fn) = if i == id then posts fn else away
stage i main = away

abbrev pub Waits : Stage → Type 0
Waits away = Unit {0}
Waits awaits = Unit {0}
Waits stage = ⊥

-- The function that hart 0 is going to post is one.
abbrev pub Posts : Main → Type 0
Posts (clearing id fn) = fn ≢ 0
Posts (marking id fn) = fn ≢ 0
Posts (posting id fn) = fn ≢ 0
Posts main = Unit {0}

-- Mailbox, done, pending, the worker, hart 0, and the tasks posted and returned.
pub data Account : ℕ → ℕ → ℕ → Worker → Stage → List ℕ → List ℕ → Type 0 where
  fresh : {d : ℕ} {l : List ℕ} → Account 0 d 0 polling away l l
  ended : {l : List ℕ} → Account 0 1 1 polling away l l
  ended_awaited : {l : List ℕ} → Account 0 1 1 polling awaits l l
  ended_reset : {l : List ℕ} → Account 0 1 1 polling resets l l
  cleared : {d : ℕ} {l : List ℕ} → Account 0 d 0 polling clears l l
  marked : {l : List ℕ} → Account 0 0 0 polling marks l l
  about : {fn : ℕ} {l : List ℕ} → Account 0 0 1 polling (posts fn) l l
  posted :
      {fn : ℕ} {g : Stage} {l : List ℕ} → fn ≢ 0 → Waits g → Account fn 0 1 polling g (fn ∷ l) l
  taken : {fn : ℕ} {g : Stage} {l : List ℕ} → Waits g → Account fn 0 1 (taking fn) g (fn ∷ l) l
  runs : {fn : ℕ} {g : Stage} {l : List ℕ} → Waits g → Account 0 0 1 (running fn) g (fn ∷ l) l
  reports : {g : Stage} {l : List ℕ} → Waits g → Account 0 0 1 reporting g l l

-- The accesses of hart 0, on the hart that they are about.
pub joins-Account :
    {mb d p : ℕ} {w : Worker} {ps rs : List ℕ}
    → p ≢ 0
    → Account mb d p w away ps rs
    → Account mb d p w awaits ps rs
joins-Account h fresh = absurd (h refl)
joins-Account h ended = ended_awaited
joins-Account h (posted x g) = posted x tt
joins-Account h (taken g) = taken tt
joins-Account h (runs g) = runs tt
joins-Account h (reports g) = reports tt

pub sees-Account :
    {mb d p : ℕ} {w : Worker} {ps rs : List ℕ}
    → d ≢ 0
    → Account mb d p w awaits ps rs
    → Account mb d p w resets ps rs
sees-Account h ended_awaited = ended_reset
sees-Account h (posted x g) = absurd (h refl)
sees-Account h (taken g) = absurd (h refl)
sees-Account h (runs g) = absurd (h refl)
sees-Account h (reports g) = absurd (h refl)

pub resets-Account :
    {mb d p : ℕ} {w : Worker} {ps rs : List ℕ}
    → Account mb d p w resets ps rs
    → Account mb d 0 w away ps rs
resets-Account ended_reset = fresh
resets-Account (posted x g) = absurd g
resets-Account (taken g) = absurd g
resets-Account (runs g) = absurd g
resets-Account (reports g) = absurd g

pub restarts-Account :
    {mb d p : ℕ} {w : Worker} {ps rs : List ℕ}
    → Account mb d p w resets ps rs
    → Account mb d 0 w clears ps rs
restarts-Account ended_reset = cleared
restarts-Account (posted x g) = absurd g
restarts-Account (taken g) = absurd g
restarts-Account (runs g) = absurd g
restarts-Account (reports g) = absurd g

pub starts-Account :
    {mb d p : ℕ} {w : Worker} {ps rs : List ℕ}
    → p ≡ 0
    → Account mb d p w away ps rs
    → Account mb d p w clears ps rs
starts-Account h fresh = cleared
starts-Account h ended = absurd (omega arith)
starts-Account h (posted x g) = absurd (omega arith)
starts-Account h (taken g) = absurd (omega arith)
starts-Account h (runs g) = absurd (omega arith)
starts-Account h (reports g) = absurd (omega arith)

pub clears-Account :
    {mb d p : ℕ} {w : Worker} {ps rs : List ℕ}
    → Account mb d p w clears ps rs
    → Account mb 0 p w marks ps rs
clears-Account cleared = marked
clears-Account (posted x g) = absurd g
clears-Account (taken g) = absurd g
clears-Account (runs g) = absurd g
clears-Account (reports g) = absurd g

pub marks-Account :
    {mb d p : ℕ} {fn : ℕ} {w : Worker} {ps rs : List ℕ}
    → Account mb d p w marks ps rs
    → Account mb d 1 w (posts fn) ps rs
marks-Account marked = about
marks-Account (posted x g) = absurd g
marks-Account (taken g) = absurd g
marks-Account (runs g) = absurd g
marks-Account (reports g) = absurd g

pub posts-Account :
    {mb d p : ℕ} {fn : ℕ} {w : Worker} {ps rs : List ℕ}
    → fn ≢ 0
    → Account mb d p w (posts fn) ps rs
    → Account fn d p w away (fn ∷ ps) rs
posts-Account h about = posted h tt
posts-Account h (posted x g) = absurd g
posts-Account h (taken g) = absurd g
posts-Account h (runs g) = absurd g
posts-Account h (reports g) = absurd g

-- The accesses of the worker.
pub polls-Account :
    {mb d p : ℕ} {g : Stage} {ps rs : List ℕ}
    → mb ≢ 0
    → Account mb d p polling g ps rs
    → Account mb d p (taking mb) g ps rs
polls-Account h (posted x g) = taken g
polls-Account h fresh = absurd (h refl)
polls-Account h ended = absurd (h refl)
polls-Account h ended_awaited = absurd (h refl)
polls-Account h ended_reset = absurd (h refl)
polls-Account h cleared = absurd (h refl)
polls-Account h marked = absurd (h refl)
polls-Account h about = absurd (h refl)

pub takes-Account :
    {mb d p : ℕ} {fn : ℕ} {g : Stage} {ps rs : List ℕ}
    → Account mb d p (taking fn) g ps rs
    → Account 0 d p (running fn) g ps rs
takes-Account (taken g) = runs g

pub returns-Account :
    {mb d p : ℕ} {fn : ℕ} {g : Stage} {ps rs : List ℕ}
    → Account mb d p (running fn) g ps rs
    → Account mb d p reporting g ps (fn ∷ rs)
returns-Account (runs g) = reports g

pub reports-Account :
    {mb d p : ℕ} {g : Stage} {ps rs : List ℕ}
    → Account mb d p reporting g ps rs
    → Account mb 1 p polling g ps rs
reports-Account (reports {g = away} x) = ended
reports-Account (reports {g = awaits} x) = ended_awaited
reports-Account (reports {g = resets} x) = absurd x
reports-Account (reports {g = clears} x) = absurd x
reports-Account (reports {g = marks} x) = absurd x
reports-Account (reports {g = posts fn} x) = absurd x
