-- ===== src/Sync/Service/World/Counts.antt =====
-- How many calls hold the sync lock, and how many have told the status that a sync began.
use snjs.Prelude.{ℕ, ◌+◌, ◌≤◌, ◌≡◌, Bool, true, false, List, [], ◌∷◌, ◌++◌, arith}
use snjs.Sync.Service.Schedule.{Task, Stage, preparing, beginning, operating}

abbrev pub to_number : Bool → ℕ
to_number true = 1
to_number false = 0

-- Between taking the lock and releasing it.
abbrev pub holds_lock : Stage → Bool
holds_lock (preparing should_execute) = should_execute
holds_lock (beginning in_time) = true
holds_lock (operating mode online in_time) = true
holds_lock _ = false

-- Between `setDidBegin` and `setDidEnd`.
abbrev pub is_running : Stage → Bool
is_running (beginning in_time) = true
is_running (operating mode online in_time) = true
is_running _ = false

abbrev pub count : (Stage → Bool) → List Task → ℕ
count test [] = 0
count test (t ∷ ts) = to_number (test t.stage) + count test ts

pub count-append :
    (test : Stage → Bool) (xs ys : List Task)
    → count test (xs ++ ys) ≡ count test xs + count test ys
count-append test [] ys = omega arith
count-append test (x ∷ xs) ys = omega (arith, count-append test xs ys)

-- A call that runs holds the lock.
pub running-le-holding : (ts : List Task) → count is_running ts ≤ count holds_lock ts
running-le-holding [] = omega arith
running-le-holding (t ∷ ts) = ground (arith, running-le-holding ts)
