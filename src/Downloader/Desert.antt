-- ===== src/Downloader/Desert.antt =====
-- What the workers of Download may do behind a decision of the auto-tuner to have one worker less:
-- the test of activeWorkers and the deferred count of it are two steps, and others come between them.
use oget.Prelude.{ℕ, zero, suc, ◌≡◌, true, false, List, [], ◌∷◌, ◌++◌, replicate}
use oget.Downloader.{Worker, idle, Pool, Event, shrink, give_up_by, retire_by}

-- Every worker is between two tasks.
abbrev pub AllIdle : List Worker → Type 0
AllIdle [] = Unit
AllIdle (idle current ∷ ws) = AllIdle ws
AllIdle (w ∷ ws) = true ≡ false

-- the workers i, i + 1, ..., k of them, each look at activeWorkers
abbrev pub give_ups : ℕ → ℕ → List Event
give_ups i zero = []
give_ups i (suc k) = give_up_by i ∷ give_ups (suc i) k

-- then each of them returns
abbrev pub retires : ℕ → ℕ → List Event
retires i zero = []
retires i (suc k) = retire_by i ∷ retires (suc i) k

-- n workers in the state w, and the others
abbrev staffed : Pool → ℕ → Worker → List Worker → Pool
staffed p n w ws = record p { workers = replicate n w ++ ws }

-- The auto-tuner wants one worker less; every worker looks at the count, and then all of them return.
abbrev pub desertion : ℕ → List Event
desertion n = shrink ∷ (give_ups 0 n ++ retires 0 n)
