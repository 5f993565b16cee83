-- ===== src/Examples/Downloads.antt =====
-- The theorems about pkg/oget/downloader.go and about the choice of protocol at concrete inputs.
use oget.Prelude.{
  ℕ, ◌+◌, ◌-◌, ◌*◌, ◌^◌, ◌≤◌, ◌≡◌, refl, none, some, List, [], ◌∷◌, arith, length, get_or,
  replicate, ◌++◌, zero, suc, true, inr,
}
use oget.Prelude.Text.{Bytes, codes}
use oget.Task.{ChunkTask}
use oget.Prelude.Int.{pos, negsuc, int32}
use oget.Downloader.{
  Pool, Event, send, interrupt, submit, all_done, grow, take_by, give_up_by, retire_by, requeue_by,
  fetched_by, idle, returned, run, start, active,
}
use oget.Downloader.Queues.{sum}
use oget.Downloader.Invariant.{held_and_done, run_conserves}
use oget.Downloader.Bounds.{moves, run_bounded}
use oget.Downloader.Ending.{run_ended}
use oget.Downloader.Deadlock.{IsStuck, Waits, run_stuck}
use oget.Samples.{toy_library, sample_task}

-- The task fails once, is put back, and succeeds; the auto-tuner starts a second worker.
abbrev failed_once : List Event
failed_once = submit ∷ take_by 0 ∷ fetched_by 0 (some 2) ∷ []

abbrev whole_run : List Event
whole_run =
    submit
    ∷ take_by 0
    ∷ grow
    ∷ fetched_by 0 (some 2)
    ∷ requeue_by 0
    ∷ take_by 0
    ∷ fetched_by 0 none
    ∷ all_done
    ∷ give_up_by 1
    ∷ give_up_by 0
    ∷ retire_by 0
    ∷ retire_by 1
    ∷ []

abbrev begun : Pool
begun = start toy_library 1 8 (sample_task ∷ [])

abbrev after : List Event → Pool
after es = elim (run toy_library es begun) [ none ↦ begun | some p ↦ p ]

whole_run_happens : run toy_library whole_run begun ≡ some (after whole_run)
unfolding run start
whole_run_happens = refl

all_returned : active (after whole_run).workers ≡ 0
unfolding run start
all_returned = refl

run_conserves_example :
    ((f : Bytes → ℕ → ℕ)
      → held_and_done f (after whole_run) ≡ sum (λ t. f t.file_id t.chunk_id) (sample_task ∷ []))
    × (length (after whole_run).calls ≡ (after whole_run).finished)
    × ((after whole_run).added ≡ 1)
run_conserves_example =
    run_conserves toy_library 1 8 (sample_task ∷ []) whole_run (after whole_run) whole_run_happens

run_bounded_example : moves whole_run ≤ 15 * 1 + 2 * (1 + 1)
run_bounded_example =
    run_bounded toy_library 1 8 (sample_task ∷ []) whole_run (after whole_run) (refl, tt)
      whole_run_happens

-- the target of a concurrency that is too large
negative_target : int32 (2 ^ 31) ≡ negsuc (2 ^ 31 - 1)
unfolding int32
negative_target = refl

run_ended_example : (after whole_run).finished ≡ 1
run_ended_example =
    run_ended toy_library 1 8 (sample_task ∷ []) whole_run (after whole_run) whole_run_happens refl
      refl (omega arith) (omega arith) all_returned

-- 102 tasks for one worker
abbrev many : List ChunkTask
many = replicate 102 sample_task

-- The worker takes one task, 100 fill the queue, and the fetch fails.
abbrev filled : List Event
filled = submit ∷ take_by 0 ∷ (replicate 100 submit ++ fetched_by 0 (some 0) ∷ [])

abbrev blocked : Pool
blocked = elim (run toy_library filled (start toy_library 1 8 many)) [ none ↦ begun | some p ↦ p ]

blocked-IsStuck : IsStuck toy_library (codes "h") blocked
unfolding run start send
blocked-IsStuck = record { full = λ t. refl; waiting = waits; sender = inr refl }
  where
    waits : (i : ℕ) → Waits toy_library (codes "h") (get_or blocked.workers i returned)
    waits zero = refl
    waits (suc i) = tt

interrupted_happens :
    run toy_library (interrupt ∷ []) blocked ≡ some (record blocked { cancelled = true })
unfolding run
interrupted_happens = refl

run_stuck_example : (moves (interrupt ∷ []) ≡ 0) × (blocked.finished ≡ blocked.finished)
run_stuck_example =
    run_stuck toy_library (codes "h") (interrupt ∷ []) blocked (record blocked { cancelled = true })
      blocked-IsStuck (omega arith) interrupted_happens

-- two workers that have not found a task yet
abbrev two_workers : Pool
two_workers = record begun { workers = idle [] ∷ idle (codes "h") ∷ []; target = pos 2 }
