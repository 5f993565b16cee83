-- ===== src/Downloader/Bounds.antt =====
-- How often a chunk is tried, and how long a download can go on.
use oget.Prelude.{
  ℕ, zero, suc, ◌+◌, ◌*◌, ◌-◌, ◌<◌, ◌≤◌, ◌≡◌, refl, some, List, [], ◌∷◌, arith, ltb, if◌then◌else◌,
  ◌||◌, length, get_or, Bool-cases, Option-cases, inl, inr, subst,
}
use oget.Prelude.Text.{Bytes}
use oget.Url.{Library}
use oget.Task.{ChunkTask, max_fetch_retries}
use oget.Downloader.{Worker, fetching, returned, Pool, Event, step, run, start}
use oget.Downloader.Queues.{sum}
use oget.Downloader.Weigh.{
  Weights, worker_weight, weigh, moved_in, taken, ended, retried, put_back, left, gone, grown,
  shrunk, is_signal, is_tuning, is_grow, step-Change, step-signal,
}
use oget.Downloader.Invariant.{run_keeps, weigh-start}

-- how often each task in the machine can still fail, in units that leave room for its moves
abbrev tries_left : ChunkTask → ℕ
tries_left t = max_fetch_retries - t.retries

abbrev effort : Weights
effort = record {
  submitted = λ t. 4 * tries_left t + 3;
  queued = λ t. 4 * tries_left t + 2;
  fetched = λ t. 4 * tries_left t + 3;
  requeued = λ t. 4 * tries_left t + 5;
  free = 2;
  parting = 1;
}

-- how many events are neither signals nor the auto-tuner's
abbrev pub moves : List Event → ℕ
moves [] = 0
moves (e ∷ es) = (if is_signal e || is_tuning e then 0 else 1) + moves es

-- how many workers the auto-tuner starts
abbrev pub grows : List Event → ℕ
grows [] = 0
grows (e ∷ es) = (if is_grow e then 1 else 0) + grows es

-- An event that is possible costs what it counts, and a new worker brings what it can cost.
step_costs :
    (lib : Library) (e : Event) (p q : Pool)
    → step lib e p ≡ some q
    → weigh effort q + (if is_signal e || is_tuning e then 0 else 1)
      ≤ weigh effort p + 2 * (if is_grow e then 1 else 0)
step_costs lib e p q h = elim (Bool-cases (is_signal e)) [
  | inl s ↦ rw (s, step-signal lib e p q s h) (omega arith)
  | inr s ↦ elim (step-Change effort lib e p q s h) [
    | moved_in t w k ↦ at_most_one (omega (arith, w))
    | taken t w k ↦ at_most_one (omega (arith, w))
    | ended t w k ↦ at_most_one (omega (arith, w))
    | retried t v r w k ↦ at_most_one (omega (arith, w, r))
    | put_back t w k ↦ at_most_one (omega (arith, w))
    | left r w k ↦ at_most_one (omega (arith, w))
    | gone w k ↦ at_most_one (omega (arith, w))
    | grown g w t k ↦ ground (arith, w)
    | shrunk g w t k ↦ ground (arith, w)
  ]
]
  where
    at_most_one :
        weigh effort q + 1 ≤ weigh effort p
        → weigh effort q + (if is_signal e || is_tuning e then 0 else 1)
          ≤ weigh effort p + 2 * (if is_grow e then 1 else 0)
    at_most_one less = ground arith

run_costs :
    (lib : Library) (es : List Event) (p q : Pool)
    → run lib es p ≡ some q
    → weigh effort q + moves es ≤ weigh effort p + 2 * grows es
unfolding run
run_costs lib [] p q h = rw (same h) (omega arith)
  where
    same : some p ≡ some q → p ≡ q
    same h = cc
run_costs lib (e ∷ es) p q h = elim (Option-cases (step lib e p)) [
  | inl n ↦ absurd (ground arith)
  | inr (r, n) ↦ omega (arith, step_costs lib e p r n, run_costs lib es r q (ground arith))
]

-- tasks that have not been tried yet
abbrev pub AreFresh : List ChunkTask → Type 0
AreFresh [] = Unit
AreFresh (t ∷ ts) = (t.retries ≡ 0) × AreFresh ts

effort-fresh : (ts : List ChunkTask) → AreFresh ts → sum effort.submitted ts ≡ 15 * length ts
effort-fresh [] h = refl
effort-fresh (t ∷ ts) (z, h) = omega (arith, effort-fresh ts h)

-- The work of a download is bounded: with c workers at the start, g more that the auto-tuner starts,
-- and n tasks that have not been tried yet, no run has more than 15 n + 2 (c + g) moves, whatever
-- fails and however the workers interleave. The cancellations of the context and the decisions of the
-- auto-tuner do not count, nor do the turns in which a worker finds no task and sleeps. That a run
-- gets to its end is not stated: it can be stuck before.
pub run_bounded :
    (lib : Library) (c m : ℕ) (ts : List ChunkTask) (es : List Event) (p : Pool)
    → AreFresh ts
    → run lib es (start lib c m ts) ≡ some p
    → moves es ≤ 15 * length ts + 2 * (c + grows es)
run_bounded lib c m ts es p fresh h = omega (
  arith,
  run_costs lib es (start lib c m ts) p h,
  weigh-start effort lib c m ts,
  effort-fresh ts fresh,
)

-- what is counted where a task has been tried too often
abbrev overdue : ChunkTask → ℕ
overdue t = if ltb t.retries max_fetch_retries then 0 else 1

abbrev overdue_everywhere : Weights
overdue_everywhere = record {
  submitted = overdue;
  queued = overdue;
  fetched = overdue;
  requeued = overdue;
  free = 0;
  parting = 0;
}

step_keeps_tries :
    (lib : Library) (e : Event) (p q : Pool)
    → step lib e p ≡ some q
    → weigh overdue_everywhere p ≡ 0
    → weigh overdue_everywhere q ≡ 0
step_keeps_tries lib e p q h i = elim (Bool-cases (is_signal e)) [
  | inl s ↦ rw (step-signal lib e p q s h) i
  | inr s ↦ elim (step-Change overdue_everywhere lib e p q s h) [
    | moved_in t w k ↦ omega (arith, w)
    | taken t w k ↦ omega (arith, w)
    | ended t w k ↦ omega (arith, w)
    | retried t v r w k ↦ ground (arith, w, r)
    | put_back t w k ↦ omega (arith, w)
    | left r w k ↦ omega (arith, w)
    | gone w k ↦ omega (arith, w)
    | grown g w t k ↦ omega (arith, w)
    | shrunk g w t k ↦ omega (arith, w)
  ]
]

overdue-fresh : (ts : List ChunkTask) → AreFresh ts → sum overdue ts ≡ 0
overdue-fresh [] h = refl
overdue-fresh (t ∷ ts) (z, h) = ground (arith, overdue-fresh ts h)

weight_of_worker :
    (w : Weights) (ws : List Worker) (i : ℕ)
    → worker_weight w (get_or ws i returned) ≤ sum (worker_weight w) ws
weight_of_worker w [] i = omega arith
weight_of_worker w (x ∷ ws) zero = omega arith
weight_of_worker w (x ∷ ws) (suc i) = omega (arith, weight_of_worker w ws i)

-- Where no task has been tried before the download, a task that a worker fetches has failed less
-- than max_fetch_retries times.
pub run_tries :
    (lib : Library) (c m : ℕ) (ts : List ChunkTask) (es : List Event) (p : Pool) (i : ℕ)
    (host : Bytes) (t : ChunkTask)
    → AreFresh ts
    → run lib es (start lib c m ts) ≡ some p
    → get_or p.workers i returned ≡ fetching host t
    → t.retries < max_fetch_retries
run_tries lib c m ts es p i host t fresh h g =
    let none_overdue : weigh overdue_everywhere p ≡ 0 =
      run_keeps _ lib (step_keeps_tries lib) es (start lib c m ts) p h
        (omega (arith, weigh-start overdue_everywhere lib c m ts, overdue-fresh ts fresh)) in
    let here : overdue t ≤ sum (worker_weight overdue_everywhere) p.workers =
      subst
        (λ x. worker_weight overdue_everywhere x ≤ sum (worker_weight overdue_everywhere) p.workers)
        g (weight_of_worker overdue_everywhere p.workers i) in
    ground (arith, none_overdue, here)
