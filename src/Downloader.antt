-- ===== src/Downloader.antt =====
-- pkg/oget/downloader.go: the host queues, the workers and the wait group of Downloader.Download,
-- as a machine that a list of events drives. What a fetch returns, and the order in which the
-- goroutines get on, are in the events.
pub mod Queues
pub mod Weigh
pub mod Invariant
pub mod Bounds
pub mod Ending
pub mod Deadlock
pub mod Tune
pub mod Desert
pub mod Gather
use oget.Prelude.{
  ℕ, zero, suc, ◌+◌, ◌-◌, ◌≡◌, Bool, true, false, not, ◌&&◌, ◌||◌, Option, none, some, List, [],
  ◌∷◌, ◌++◌, ltb, leb, ◌==◌, if◌then◌else◌, length, get_or, set, replicate,
}
use oget.Prelude.Int.{ℤ, pos, ltb_ℤ, int32, ◌+ℤ◌, ◌-ℤ◌}
use oget.Prelude.Text.{Bytes, codes, str_eq, is_empty}
use oget.Url.{Url, Library}
use oget.Task.{ChunkTask, max_fetch_retries}

-- hostQueues, in the order of hostKeys: a queue for each host.
abbrev pub Queues : Type 0
Queues = List (Bytes × List ChunkTask)

-- the capacity of a host's channel
abbrev pub queue_capacity : ℕ
queue_capacity = 100

-- getHostQueue: the queues, with an empty one for the host if there was none
pub get_host_queue : Bytes → Queues → Queues
unfolding str_eq
get_host_queue host [] = (host, []) ∷ []
get_host_queue host ((h, q) ∷ qs) =
    let rest = get_host_queue host qs in if str_eq h host then (h, q) ∷ qs else (h, q) ∷ rest

-- `q <- t`: `none` where the channel is full, so that the sender waits
unfoldable pub send : Bytes → ChunkTask → Queues → Option Queues
unfolding str_eq
send host t [] = none
send host t ((h, q) ∷ qs) =
    let rest = send host t qs in
    if str_eq h host
    then (if ltb (length q) queue_capacity then some ((h, q ++ t ∷ []) ∷ qs) else none)
    else elim rest [ none ↦ none | some qs' ↦ some ((h, q) ∷ qs') ]

-- `<-q` in a select with a default: `none` where there is no such queue or nothing in it
pub receive : Bytes → Queues → Option (ChunkTask × Queues)
unfolding str_eq
receive host [] = none
receive host ((h, []) ∷ qs) =
    let rest = receive host qs in
    if str_eq h host
    then none
    else elim rest [ none ↦ none | some (t, qs') ↦ some (t, (h, []) ∷ qs') ]
receive host ((h, x ∷ q) ∷ qs) =
    let rest = receive host qs in
    if str_eq h host
    then some (x, (h, q) ∷ qs)
    else elim rest [ none ↦ none | some (t, qs') ↦ some (t, (h, x ∷ q) ∷ qs') ]

-- The loop over hostKeys: the first task, its host, and the queues without it.
pub scan : Queues → Option (ChunkTask × Bytes × Queues)
scan [] = none
scan ((h, x ∷ q) ∷ qs) = some (x, h, (h, q) ∷ qs)
scan ((h, []) ∷ qs) = elim (scan qs) [ none ↦ none | some (t, k, qs') ↦ some (t, k, (h, []) ∷ qs') ]

-- The task that a worker takes: one of its current host if there is one, else the first of any.
pub next_task : Bytes → Queues → Option (ChunkTask × Bytes × Queues)
unfolding scan receive
next_task current qs =
    if is_empty current
    then scan qs
    else elim (receive current qs) [ some (t, qs') ↦ some (t, current, qs') | none ↦ scan qs ]

-- A worker, with its `currentHost`: in the search for a task, in Fetch, in `q <- t` of addTask with
-- the copy for a retry, between its decision to return and the deferred count of activeWorkers, or
-- returned.
pub data Worker : Type 0 where
  idle : Bytes → Worker
  fetching : Bytes → ChunkTask → Worker
  requeueing : Bytes → ChunkTask → Worker
  leaving : Worker
  returned : Worker

-- `host` is the host of addTask(allTasks...), and `submitting` are the tasks that its loop has not
-- sent yet. The counter of tasksWg is `added` less `finished`. `calls` are the calls of
-- OnChunkComplete, each with the file of its task and whether its hash is "error". `target` and
-- `max_target` are targetConcurrency and int32(MaxConcurrency). The target is raised below the latter
-- only, so that it does not overflow.
pub record Pool : Type 0 where
  pub host : Bytes
  pub submitting : List ChunkTask
  pub queues : Queues
  pub workers : List Worker
  pub target : ℤ
  pub max_target : ℤ
  pub added : ℕ
  pub finished : ℕ
  pub calls : List (Bytes × ℕ × Bool)
  pub cancelled : Bool

-- the host of addTask
unfoldable pub host_of : Library → Bytes → Bytes
host_of lib url = elim (lib.parse url) [ none ↦ codes "default" | some u ↦ u.host ]

-- how many workers activeWorkers counts, as an int32
abbrev pub active : List Worker → ℕ
active [] = 0
active (returned ∷ ws) = active ws
active (w ∷ ws) = suc (active ws)

abbrev pub set_worker : ℕ → Worker → Pool → Pool
set_worker i w p = record p { workers = set p.workers i w }

-- OnChunkComplete, as Download wraps it: the call, and tasksWg.Done
abbrev pub complete : ChunkTask → Bool → Pool → Pool
complete t failed p = record p {
  finished = suc p.finished;
  calls = p.calls ++ (t.file_id, t.chunk_id, failed) ∷ [];
}

-- the next send of the loop of addTask(allTasks...)
pub submit_next : Pool → List ChunkTask → Option Pool
unfolding send
submit_next p [] = none
submit_next p (t ∷ ts) = elim (send p.host t p.queues) [
  | none ↦ none
  | some qs ↦ some (record p { queues = qs; submitting = ts })
]

-- a worker finds a task
pub take_task : Pool → ℕ → Worker → Option Pool
unfolding next_task
take_task p i (idle current) = elim (next_task current p.queues) [
  | none ↦ none
  | some (t, h, qs) ↦ some (set_worker i (fetching h t) (record p { queues = qs }))
]
take_task p i (fetching current t) = none
take_task p i (requeueing current t) = none
take_task p i leaving = none
take_task p i returned = none

-- Fetch returned: `none` without an error, so that it called OnChunkComplete; `some w` with an
-- error, and with `written` at w.
pub end_fetch : Library → Option ℕ → Pool → ℕ → Worker → Option Pool
unfolding get_host_queue host_of
end_fetch lib outcome p i (idle current) = none
end_fetch lib none p i (fetching current t) =
    some (set_worker i (idle current) (complete t false p))
end_fetch lib (some w) p i (fetching current t) =
    let t' = record t { written = w; retries = suc t.retries } in
    if ltb t'.retries max_fetch_retries
    then some (
        set_worker i (requeueing current t')
          (record p { queues = get_host_queue (host_of lib t'.url) p.queues }))
    else some (set_worker i (idle current) (complete t' true p))
end_fetch lib outcome p i (requeueing current t) = none
end_fetch lib outcome p i leaving = none
end_fetch lib outcome p i returned = none

-- the send of a retry
pub requeue : Library → Pool → ℕ → Worker → Option Pool
unfolding send host_of
requeue lib p i (idle current) = none
requeue lib p i (fetching current t) = none
requeue lib p i (requeueing current t) = elim (send (host_of lib t.url) t p.queues) [
  | none ↦ none
  | some qs ↦ some (set_worker i (idle current) (record p { queues = qs }))
]
requeue lib p i leaving = none
requeue lib p i returned = none

abbrev finds_nothing : Bytes → Queues → Bool
finds_nothing current qs = elim (next_task current qs) [ none ↦ true | some x ↦ false ]

-- A worker decides to return: there are more workers than the target, or it finds no task and the
-- context is cancelled.
pub give_up : Pool → ℕ → Worker → Option Pool
unfolding next_task int32
give_up p i (idle current) =
    if ltb_ℤ p.target (int32 (active p.workers)) || (p.cancelled && finds_nothing current p.queues)
    then some (set_worker i leaving p)
    else none
give_up p i (fetching current t) = none
give_up p i (requeueing current t) = none
give_up p i leaving = none
give_up p i returned = none

-- the deferred calls of a worker, with which it is gone
pub retire : Pool → ℕ → Worker → Option Pool
retire p i (idle current) = none
retire p i (fetching current t) = none
retire p i (requeueing current t) = none
retire p i leaving = some (set_worker i returned p)
retire p i returned = none

-- `all_done` is tasksWg.Wait, which returns when the counter is 0; `interrupt` is the caller's
-- cancellation; `grow` and `shrink` are the decisions of the auto-tuner (Downloader/Tune).
pub data Event : Type 0 where
  submit all_done interrupt grow shrink : Event
  take_by give_up_by retire_by requeue_by : ℕ → Event
  fetched_by : ℕ → Option ℕ → Event

-- One step; `none` where the event cannot happen.
unfoldable pub step : Library → Event → Pool → Option Pool
unfolding submit_next take_task end_fetch requeue give_up retire ◌+ℤ◌ ◌-ℤ◌
step lib submit p = submit_next p p.submitting
step lib all_done p = if p.added == p.finished then some (record p { cancelled = true }) else none
step lib interrupt p = some (record p { cancelled = true })
step lib grow p =
    if ltb_ℤ p.target p.max_target
    then some (record p { target = p.target +ℤ pos 1; workers = p.workers ++ idle [] ∷ [] })
    else none
step lib shrink p =
    if ltb_ℤ (pos 1) p.target then some (record p { target = p.target -ℤ pos 1 }) else none
step lib (take_by i) p = take_task p i (get_or p.workers i returned)
step lib (give_up_by i) p = give_up p i (get_or p.workers i returned)
step lib (retire_by i) p = retire p i (get_or p.workers i returned)
step lib (requeue_by i) p = requeue lib p i (get_or p.workers i returned)
step lib (fetched_by i outcome) p = end_fetch lib outcome p i (get_or p.workers i returned)

unfoldable pub run : Library → List Event → Pool → Option Pool
unfolding step
run lib [] p = some p
run lib (e ∷ es) p = elim (step lib e p) [ none ↦ none | some q ↦ run lib es q ]

abbrev first_host : Library → List ChunkTask → Bytes
first_host lib [] = []
first_host lib (t ∷ ts) = host_of lib t.url

-- addTask without tasks returns before it makes a queue
abbrev first_queues : Library → List ChunkTask → Queues
first_queues lib [] = []
first_queues lib (t ∷ ts) = get_host_queue (host_of lib t.url) []

-- Download, when its workers are started and tasksWg counts every task
unfoldable pub start : Library → ℕ → ℕ → List ChunkTask → Pool
unfolding host_of get_host_queue int32
start lib concurrency max_concurrency ts = record {
  host = first_host lib ts;
  submitting = ts;
  queues = first_queues lib ts;
  workers = replicate concurrency (idle []);
  target = int32 concurrency;
  max_target = int32 max_concurrency;
  added = length ts;
  finished = 0;
  calls = [];
  cancelled = false;
}
