-- ===== src/Downloader/Weigh.antt =====
-- What one step does to a sum over all tasks that are in the machine, and over its idle workers.
use oget.Prelude.{
  ℕ, zero, suc, ◌+◌, ◌<◌, ◌≡◌, ◌≢◌, refl, Bool, true, false, Option, none, some, List, [], ◌∷◌,
  ◌++◌, arith, ltb, ◌&&◌, ◌||◌, get_or, set, Bool-cases, Option-cases, inl, inr, ◌⊎◌, sym,
}
use oget.Prelude.Int.{pos, ltb_ℤ, int32, ◌+ℤ◌, ◌-ℤ◌}
use oget.Url.{Library}
use oget.Task.{ChunkTask, max_fetch_retries}
use oget.Downloader.{
  Worker, idle, fetching, requeueing, leaving, returned, Pool, Event, submit, all_done, interrupt,
  grow, shrink, take_by, give_up_by, retire_by, requeue_by, fetched_by, next_task, send,
  get_host_queue, host_of, active, set_worker, complete, submit_next, take_task, end_fetch, requeue,
  give_up, retire, finds_nothing, step,
}
use oget.Downloader.Queues.{
  sum, sum-append, total, send-total, next_task-total, total-get_host_queue,
}

-- What a task counts in each place, and what an idle and a leaving worker count.
pub record Weights : Type 0 where
  pub submitted : ChunkTask → ℕ
  pub queued : ChunkTask → ℕ
  pub fetched : ChunkTask → ℕ
  pub requeued : ChunkTask → ℕ
  pub free : ℕ
  pub parting : ℕ

abbrev pub worker_weight : Weights → Worker → ℕ
worker_weight w (idle current) = w.free
worker_weight w (fetching current t) = w.fetched t
worker_weight w (requeueing current t) = w.requeued t
worker_weight w leaving = w.parting
worker_weight w returned = 0

abbrev pub weigh : Weights → Pool → ℕ
weigh w p = sum w.submitted p.submitting + total w.queued p.queues + sum (worker_weight w) p.workers

-- the copy of a task for its retry
abbrev pub retry_of : ChunkTask → ℕ → ChunkTask
retry_of t v = record t { written = v; retries = suc t.retries }

-- The fields that no task changes.
abbrev pub SameFrame : Pool → Pool → Type 0
SameFrame p q = (q.added ≡ p.added) × (q.target ≡ p.target) × (q.cancelled ≡ p.cancelled)

-- Nothing was completed.
abbrev pub Kept : Pool → Pool → Type 0
Kept p q = (q.finished ≡ p.finished) × (q.calls ≡ p.calls) × SameFrame p q

-- The target was changed.
abbrev pub Tuned : Pool → Pool → Type 0
Tuned p q =
    (q.finished ≡ p.finished)
    × (q.calls ≡ p.calls)
    × (q.added ≡ p.added)
    × (q.cancelled ≡ p.cancelled)

-- One task was completed.
abbrev pub Counted : ChunkTask → Pool → Pool → Type 0
Counted t p q =
    (failed : Bool) × (q.finished ≡ suc p.finished)
    × (q.calls ≡ p.calls ++ (t.file_id, t.chunk_id, failed) ∷ [])
    × SameFrame p q

-- The events that only cancel the context.
abbrev pub is_signal : Event → Bool
is_signal all_done = true
is_signal interrupt = true
is_signal e = false

abbrev pub is_grow : Event → Bool
is_grow grow = true
is_grow e = false

abbrev pub is_shrink : Event → Bool
is_shrink shrink = true
is_shrink e = false

-- the events of the auto-tuner
abbrev pub is_tuning : Event → Bool
is_tuning e = is_grow e || is_shrink e

-- How a step that is possible changes a sum: which task moved, from where to where.
pub data Change (w : Weights) (e : Event) (p q : Pool) : Type 0 where
  moved_in :
      (t : ChunkTask)
      → weigh w p + w.queued t ≡ weigh w q + w.submitted t
      → Kept p q
      → Change w e p q
  taken :
      (t : ChunkTask)
      → weigh w p + w.fetched t ≡ weigh w q + w.queued t + w.free
      → Kept p q
      → Change w e p q
  ended :
      (t : ChunkTask)
      → weigh w p + w.free ≡ weigh w q + w.fetched t
      → Counted t p q
      → Change w e p q
  retried :
      (t : ChunkTask) (v : ℕ)
      → suc t.retries < max_fetch_retries
      → weigh w p + w.requeued (retry_of t v) ≡ weigh w q + w.fetched t
      → Kept p q
      → Change w e p q
  put_back :
      (t : ChunkTask)
      → weigh w p + w.queued t + w.free ≡ weigh w q + w.requeued t
      → Kept p q
      → Change w e p q
  left :
      ((ltb_ℤ p.target (int32 (active p.workers)) ≡ true) ⊎ (p.cancelled ≡ true))
      → weigh w p + w.parting ≡ weigh w q + w.free
      → Kept p q
      → Change w e p q
  gone : weigh w p ≡ weigh w q + w.parting → Kept p q → Change w e p q
  grown :
      is_grow e ≡ true
      → weigh w q ≡ weigh w p + w.free
      → q.target ≡ p.target +ℤ pos 1
      → Tuned p q
      → Change w e p q
  shrunk :
      is_shrink e ≡ true
      → weigh w q ≡ weigh w p
      → q.target ≡ p.target -ℤ pos 1
      → Tuned p q
      → Change w e p q

sum-set :
    (w : Weights) (ws : List Worker) (i : ℕ) (old new : Worker)
    → get_or ws i returned ≡ old
    → old ≢ returned
    → sum (worker_weight w) (set ws i new) + worker_weight w old
      ≡ sum (worker_weight w) ws + worker_weight w new
sum-set w [] i old new e n = absurd (n (sym e))
sum-set w (x ∷ ws) zero old new e n = rw e (omega arith)
sum-set w (x ∷ ws) (suc i) old new e n = omega (arith, sum-set w ws i old new e n)

module _ (w : Weights) (lib : Library) (ev : Event) (p q : Pool) where
  submit_next-Change :
      (ts : List ChunkTask) → p.submitting ≡ ts → submit_next p ts ≡ some q → Change w ev p q
  unfolding submit_next
  submit_next-Change [] s e = cc
  submit_next-Change (t ∷ ts) s e = elim (Option-cases (send p.host t p.queues)) [
    | inl n ↦ absurd (ground arith)
    | inr (qs, h) ↦
        let same : record p { queues = qs; submitting = ts } ≡ q = ground arith in
        rw (← same) (
          moved_in t (rw s (omega (arith, (send-total w.queued p.host t p.queues qs h).0)))
            (refl, refl, (refl, refl, refl)))
  ]

  module _ (i : ℕ) where
    set-sum :
        (old new : Worker)
        → get_or p.workers i returned ≡ old
        → old ≢ returned
        → sum (worker_weight w) (set p.workers i new) + worker_weight w old
          ≡ sum (worker_weight w) p.workers + worker_weight w new
    set-sum = sum-set w p.workers i

    take_task-Change :
        (x : Worker) → get_or p.workers i returned ≡ x → take_task p i x ≡ some q → Change w ev p q
    unfolding take_task
    take_task-Change (idle c) g e = elim (Option-cases (next_task c p.queues)) [
      | inl n ↦ absurd (ground arith)
      | inr ((t, h, qs), n) ↦
          let same : set_worker i (fetching h t) (record p { queues = qs }) ≡ q = ground arith in
          rw (← same) (
            taken t
              (omega (
                arith,
                set-sum (idle c) (fetching h t) g (λ d. cc),
                (next_task-total w.queued c p.queues t h qs n).0,
              ))
              (refl, refl, (refl, refl, refl)))
    ]
    take_task-Change (fetching c t) g e = cc
    take_task-Change (requeueing c t) g e = cc
    take_task-Change leaving g e = cc
    take_task-Change returned g e = cc

    end_fetch-Change :
        (o : Option ℕ) (x : Worker)
        → get_or p.workers i returned ≡ x
        → end_fetch lib o p i x ≡ some q
        → Change w ev p q
    unfolding end_fetch
    end_fetch-Change o (idle c) g e = cc
    end_fetch-Change none (fetching c t) g e =
        let same : set_worker i (idle c) (complete t false p) ≡ q = cc in
        rw (← same) (
          ended t (omega (arith, set-sum (fetching c t) (idle c) g (λ d. cc)))
            (false, refl, refl, (refl, refl, refl)))
    end_fetch-Change (some v) (fetching c t) g e =
        let t' = retry_of t v in
        elim (Bool-cases (ltb t'.retries max_fetch_retries)) [
          | inl more ↦
              let qs = get_host_queue (host_of lib t'.url) p.queues in
              let same : set_worker i (requeueing c t') (record p { queues = qs }) ≡ q =
                ground arith in
              rw (← same) (
                retried t v (ground arith)
                  (omega (
                    arith,
                    set-sum (fetching c t) (requeueing c t') g (λ d. cc),
                    total-get_host_queue w.queued (host_of lib t'.url) p.queues,
                  ))
                  (refl, refl, (refl, refl, refl)))
          | inr last ↦
              let same : set_worker i (idle c) (complete t' true p) ≡ q = ground arith in
              rw (← same) (
                ended t (omega (arith, set-sum (fetching c t) (idle c) g (λ d. cc)))
                  (true, refl, refl, (refl, refl, refl)))
        ]
    end_fetch-Change o (requeueing c t) g e = cc
    end_fetch-Change o leaving g e = cc
    end_fetch-Change o returned g e = cc

    requeue-Change :
        (x : Worker)
        → get_or p.workers i returned ≡ x
        → requeue lib p i x ≡ some q
        → Change w ev p q
    unfolding requeue
    requeue-Change (idle c) g e = cc
    requeue-Change (fetching c t) g e = cc
    requeue-Change (requeueing c t) g e =
        elim (Option-cases (send (host_of lib t.url) t p.queues)) [
          | inl n ↦ absurd (ground arith)
          | inr (qs, h) ↦
              let same : set_worker i (idle c) (record p { queues = qs }) ≡ q = ground arith in
              rw (← same) (
                put_back t
                  (omega (
                    arith,
                    set-sum (requeueing c t) (idle c) g (λ d. cc),
                    (send-total w.queued (host_of lib t.url) t p.queues qs h).0,
                  ))
                  (refl, refl, (refl, refl, refl)))
        ]
    requeue-Change leaving g e = cc
    requeue-Change returned g e = cc

    give_up-Change :
        (x : Worker) → get_or p.workers i returned ≡ x → give_up p i x ≡ some q → Change w ev p q
    unfolding give_up
    give_up-Change (idle c) g e =
        elim (Bool-cases (
          ltb_ℤ p.target (int32 (active p.workers)) || (p.cancelled && finds_nothing c p.queues))) [
            | inl leaves ↦
                let same : set_worker i leaving p ≡ q = ground arith in
                rw (← same) (
                  left (reason leaves) (omega (arith, set-sum (idle c) leaving g (λ d. cc)))
                    (refl, refl, (refl, refl, refl)))
            | inr stays ↦ absurd (ground arith)
          ]
      where
        reason :
            (ltb_ℤ p.target (int32 (active p.workers)) || (p.cancelled && finds_nothing c p.queues))
              ≡ true
            → (ltb_ℤ p.target (int32 (active p.workers)) ≡ true) ⊎ (p.cancelled ≡ true)
        reason h = elim (Bool-cases p.cancelled) [ inl y ↦ inr y | inr n ↦ inl (ground arith) ]
    give_up-Change (fetching c t) g e = cc
    give_up-Change (requeueing c t) g e = cc
    give_up-Change leaving g e = cc
    give_up-Change returned g e = cc

    retire-Change :
        (x : Worker) → get_or p.workers i returned ≡ x → retire p i x ≡ some q → Change w ev p q
    unfolding retire
    retire-Change (idle c) g e = cc
    retire-Change (fetching c t) g e = cc
    retire-Change (requeueing c t) g e = cc
    retire-Change leaving g e =
        let same : set_worker i returned p ≡ q = cc in
        rw (← same) (
          gone (omega (arith, set-sum leaving returned g (λ d. cc)))
            (refl, refl, (refl, refl, refl)))
    retire-Change returned g e = cc

sum-hire :
    (w : Weights) (ws : List Worker)
    → sum (worker_weight w) (ws ++ idle [] ∷ []) ≡ sum (worker_weight w) ws + w.free
sum-hire w ws = omega (arith, sum-append (worker_weight w) ws (idle [] ∷ []))

module _ (w : Weights) (lib : Library) (p q : Pool) where
  grow-Change : step lib grow p ≡ some q → Change w grow p q
  unfolding step
  grow-Change h = elim (Bool-cases (ltb_ℤ p.target p.max_target)) [
    | inl room ↦
        let same : record p { target = p.target +ℤ pos 1; workers = p.workers ++ idle [] ∷ [] }
            ≡ q =
          ground arith in
        rw (← same) (grown refl (omega (arith, sum-hire w p.workers)) refl (refl, refl, refl, refl))
    | inr full ↦ absurd (ground arith)
  ]

  shrink-Change : step lib shrink p ≡ some q → Change w shrink p q
  unfolding step
  shrink-Change h = elim (Bool-cases (ltb_ℤ (pos 1) p.target)) [
    | inl room ↦
        let same : record p { target = p.target -ℤ pos 1 } ≡ q = ground arith in
        rw (← same) (shrunk refl refl refl (refl, refl, refl, refl))
    | inr low ↦ absurd (ground arith)
  ]

pub step-Change :
    (w : Weights) (lib : Library) (e : Event) (p q : Pool)
    → is_signal e ≡ false
    → step lib e p ≡ some q
    → Change w e p q
unfolding step
step-Change w lib submit p q s h = submit_next-Change w lib submit p q p.submitting refl h
step-Change w lib all_done p q s h = cc
step-Change w lib interrupt p q s h = cc
step-Change w lib grow p q s h = grow-Change w lib p q h
step-Change w lib shrink p q s h = shrink-Change w lib p q h
step-Change w lib (take_by i) p q s h = take_task-Change w lib (take_by i) p q i _ refl h
step-Change w lib (give_up_by i) p q s h = give_up-Change w lib (give_up_by i) p q i _ refl h
step-Change w lib (retire_by i) p q s h = retire-Change w lib (retire_by i) p q i _ refl h
step-Change w lib (requeue_by i) p q s h = requeue-Change w lib (requeue_by i) p q i _ refl h
step-Change w lib (fetched_by i o) p q s h =
    end_fetch-Change w lib (fetched_by i o) p q i o _ refl h

-- A signal changes `cancelled` alone.
pub step-signal :
    (lib : Library) (e : Event) (p q : Pool)
    → is_signal e ≡ true
    → step lib e p ≡ some q
    → q ≡ record p { cancelled = true }
unfolding step
step-signal lib submit p q s h = cc
step-signal lib all_done p q s h = ground arith
step-signal lib interrupt p q s h = ground arith
step-signal lib (take_by i) p q s h = cc
step-signal lib (give_up_by i) p q s h = cc
step-signal lib (retire_by i) p q s h = cc
step-signal lib grow p q s h = cc
step-signal lib shrink p q s h = cc
step-signal lib (requeue_by i) p q s h = cc
step-signal lib (fetched_by i o) p q s h = cc
