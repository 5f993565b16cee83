-- ===== src/Downloader/Deadlock.antt =====
-- The states in which Download waits for ever.
use oget.Prelude.{
  ℕ, ◌≡◌, refl, true, false, Option, none, some, List, [], ◌∷◌, arith, get_or, Bool-cases,
  Option-cases, inl, inr, ◌⊎◌, subst, sym, ◌∙◌,
}
use oget.Prelude.Int.{pos, ◌-ℤ◌}
use oget.Prelude.Text.{Bytes}
use oget.Url.{Library}
use oget.Task.{ChunkTask}
use oget.Downloader.{
  Worker, idle, fetching, requeueing, leaving, returned, Pool, Event, submit, all_done, interrupt,
  grow, shrink, take_by, give_up_by, retire_by, requeue_by, fetched_by, send, host_of, step, run,
  submit_next, take_task, end_fetch, requeue, give_up, retire,
}
use oget.Downloader.Weigh.{is_signal, is_shrink, is_tuning, step-signal}
use oget.Downloader.Bounds.{moves, grows}

-- A worker that waits to put a task back into the queue of a host, or that has returned.
abbrev pub Waits : Library → Bytes → Worker → Type 0
Waits lib h (requeueing current t) = host_of lib t.url ≡ h
Waits lib h returned = Unit
Waits lib h leaving = true ≡ false
Waits lib h (idle current) = true ≡ false
Waits lib h (fetching current t) = true ≡ false

-- The queue of the host takes nothing, and everyone who is left wants to send to it.
pub record IsStuck (lib : Library) (h : Bytes) (p : Pool) : Type 0 where
  pub full : (t : ChunkTask) → send h t p.queues ≡ none
  pub waiting : (i : ℕ) → Waits lib h (get_or p.workers i returned)
  pub sender : (p.submitting ≡ []) ⊎ (p.host ≡ h)

module _ (lib : Library) (h : Bytes) (p : Pool) (s : IsStuck lib h p) where
  submit_stuck : (ts : List ChunkTask) → p.submitting ≡ ts → submit_next p ts ≡ none
  unfolding submit_next
  submit_stuck [] e = refl
  submit_stuck (t ∷ ts) e = elim s.sender [
    | inl nothing ↦ cc
    | inr same ↦ ground (arith, subst (λ k. send k t p.queues ≡ none) (sym same) (s.full t))
  ]

  module _ (i : ℕ) where
    take_stuck : (x : Worker) → Waits lib h x → take_task p i x ≡ none
    unfolding take_task
    take_stuck (idle c) w = cc
    take_stuck (fetching c t) w = refl
    take_stuck (requeueing c t) w = refl
    take_stuck leaving w = refl
    take_stuck returned w = refl

    end_stuck : (o : Option ℕ) (x : Worker) → Waits lib h x → end_fetch lib o p i x ≡ none
    unfolding end_fetch
    end_stuck o (idle c) w = cc
    end_stuck o (fetching c t) w = cc
    end_stuck none (requeueing c t) w = refl
    end_stuck (some v) (requeueing c t) w = refl
    end_stuck none leaving w = refl
    end_stuck (some v) leaving w = refl
    end_stuck none returned w = refl
    end_stuck (some v) returned w = refl

    requeue_stuck : (x : Worker) → Waits lib h x → requeue lib p i x ≡ none
    unfolding requeue
    requeue_stuck (idle c) w = cc
    requeue_stuck (fetching c t) w = cc
    requeue_stuck (requeueing c t) w =
        ground (arith, subst (λ k. send k t p.queues ≡ none) (sym w) (s.full t))
    requeue_stuck leaving w = refl
    requeue_stuck returned w = refl

    give_up_stuck : (x : Worker) → Waits lib h x → give_up p i x ≡ none
    unfolding give_up
    give_up_stuck (idle c) w = cc
    give_up_stuck (fetching c t) w = cc
    give_up_stuck (requeueing c t) w = refl
    give_up_stuck leaving w = refl
    give_up_stuck returned w = refl

    retire_stuck : (x : Worker) → Waits lib h x → retire p i x ≡ none
    unfolding retire
    retire_stuck (idle c) w = cc
    retire_stuck (fetching c t) w = cc
    retire_stuck (requeueing c t) w = refl
    retire_stuck leaving w = cc
    retire_stuck returned w = refl

  step_stuck : (e : Event) → is_signal e ≡ false → is_tuning e ≡ false → step lib e p ≡ none
  unfolding step
  step_stuck submit x y = submit_stuck p.submitting refl
  step_stuck all_done x y = cc
  step_stuck interrupt x y = cc
  step_stuck grow x y = cc
  step_stuck shrink x y = cc
  step_stuck (take_by i) x y = take_stuck i _ (s.waiting i)
  step_stuck (give_up_by i) x y = give_up_stuck i _ (s.waiting i)
  step_stuck (retire_by i) x y = retire_stuck i _ (s.waiting i)
  step_stuck (requeue_by i) x y = requeue_stuck i _ (s.waiting i)
  step_stuck (fetched_by i o) x y = end_stuck i o _ (s.waiting i)

-- A lower target changes nothing else.
step-shrink :
    (lib : Library) (e : Event) (p q : Pool)
    → is_shrink e ≡ true
    → step lib e p ≡ some q
    → q ≡ record p { target = p.target -ℤ pos 1 }
unfolding step
step-shrink lib submit p q s h = cc
step-shrink lib all_done p q s h = cc
step-shrink lib interrupt p q s h = cc
step-shrink lib grow p q s h = cc
step-shrink lib shrink p q s h = ground arith
step-shrink lib (take_by i) p q s h = cc
step-shrink lib (give_up_by i) p q s h = cc
step-shrink lib (retire_by i) p q s h = cc
step-shrink lib (requeue_by i) p q s h = cc
step-shrink lib (fetched_by i o) p q s h = cc

-- Where the queue of a host is full, and every worker that has not returned waits to put a task back
-- into it, and so does the loop that submits the tasks unless it is done: no event but a
-- cancellation or a decision of the auto-tuner can happen any more, and unless the auto-tuner starts
-- a worker no further task is ever finished.
pub run_stuck :
    (lib : Library) (h : Bytes) (es : List Event) (p q : Pool)
    → IsStuck lib h p
    → grows es ≡ 0
    → run lib es p ≡ some q
    → (moves es ≡ 0) × (q.finished ≡ p.finished)
unfolding run
run_stuck lib h [] p q s g e = (refl, cc)
run_stuck lib h (x ∷ es) p q s g e = elim (Option-cases (step lib x p)) [
  | inl no_step ↦ absurd (ground arith)
  | inr (r, there) ↦
      let rest =
        λ (kept : IsStuck lib h r). run_stuck lib h es r q kept (omega arith) (ground arith) in
      elim (Bool-cases (is_signal x)) [
        | inl signal ↦
            let same = step-signal lib x p r signal there in
            let (m, f) =
              rest (rw same (record { full = s.full; waiting = s.waiting; sender = s.sender })) in
            (ground (arith, m), f ∙ rw same refl)
        | inr move ↦ elim (Bool-cases (is_shrink x)) [
          | inl lower ↦
              let same = step-shrink lib x p r lower there in
              let (m, f) =
                rest (rw same (record { full = s.full; waiting = s.waiting; sender = s.sender })) in
              (ground (arith, m), f ∙ rw same refl)
          | inr still ↦ absurd (ground (arith, step_stuck lib h p s x move))
        ]
      ]
]
