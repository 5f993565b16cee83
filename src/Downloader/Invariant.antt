-- ===== src/Downloader/Invariant.antt =====
-- What holds in every state that Download can reach: no task is lost, and none is done twice.
use oget.Prelude.{
  ℕ, zero, suc, ◌+◌, ◌*◌, ◌≡◌, refl, Bool, some, List, [], ◌∷◌, arith, length, length-append,
  replicate, Bool-cases, Option-cases, inl, inr, sym, ap, ◌∙◌, subst,
}
use oget.Prelude.Text.{Bytes}
use oget.Url.{Library}
use oget.Task.{ChunkTask}
use oget.Downloader.{idle, Pool, Event, step, run, start, host_of, first_queues}
use oget.Downloader.Queues.{sum, sum-append, total, total-get_host_queue}
use oget.Downloader.Weigh.{
  Weights, worker_weight, weigh, moved_in, taken, ended, retried, put_back, left, gone, grown,
  shrunk, is_signal, step-Change, step-signal,
}

-- What every step keeps, a run keeps.
pub run_keeps :
    (P : Pool → Type 0) (lib : Library)
    → ((e : Event) (p q : Pool) → step lib e p ≡ some q → P p → P q)
    → (es : List Event) (p q : Pool) → run lib es p ≡ some q
    → P p
    → P q
unfolding run
run_keeps P lib s [] p q h i = subst P (cc) i
run_keeps P lib s (e ∷ es) p q h i = elim (Option-cases (step lib e p)) [
  | inl n ↦ absurd (ground arith)
  | inr (r, n) ↦ run_keeps P lib s es r q (ground arith) (s e p r n i)
]

-- Each task counts the same wherever it is, by its file and its chunk.
abbrev pub everywhere : (Bytes → ℕ → ℕ) → Weights
everywhere f = record {
  submitted = λ t. f t.file_id t.chunk_id;
  queued = λ t. f t.file_id t.chunk_id;
  fetched = λ t. f t.file_id t.chunk_id;
  requeued = λ t. f t.file_id t.chunk_id;
  free = 0;
  parting = 0;
}

abbrev pub of_call : (Bytes → ℕ → ℕ) → Bytes × ℕ × Bool → ℕ
of_call f (file, id, failed) = f file id

-- the tasks that are in the machine, and those that have been completed
abbrev pub held_and_done : (Bytes → ℕ → ℕ) → Pool → ℕ
held_and_done f p = weigh (everywhere f) p + sum (of_call f) p.calls

pub step_conserves :
    (f : Bytes → ℕ → ℕ) (lib : Library) (n : ℕ) (e : Event) (p q : Pool)
    → step lib e p ≡ some q
    → held_and_done f p ≡ n
    → held_and_done f q ≡ n
step_conserves f lib n e p q h i = elim (Bool-cases (is_signal e)) [
  | inl s ↦ rw (step-signal lib e p q s h) i
  | inr s ↦ elim (step-Change (everywhere f) lib e p q s h) [
    | moved_in t w (d, c, s) ↦ rw c (omega (arith, w))
    | taken t w (d, c, s) ↦ rw c (omega (arith, w))
    | ended t w (b, d, c, s) ↦
        rw c (omega (arith, w, sum-append (of_call f) p.calls ((t.file_id, t.chunk_id, b) ∷ [])))
    | retried t v r w (d, c, s) ↦ rw c (omega (arith, w))
    | put_back t w (d, c, s) ↦ rw c (omega (arith, w))
    | left r w (d, c, s) ↦ rw c (omega (arith, w))
    | gone w (d, c, s) ↦ rw c (omega (arith, w))
    | grown g w t (d, c, x, y) ↦ rw c (omega (arith, w))
    | shrunk g w t (d, c, x, y) ↦ rw c (omega (arith, w))
  ]
]

-- The count of tasksWg is right, and never negative.
pub step_counts :
    (lib : Library) (n : ℕ) (e : Event) (p q : Pool)
    → step lib e p ≡ some q
    → (length p.calls ≡ p.finished) × (p.added ≡ n)
    → (length q.calls ≡ q.finished) × (q.added ≡ n)
step_counts lib n e p q h (a, b) = elim (Bool-cases (is_signal e)) [
  | inl s ↦ rw (step-signal lib e p q s h) (a, b)
  | inr s ↦ elim (step-Change (everywhere (λ file id. 0)) lib e p q s h) [
    | moved_in t w (d, c, s) ↦ (ap length c ∙ a ∙ sym d, s.0 ∙ b)
    | taken t w (d, c, s) ↦ (ap length c ∙ a ∙ sym d, s.0 ∙ b)
    | ended t w (o, d, c, s) ↦ (
      rw (c, d) (omega (arith, a, length-append p.calls ((t.file_id, t.chunk_id, o) ∷ []))),
      s.0 ∙ b,
    )
    | retried t v r w (d, c, s) ↦ (ap length c ∙ a ∙ sym d, s.0 ∙ b)
    | put_back t w (d, c, s) ↦ (ap length c ∙ a ∙ sym d, s.0 ∙ b)
    | left r w (d, c, s) ↦ (ap length c ∙ a ∙ sym d, s.0 ∙ b)
    | gone w (d, c, s) ↦ (ap length c ∙ a ∙ sym d, s.0 ∙ b)
    | grown g w t (d, c, x, y) ↦ (ap length c ∙ a ∙ sym d, x ∙ b)
    | shrunk g w t (d, c, x, y) ↦ (ap length c ∙ a ∙ sym d, x ∙ b)
  ]
]

total-first_queues :
    (f : ChunkTask → ℕ) (lib : Library) (ts : List ChunkTask) → total f (first_queues lib ts) ≡ 0
total-first_queues f lib [] = refl
total-first_queues f lib (t ∷ ts) = total-get_host_queue f (host_of lib t.url) []

sum-replicate_idle :
    (w : Weights) (n : ℕ) → sum (worker_weight w) (replicate n (idle [])) ≡ n * w.free
sum-replicate_idle w zero = omega arith
sum-replicate_idle w (suc n) = ground (arith, sum-replicate_idle w n)

-- What the machine weighs when Download begins.
pub weigh-start :
    (w : Weights) (lib : Library) (c m : ℕ) (ts : List ChunkTask)
    → weigh w (start lib c m ts) ≡ sum w.submitted ts + c * w.free
unfolding start
weigh-start w lib c m ts = omega (arith, total-first_queues w.queued lib ts, sum-replicate_idle w c)

-- However the workers interleave, whatever fails and whatever the auto-tuner does: for every way f to count chunks, the tasks that
-- are still to be sent, queued, with a worker or completed count as much as the tasks that Download
-- began with. No task is lost, and none is completed twice. The counter of tasksWg is the number
-- of tasks less the calls of OnChunkComplete.
pub run_conserves :
    (lib : Library) (c m : ℕ) (ts : List ChunkTask) (es : List Event) (p : Pool)
    → run lib es (start lib c m ts) ≡ some p
    → ((f : Bytes → ℕ → ℕ) → held_and_done f p ≡ sum (λ t. f t.file_id t.chunk_id) ts)
      × (length p.calls ≡ p.finished)
      × (p.added ≡ length ts)
run_conserves lib c m ts es p h =
    let counts =
      run_keeps _ lib (step_counts lib (length ts)) es (start lib c m ts) p h
        (unfold start in (refl, refl)) in
    (
      λ f.
          run_keeps _ lib (step_conserves f lib (sum (λ t. f t.file_id t.chunk_id) ts)) es
            (start lib c m ts) p h (begins f),
      counts.0,
      counts.1,
    )
  where
    calls-start : (start lib c m ts).calls ≡ []
    calls-start = unfold start in refl

    begins :
        (f : Bytes → ℕ → ℕ)
        → held_and_done f (start lib c m ts) ≡ sum (λ t. f t.file_id t.chunk_id) ts
    begins f = rw calls-start (omega (arith, weigh-start (everywhere f) lib c m ts))
