-- ===== src/Downloader/Ending.antt =====
-- What it means that every worker of Download has returned.
use oget.Prelude.{
  ℕ, ◌^◌, ◌<◌, ◌≤◌, ◌≡◌, refl, Bool, true, false, some, List, [], ◌∷◌, arith, length, Bool-cases,
  Option-cases, inl, inr, sym, ap, ◌∙◌, subst, ◌||◌,
}
use oget.Prelude.Int.{
  pos, pos_part, neg_part, ltb_ℤ, int32, int32_small, int32_below, increment, not_negative,
}
use oget.Prelude.Text.{Bytes}
use oget.Url.{Library}
use oget.Task.{ChunkTask}
use oget.Downloader.{
  Queues, Worker, idle, fetching, requeueing, leaving, returned, Pool, Event, submit, all_done,
  interrupt, grow, shrink, take_by, give_up_by, retire_by, requeue_by, fetched_by, active, step,
  run, start,
}
use oget.Downloader.Queues.{sum, total}
use oget.Downloader.Weigh.{
  Weights, worker_weight, weigh, Kept, Change, moved_in, taken, ended, retried, put_back, left,
  gone, grown, shrunk, is_signal, is_shrink, step-Change, step-signal,
}
use oget.Downloader.Invariant.{
  weigh-start, run_conserves, step_conserves, step_counts, held_and_done, of_call,
}

-- No event of the caller.
abbrev pub is_interrupt : Event → Bool
is_interrupt interrupt = true
is_interrupt e = false

abbrev pub interrupts : List Event → Bool
interrupts [] = false
interrupts (e ∷ es) = is_interrupt e || interrupts es

-- whether the auto-tuner lowers its target
abbrev pub shrinks : List Event → Bool
shrinks [] = false
shrinks (e ∷ es) = is_shrink e || shrinks es

-- the workers that have not returned
abbrev heads : Weights
heads = record {
  submitted = λ t. 0;
  queued = λ t. 0;
  fetched = λ t. 1;
  requeued = λ t. 1;
  free = 1;
  parting = 1;
}

-- those of them that have not decided to return
abbrev hands : Weights
hands = record heads { parting = 0 }

heads-active : (ws : List Worker) → sum (worker_weight heads) ws ≡ active ws
heads-active [] = refl
heads-active (idle c ∷ ws) = omega (arith, heads-active ws)
heads-active (fetching c t ∷ ws) = omega (arith, heads-active ws)
heads-active (requeueing c t ∷ ws) = omega (arith, heads-active ws)
heads-active (leaving ∷ ws) = omega (arith, heads-active ws)
heads-active (returned ∷ ws) = omega (arith, heads-active ws)

sum_nothing : (ts : List ChunkTask) → sum (λ (t : ChunkTask). 0) ts ≡ 0
sum_nothing [] = refl
sum_nothing (t ∷ ts) = omega (arith, sum_nothing ts)

total_nothing : (qs : Queues) → total (λ (t : ChunkTask). 0) qs ≡ 0
total_nothing [] = refl
total_nothing ((h, q) ∷ qs) = omega (arith, sum_nothing q, total_nothing qs)

weigh-heads : (p : Pool) → weigh heads p ≡ active p.workers
weigh-heads p =
    omega (arith, sum_nothing p.submitting, total_nothing p.queues, heads-active p.workers)

hands-le-heads : (ws : List Worker) → sum (worker_weight hands) ws ≤ sum (worker_weight heads) ws
hands-le-heads [] = omega arith
hands-le-heads (idle c ∷ ws) = omega (arith, hands-le-heads ws)
hands-le-heads (fetching c t ∷ ws) = omega (arith, hands-le-heads ws)
hands-le-heads (requeueing c t ∷ ws) = omega (arith, hands-le-heads ws)
hands-le-heads (leaving ∷ ws) = omega (arith, hands-le-heads ws)
hands-le-heads (returned ∷ ws) = omega (arith, hands-le-heads ws)

-- What holds while only tasksWg.Wait cancels the context, and the target does not fall: the workers
-- all run until then.
record IsLively (n : ℕ) (p : Pool) : Type 0 where
  counted : p.added ≡ n
  natural : neg_part p.target ≡ 0
  aimed : 0 < pos_part p.target
  manned : weigh heads p ≤ pos_part p.target
  full : p.cancelled ≡ false → weigh hands p ≡ pos_part p.target
  over : p.cancelled ≡ true → p.finished ≡ n

-- There are never more workers than the target.
Change-manned :
    (e : Event) (p q : Pool)
    → is_shrink e ≡ false
    → neg_part p.target ≡ 0
    → weigh heads p ≤ pos_part p.target
    → Change heads e p q
    → weigh heads q ≤ pos_part q.target
Change-manned e p q no_shrink z i (moved_in t w (d, k, (a, g, x))) = omega (arith, w, ap pos_part g)
Change-manned e p q no_shrink z i (taken t w (d, k, (a, g, x))) = omega (arith, w, ap pos_part g)
Change-manned e p q no_shrink z i (ended t w (b, d, k, (a, g, x))) = omega (arith, w, ap pos_part g)
Change-manned e p q no_shrink z i (retried t v r w (d, k, (a, g, x))) =
    omega (arith, w, ap pos_part g)
Change-manned e p q no_shrink z i (put_back t w (d, k, (a, g, x))) = omega (arith, w, ap pos_part g)
Change-manned e p q no_shrink z i (left r w (d, k, (a, g, x))) = omega (arith, w, ap pos_part g)
Change-manned e p q no_shrink z i (gone w (d, k, (a, g, x))) = omega (arith, w, ap pos_part g)
Change-manned e p q no_shrink z i (grown y w t k) =
    omega (arith, w, ap pos_part t, (increment p.target z).0)
Change-manned e p q no_shrink z i (shrunk y w t k) = cc

module _ (n : ℕ) (e : Event) (p q : Pool) (no_shrink : is_shrink e ≡ false) (i : IsLively n p)
    (m : weigh heads q ≤ pos_part q.target) where
  keeps-IsLively : weigh hands q ≡ weigh hands p → Kept p q → IsLively n q
  keeps-IsLively w (d, k, (a, t, x)) = record {
    counted = a ∙ i.counted;
    natural = ap neg_part t ∙ i.natural;
    aimed = omega (arith, ap pos_part t, i.aimed);
    manned = m;
    full = λ y. omega (arith, w, i.full (sym x ∙ y), ap pos_part t);
    over = λ y. d ∙ i.over (sym x ∙ y);
  }

  Change-IsLively : q.finished ≤ n → Change hands e p q → IsLively n q
  Change-IsLively f (moved_in t w k) = keeps-IsLively (omega (arith, w)) k
  Change-IsLively f (taken t w k) = keeps-IsLively (omega (arith, w)) k
  Change-IsLively f (ended t w (b, d, k, (a, g, x))) = record {
    counted = a ∙ i.counted;
    natural = ap neg_part g ∙ i.natural;
    aimed = omega (arith, ap pos_part g, i.aimed);
    manned = m;
    full = λ y. omega (arith, w, i.full (sym x ∙ y), ap pos_part g);
    over = λ y. absurd (omega (arith, d, i.over (sym x ∙ y)));
  }
  Change-IsLively f (retried t v r w k) = keeps-IsLively (omega (arith, w)) k
  Change-IsLively f (put_back t w k) = keeps-IsLively (omega (arith, w)) k
  Change-IsLively f (left (inl more) w k) = absurd (
      omega (
        arith,
        int32_below (active p.workers) (pos_part p.target) (
            subst (λ z. ltb_ℤ z (int32 (active p.workers)) ≡ true) (not_negative p.target i.natural)
              more),
        weigh-heads p,
        i.manned,
      ))
  Change-IsLively f (left (inr over) w (d, k, (a, g, x))) = record {
    counted = a ∙ i.counted;
    natural = ap neg_part g ∙ i.natural;
    aimed = omega (arith, ap pos_part g, i.aimed);
    manned = m;
    full = λ y. cc;
    over = λ y. d ∙ i.over over;
  }
  Change-IsLively f (gone w k) = keeps-IsLively (omega (arith, w)) k
  Change-IsLively f (grown y w t (d, k, a, x)) =
      let up = increment p.target i.natural in
      record {
        counted = a ∙ i.counted;
        natural = ap neg_part t ∙ up.1;
        aimed = omega (arith, ap pos_part t, up.0);
        manned = m;
        full = λ z. omega (arith, w, i.full (sym x ∙ z), ap pos_part t, up.0);
        over = λ z. d ∙ i.over (sym x ∙ z);
      }
  Change-IsLively f (shrunk y w t k) = cc

-- The wait group lets go only when every task is finished.
step-all_done :
    (lib : Library) (e : Event) (p q : Pool)
    → is_signal e ≡ true
    → is_interrupt e ≡ false
    → step lib e p ≡ some q
    → p.added ≡ p.finished
unfolding step
step-all_done lib submit p q s x h = cc
step-all_done lib all_done p q s x h = ground arith
step-all_done lib interrupt p q s x h = cc
step-all_done lib (take_by i) p q s x h = cc
step-all_done lib grow p q s x h = cc
step-all_done lib shrink p q s x h = cc
step-all_done lib (give_up_by i) p q s x h = cc
step-all_done lib (retire_by i) p q s x h = cc
step-all_done lib (requeue_by i) p q s x h = cc
step-all_done lib (fetched_by i o) p q s x h = cc

step-IsLively :
    (lib : Library) (n : ℕ) (e : Event) (p q : Pool)
    → is_interrupt e ≡ false
    → is_shrink e ≡ false
    → step lib e p ≡ some q
    → q.finished ≤ n
    → IsLively n p
    → IsLively n q
step-IsLively lib n e p q x y h f i = elim (Bool-cases (is_signal e)) [
  | inr s ↦
      Change-IsLively n e p q y i
        (Change-manned e p q y i.natural i.manned (step-Change heads lib e p q s h)) f
        (step-Change hands lib e p q s h)
  | inl s ↦ rw (step-signal lib e p q s h) (record {
    counted = i.counted;
    natural = i.natural;
    aimed = i.aimed;
    manned = i.manned;
    full = λ z. cc;
    over = λ z. sym (step-all_done lib e p q s x h) ∙ i.counted;
  })
]

one : Bytes → ℕ → ℕ
one file id = 1

sum-calls : (cs : List (Bytes × ℕ × Bool)) → sum (of_call one) cs ≡ length cs
unfolding one
sum-calls [] = refl
sum-calls ((file, id, failed) ∷ cs) = omega (arith, sum-calls cs)

-- the count of finished tasks, with what it is bounded by
abbrev Tallies : ℕ → Pool → Type 0
Tallies n p = (held_and_done one p ≡ n) × (length p.calls ≡ p.finished) × (p.added ≡ n)

run-IsLively :
    (lib : Library) (n : ℕ) (es : List Event) (p q : Pool)
    → interrupts es ≡ false
    → shrinks es ≡ false
    → run lib es p ≡ some q
    → Tallies n p
    → IsLively n p
    → IsLively n q
unfolding run
run-IsLively lib n [] p q x y h t i = subst (IsLively n) (cc) i
run-IsLively lib n (e ∷ es) p q x y h t i = elim (Option-cases (step lib e p)) [
  | inl none_there ↦ absurd (ground arith)
  | inr (r, there) ↦
      let w' = step_conserves one lib n e p r there t.0 in
      let k' = step_counts lib n e p r there (t.1, t.2) in
      run-IsLively lib n es r q (ground arith) (ground arith) (ground arith) (w', k'.0, k'.1)
        (step-IsLively lib n e p r (ground arith) (ground arith) there
          (omega (arith, w', k'.0, sum-calls r.calls)) i)
]

sum-one : (ts : List ChunkTask) → sum (λ (t : ChunkTask). one t.file_id t.chunk_id) ts ≡ length ts
unfolding one
sum-one [] = refl
sum-one (t ∷ ts) = omega (arith, sum-one ts)

start-IsLively :
    (lib : Library) (c m : ℕ) (ts : List ChunkTask)
    → 0 < c
    → c < 2 ^ 31
    → IsLively (length ts) (start lib c m ts)
start-IsLively lib c m ts some_worker in_range =
    let e : weigh heads (start lib c m ts) ≡ c =
      omega (arith, weigh-start heads lib c m ts, sum_nothing ts) in
    let e' : weigh hands (start lib c m ts) ≡ c =
      omega (arith, weigh-start hands lib c m ts, sum_nothing ts) in
    record {
      counted = unfold start in refl;
      natural = ap neg_part sized;
      aimed = omega (arith, ap pos_part sized);
      manned = omega (arith, e, ap pos_part sized);
      full = λ y. e' ∙ sym (ap pos_part sized);
      over = never;
    }
  where
    sized : (start lib c m ts).target ≡ pos c
    sized = unfold start in int32_small c in_range

    never : (start lib c m ts).cancelled ≡ true → (start lib c m ts).finished ≡ length ts
    never y = unfold start in cc

-- When every worker has returned, with at least one worker at the start and fewer than 2 ^ 31, no
-- cancellation by the caller, and an auto-tuner that never lowers its target, every task has been
-- finished.
pub run_ended :
    (lib : Library) (c m : ℕ) (ts : List ChunkTask) (es : List Event) (p : Pool)
    → run lib es (start lib c m ts) ≡ some p
    → interrupts es ≡ false
    → shrinks es ≡ false
    → 0 < c
    → c < 2 ^ 31
    → active p.workers ≡ 0
    → p.finished ≡ length ts
run_ended lib c m ts es p h x y some_worker in_range all_returned =
    let tallies : Tallies (length ts) (start lib c m ts) =
      let (f, k, j) = run_conserves lib c m ts [] (start lib c m ts) (unfold run in refl) in
      (f one ∙ sum-one ts, k, j) in
    let l =
      run-IsLively lib (length ts) es (start lib c m ts) p x y h tallies
        (start-IsLively lib c m ts some_worker in_range) in
    elim (Bool-cases p.cancelled) [
      | inl z ↦ l.over z
      | inr z ↦ absurd (
          omega (
            arith,
            l.full z,
            l.aimed,
            weigh-heads p,
            hands-le-heads p.workers,
            sum_nothing p.submitting,
            total_nothing p.queues,
          ))
    ]
