-- ===== src/Fetch/Round.antt =====
-- The loop of Fetch, round by round: where the length is known, it writes a prefix of the body
-- behind what an earlier attempt wrote, and never past the chunk.
use oget.Prelude.{
  ℕ, zero, suc, ◌+◌, ◌-◌, ◌≤◌, ◌<◌, ◌≡◌, ◌≢◌, refl, Bool, true, false, not, ◌&&◌, Option, none,
  some, ◌++◌, arith, ltb, length, append_assoc, append-nil, length-append, Bool-cases, Option-cases,
  inl, inr, ap, sym, subst, ◌∙◌,
}
use oget.Prelude.Int.{pos, pos_part, leb_ℤ, ◌-ℤ◌}
use oget.Prelude.Text.{Bytes}
use native.Mathlib.Nat.{add-zero}
use oget.File.{File, write_at, Alike, Alike-write_at-append}
use oget.Reader.{IoError, disk_full, Reader, stream}
use oget.Storage.{contents, Transfer, read_at_from}
use oget.Storage.Reads.{TransferSpec, idle-TransferSpec}
use oget.Storage.Loops.{read_at_from-TransferSpec}
use oget.Task.{ChunkTask}
use oget.Fetch.{
  cancelled, io, Exit, broke, returned, Run, run_after, fetch_loop, remaining, is_until_eof, leave,
}

-- What the end of the loop amounts to, as one transfer.
abbrev pub error_of : Exit → Option IoError
error_of broke = none
error_of (returned (io e)) = some e
error_of (returned e) = none

abbrev pub transfer_of : Exit × Run → Transfer
transfer_of (e, run) = record {
  n = run.written;
  error = error_of e;
  storage = run.storage;
  reader = run.body;
}

abbrev pub Holds {ℓ κ} : {A : Type ℓ} → (A → Type κ) → Option A → Type κ
Holds P none = Unit
Holds P (some a) = P a

-- A transfer that loses nothing, and one that goes on behind it, are one transfer.
pub trans-TransferSpec :
    (f : File) (off total count left : ℕ) (r : Reader) (x t : Transfer)
    → left + total ≤ count
    → TransferSpec f (off + total) 0 left r x
    → x.error ≢ some disk_full
    → TransferSpec (contents x.storage) off (total + x.n) count x.reader t
    → TransferSpec f off total count r t
trans-TransferSpec f off total count left r x t h a d b =
    let none_lost = a.kept_all d in
    let all_read : a.got ++ stream x.reader ≡ stream r =
      ap (λ (l : Bytes). a.got ++ (l ++ stream x.reader)) (sym none_lost) ∙ a.spelled in
    let all_seen : x.reader.seen ≡ r.seen ++ a.got =
      a.seen
      ∙ ap (λ (l : Bytes). r.seen ++ (a.got ++ l)) none_lost
      ∙ ap (λ y. r.seen ++ y) (append-nil a.got) in
    let joint : off + (total + x.n) ≡ off + total + length a.got = omega (arith, a.counted) in
    record {
      got = a.got ++ b.got;
      lost = b.lost;
      counted = omega (arith, a.counted, b.counted, length-append a.got b.got);
      bounded = λ _.
          omega (arith, a.counted, a.bounded (omega arith), b.bounded, length-append a.got b.got);
      spelled =
          append_assoc a.got b.got (b.lost ++ stream t.reader)
          ∙ ap (λ y. a.got ++ y) b.spelled
          ∙ all_read;
      seen =
          b.seen
          ∙ ap (λ y. y ++ (b.got ++ b.lost)) all_seen
          ∙ append_assoc r.seen a.got (b.got ++ b.lost)
          ∙ ap (λ y. r.seen ++ y) (sym (append_assoc a.got b.got b.lost));
      same_last = b.same_last ∙ a.same_last;
      same_early = b.same_early ∙ a.same_early;
      wrote =
          Alike-write_at-append f (contents x.storage) (contents t.storage) (off + total) a.got
            b.got
            (subst (λ o. Alike (contents x.storage) (write_at f o a.got)) (add-zero (off + total))
              a.wrote)
            (subst (λ o. Alike (contents t.storage) (write_at (contents x.storage) o b.got)) joint
              b.wrote);
      kept_all = b.kept_all;
    }

pub remaining_known :
    (t : ChunkTask) (n w : ℕ) → t.length ≡ pos n → w ≤ n → remaining t w ≡ pos (n - w)
unfolding remaining ◌-ℤ◌
remaining_known t n w e h = rw e (ground arith)

known : (t : ChunkTask) (n : ℕ) → t.length ≡ pos n → is_until_eof t ≡ false
known t n e = rw e (ground arith)

module _ (done : ℕ → Bool) (t : ChunkTask) (n : ℕ) (sized : t.length ≡ pos n) where
  -- the transfer of one round, and the run behind it
  abbrev pub transfer : Run → Transfer
  transfer run =
      read_at_from run.storage run.body (t.offset + run.written)
        (pos_part (remaining t run.written))

  abbrev pub next_run : Run → Run
  next_run run = run_after t run (transfer run)

  pub before_end :
      (run : Run)
      → run.written < n
      → (leb_ℤ (remaining t run.written) (pos 0) && not (is_until_eof t)) ≡ false
  before_end run h = rw (remaining_known t n run.written sized (omega arith)) (ground arith)

  pub at_end :
      (run : Run)
      → n ≤ run.written
      → run.written ≤ n
      → (leb_ℤ (remaining t run.written) (pos 0) && not (is_until_eof t)) ≡ true
  at_end run h h' = rw (remaining_known t n run.written sized h', known t n sized) (ground arith)

  module _ (k i : ℕ) (run : Run) where
    pub round_cancelled :
        done i ≡ true → fetch_loop done t (suc k) i run ≡ some (returned cancelled, run)
    unfolding fetch_loop
    round_cancelled d = rw d

    pub round_full :
        done i ≡ false → run.written ≡ n → fetch_loop done t (suc k) i run ≡ some (broke, run)
    unfolding fetch_loop
    round_full d w = rw (d, at_end run (omega arith) (omega arith))

    pub round_error :
        (e : IoError)
        → done i ≡ false
        → run.written < n
        → (transfer run).error ≡ some e
        → fetch_loop done t (suc k) i run ≡ some (leave e, next_run run)
    unfolding fetch_loop
    round_error e d w x = rw (d, before_end run w, x)

    pub round_more :
        done i ≡ false
        → run.written < n
        → (transfer run).error ≡ none
        → fetch_loop done t (suc k) i run ≡ fetch_loop done t k (suc i) (next_run run)
    unfolding fetch_loop
    round_more d w x = rw (d, before_end run w, x)

  abbrev pub LoopSpec : Run → Exit × Run → Type 0
  LoopSpec run out =
      TransferSpec (contents run.storage) t.offset run.written n run.body (transfer_of out)

  -- Nothing is read in a round that leaves the loop at once.
  pub stop-LoopSpec : (run : Run) (e : Exit) → LoopSpec run (e, run)
  stop-LoopSpec run e =
      idle-TransferSpec (contents run.storage) t.offset run.written n run.body
        (transfer_of (e, run)) refl refl refl

  pub transfer-TransferSpec :
      (run : Run)
      → run.written ≤ n
      → TransferSpec
          (contents run.storage)
          (t.offset + run.written)
          0
          (n - run.written)
          run.body
          (transfer run)
  transfer-TransferSpec run h =
      subst
        (λ c.
          TransferSpec (contents run.storage) (t.offset + run.written) 0 c run.body (transfer run))
        (ap pos_part (remaining_known t n run.written sized h))
        (read_at_from-TransferSpec run.storage run.body (t.offset + run.written) _)

  -- A round with an error, after which the loop is left as `out`.
  pub error-LoopSpec :
      (run : Run) (e : IoError) (out : Exit)
      → run.written ≤ n
      → (transfer run).error ≡ some e
      → (e ≡ disk_full → error_of out ≡ some disk_full)
      → LoopSpec run (out, next_run run)
  error-LoopSpec run e out h x full =
      let a = transfer-TransferSpec run h in
      record {
        got = a.got;
        lost = a.lost;
        counted = omega (arith, a.counted);
        bounded = λ _. omega (arith, a.bounded (omega arith));
        spelled = a.spelled;
        seen = a.seen;
        same_last = a.same_last;
        same_early = a.same_early;
        wrote =
            subst
              (λ o.
                Alike (contents (transfer run).storage) (write_at (contents run.storage) o a.got))
              (add-zero (t.offset + run.written)) a.wrote;
        kept_all = λ d. a.kept_all (λ y. d (full (cc)));
      }

  -- A round without an error, and what the loop does behind it.
  pub compose-LoopSpec :
      (run : Run)
      → run.written ≤ n
      → (transfer run).error ≡ none
      → (o : Option (Exit × Run)) → Holds (LoopSpec (next_run run)) o
      → Holds (LoopSpec run) o
  compose-LoopSpec run h e none s = tt
  compose-LoopSpec run h e (some out) s =
      trans-TransferSpec (contents run.storage) t.offset run.written n (n - run.written) run.body
        (transfer run) (transfer_of out) (omega arith) (transfer-TransferSpec run h) (λ y. cc) s

  pub fetch_loop-LoopSpec :
      (k i : ℕ) (run : Run) → run.written ≤ n → Holds (LoopSpec run) (fetch_loop done t k i run)
  fetch_loop-LoopSpec zero i run h = unfold fetch_loop in tt
  fetch_loop-LoopSpec (suc k) i run h =
      let x = transfer run in
      let a = transfer-TransferSpec run h in
      elim (Bool-cases (done i)) [
        | inl d ↦ rw (round_cancelled k i run d) (stop-LoopSpec run (returned cancelled))
        | inr d ↦ elim (Bool-cases (ltb run.written n)) [
          | inr full ↦ rw (round_full k i run d (ground arith)) (stop-LoopSpec run broke)
          | inl room ↦ elim (Option-cases x.error) [
            | inr (e, ended) ↦
                rw (round_error k i run e d (ground arith) ended)
                  (error-LoopSpec run e (leave e) h ended (λ y. rw y))
            | inl goes_on ↦ rw (round_more k i run d (ground arith) goes_on) (
                compose-LoopSpec run h goes_on (fetch_loop done t k (suc i) (next_run run)) (
                  fetch_loop-LoopSpec k (suc i) (next_run run)
                    (omega (arith, a.counted, a.bounded))))
          ]
        ]
      ]
