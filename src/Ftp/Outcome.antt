-- ===== src/Ftp/Outcome.antt =====
-- What FtpFetcher.Fetch leaves, whether it succeeds or fails.
use oget.Prelude.{
  ℕ, zero, suc, ◌≤◌, ◌≡◌, refl, Bool, Option, none, some, [], ◌∷◌, ◌++◌, arith, ltb, ◌==◌,
  if◌then◌else◌, length, Bool-cases, Option-cases, inl, inr, ap, subst, ◌⊎◌, ◌∙◌,
}
use oget.Prelude.Int.{pos}
use oget.Prelude.Text.{Bytes}
use native.Mathlib.Nat.{add-zero}
use oget.File.{write_at, Alike}
use oget.Reader.{Reader, stream}
use oget.Storage.{Storage, contents}
use oget.Task.{ChunkTask}
use oget.Url.{Library}
use oget.Fetch.{FetchError, request_failed, cancelled, Fetched, Exit, broke, returned, Run, refused}
use oget.Fetch.Round.{
  Holds, LoopSpec, transfer, next_run, stop-LoopSpec, compose-LoopSpec, error-LoopSpec,
  transfer-TransferSpec, before_end, at_end,
}
use oget.Ftp.{Connection, ftp_leave, ftp_loop, ftp_conclude, ftp_begin, retrieve, ftp_fetch}

module _ (done : ℕ → Bool) (t : ChunkTask) (n : ℕ) (sized : t.length ≡ pos n) where
  -- A round that leaves the loop without an error has lost nothing.
  quiet-LoopSpec :
      (run : Run)
      → run.written ≤ n
      → (transfer done t n sized run).error ≡ none
      → LoopSpec done t n sized run (broke, next_run done t n sized run)
  quiet-LoopSpec run h e =
      compose-LoopSpec done t n sized run h e (some (broke, next_run done t n sized run))
        (stop-LoopSpec done t n sized (next_run done t n sized run) broke)

  ftp_loop-LoopSpec :
      (k i : ℕ) (run : Run)
      → run.written ≤ n
      → Holds (LoopSpec done t n sized run) (ftp_loop done t k i run)
  unfolding ftp_loop
  ftp_loop-LoopSpec zero i run h = tt
  ftp_loop-LoopSpec (suc k) i run h =
      let x = transfer done t n sized run in
      let a = transfer-TransferSpec done t n sized run h in
      elim (Bool-cases (done i)) [
        | inl d ↦ rw d (stop-LoopSpec done t n sized run (returned cancelled))
        | inr d ↦ elim (Bool-cases (ltb run.written n)) [
          | inr full ↦
              rw (d, at_end done t n sized run (ground arith) h)
                (stop-LoopSpec done t n sized run broke)
          | inl room ↦
              let more = before_end done t n sized run (ground arith) in
              elim (Option-cases x.error) [
                | inr (e, ended) ↦
                    rw (d, more, ended)
                      (error-LoopSpec done t n sized run e (ftp_leave e) h ended (λ y. rw y refl))
                | inl goes_on ↦ elim (Bool-cases (x.n == 0)) [
                  | inl idle ↦ rw (d, more, goes_on, idle) (quiet-LoopSpec run h goes_on)
                  | inr busy ↦
                      rw (d, more, goes_on, busy)
                        (compose-LoopSpec done t n sized run h goes_on
                          (ftp_loop done t k (suc i) (next_run done t n sized run))
                          (ftp_loop-LoopSpec k (suc i) (next_run done t n sized run)
                            (omega (arith, a.counted, a.bounded))))
                ]
              ]
        ]
      ]

-- The outcome of Fetch on the body that the server gives: `got` is a prefix of the body and has been
-- written from the offset of the task on, within the chunk; the task is as it was; OnChunkComplete
-- is called on success only, without a checksum, and success means that the chunk is whole.
pub record FtpSpec (t : ChunkTask) (n : ℕ) (s : Storage) (body : Reader) (o : Fetched)
    : Type 0 where
  pub got : Bytes
  pub rest : Bytes
  pub spelled : got ++ rest ≡ stream body
  pub wrote : Alike (contents o.storage) (write_at (contents s) t.offset got)
  pub within : length got ≤ n
  pub same_task : o.task ≡ t
  pub failed_silent : (e : FetchError) → o.failure ≡ some e → o.completed ≡ []
  pub succeeded_whole : o.failure ≡ none → length got ≡ n
  pub succeeded_once :
      o.failure ≡ none → o.completed ≡ (if t.on_chunk_complete then (t.chunk_id, []) ∷ [] else [])

module _ (t : ChunkTask) (n : ℕ) (sized : t.length ≡ pos n) where
  storage-ftp_conclude : (out : Exit × Run) → (ftp_conclude t out).storage ≡ out.1.storage
  unfolding ftp_conclude
  storage-ftp_conclude (returned e, run) = refl
  storage-ftp_conclude (broke, run) = ground arith

  ftp_conclude-FtpSpec :
      (done : ℕ → Bool) (s : Storage) (body : Reader) (out : Exit × Run)
      → LoopSpec done t n sized (ftp_begin s body) out
      → FtpSpec t n s body (ftp_conclude t out)
  unfolding ftp_conclude
  ftp_conclude-FtpSpec done s body (returned e, run) a = record {
    got = a.got;
    rest = a.lost ++ stream run.body;
    spelled = a.spelled;
    wrote =
        subst (λ o. Alike (contents run.storage) (write_at (contents s) o a.got))
          (add-zero t.offset) a.wrote;
    within = omega (arith, a.bounded (omega arith));
    same_task = refl;
    failed_silent = λ e' x. refl;
    succeeded_whole = λ x. cc;
    succeeded_once = λ x. cc;
  }
  ftp_conclude-FtpSpec done s body (broke, run) a = record {
    got = a.got;
    rest = a.lost ++ stream run.body;
    spelled = a.spelled;
    wrote = λ i.
        ap (λ st. (contents st).byte i) (storage-ftp_conclude (broke, run))
        ∙ subst (λ o. Alike (contents run.storage) (write_at (contents s) o a.got))
            (add-zero t.offset) a.wrote i;
    within = omega (arith, a.bounded (omega arith));
    same_task = ground arith;
    failed_silent = λ e' x. ground arith;
    succeeded_whole = λ x. ground (arith, a.counted, a.bounded (omega arith), sized);
    succeeded_once = λ x. ground arith;
  }

  -- what a returned Fetch amounts to
  pub ftp_fetch-FtpSpec :
      (lib : Library) (dial : Bytes → Option Connection) (done : ℕ → Bool) (fuel : ℕ) (s : Storage)
      (o : Fetched)
      → ftp_fetch lib dial done fuel s t ≡ some o
      → (o ≡ refused t s request_failed)
        ⊎ ((body : Reader) × (retrieve lib dial t ≡ some body) × FtpSpec t n s body o)
  unfolding ftp_fetch
  ftp_fetch-FtpSpec lib dial done fuel s o e = elim (Option-cases (retrieve lib dial t)) [
    | inl c ↦ inl (ground arith)
    | inr (body, c) ↦ elim (Option-cases (ftp_loop done t fuel 0 (ftp_begin s body))) [
      | inl l ↦ absurd (ground arith)
      | inr (out, l) ↦
          let same : ftp_conclude t out ≡ o = ground arith in
          inr (
            body,
            c,
            subst (FtpSpec t n s body) same (
                ftp_conclude-FtpSpec done s body out (
                  subst (Holds (LoopSpec done t n sized (ftp_begin s body))) l
                    (ftp_loop-LoopSpec done t n sized fuel 0 (ftp_begin s body) (omega arith)))),
          )
    ]
  ]
