-- ===== src/Ftp/Returns.antt =====
-- Why FtpFetcher.Fetch returns.
use oget.Prelude.{
  ℕ, zero, suc, ◌+◌, ◌<◌, ◌≡◌, refl, Bool, not, ◌&&◌, Option, none, some, ◌++◌, arith, length,
  length-append, ◌==◌, Bool-cases, Option-cases, inl, inr, ap, ◌⊎◌,
}
use oget.Prelude.Int.{pos, pos_part, leb_ℤ}
use oget.Prelude.Text.{Bytes}
use oget.Reader.{Reader, stream}
use oget.Storage.{Storage, Transfer, read_at_from}
use oget.Storage.Loops.{read_at_from-TransferSpec}
use oget.Task.{ChunkTask}
use oget.Url.{Library}
use oget.Fetch.{
  request_failed, Fetched, Exit, broke, returned, cancelled, Run, refused, remaining, is_until_eof,
  run_after,
}
use oget.Ftp.{Connection, ftp_leave, ftp_loop, ftp_conclude, ftp_begin, retrieve, ftp_fetch}
use oget.Ftp.Outcome.{FtpSpec, ftp_fetch-FtpSpec}

-- A transfer without an error shortens the reader by what it wrote.
length-read_at_from :
    (s : Storage) (r : Reader) (off count : ℕ)
    → let x = read_at_from s r off count in
      x.error ≡ none → x.n + length (stream x.reader) ≡ length (stream r)
length-read_at_from s r off count e =
    let a = read_at_from-TransferSpec s r off count in
    let x = read_at_from s r off count in
    let none_lost = ap (length {A = ℕ}) (a.kept_all (λ y. cc)) in
    omega (
      arith,
      a.counted,
      none_lost,
      ap (length {A = ℕ}) a.spelled,
      length-append a.got (a.lost ++ stream x.reader),
      length-append a.lost (stream x.reader),
    )

module _ (done : ℕ → Bool) (t : ChunkTask) where
  ftp_loop_returns :
      (k i : ℕ) (run : Run)
      → length (stream run.body) < k
      → (out : Exit × Run) × (ftp_loop done t k i run ≡ some out)
  unfolding ftp_loop
  ftp_loop_returns zero i run h = absurd (omega arith)
  ftp_loop_returns (suc k) i run h =
      let x : Transfer =
        read_at_from run.storage run.body (t.offset + run.written)
          (pos_part (remaining t run.written)) in
      elim (Bool-cases (done i)) [
        | inl d ↦ ((returned cancelled, run), rw (d, ftp_loop) refl)
        | inr d ↦
            elim (Bool-cases (leb_ℤ (remaining t run.written) (pos 0) && not (is_until_eof t))) [
              | inl full ↦ ((broke, run), rw (d, ftp_loop) (rw full refl))
              | inr more ↦ elim (Option-cases x.error) [
                | inr (e, ended) ↦
                    ((ftp_leave e, run_after t run x), rw (d, ftp_loop) (rw (more, ended) refl))
                | inl goes_on ↦ elim (Bool-cases (x.n == 0)) [
                  | inl idle ↦
                      ((broke, run_after t run x), rw (d, ftp_loop) (rw (more, goes_on, idle) refl))
                  | inr busy ↦
                      let shorter =
                        length-read_at_from run.storage run.body (t.offset + run.written) _
                          goes_on in
                      let some_bytes : 0 < x.n = ground arith in
                      let (out, e) = ftp_loop_returns k (suc i) (run_after t run x) (omega arith) in
                      (out, rw (d, ftp_loop) (rw (more, goes_on, busy) e))
                ]
              ]
            ]
      ]

-- FtpFetcher.Fetch returns, whatever the server and the disk do and whether or not the length of the
-- file is known: one round of its loop for each byte of the body, and one more, are enough.
pub ftp_fetch_returns :
    (lib : Library) (dial : Bytes → Option Connection) (done : ℕ → Bool) (fuel : ℕ) (s : Storage)
    (t : ChunkTask)
    → ((body : Reader) → retrieve lib dial t ≡ some body → length (stream body) < fuel)
    → (o : Fetched) × (ftp_fetch lib dial done fuel s t ≡ some o)
unfolding ftp_fetch
ftp_fetch_returns lib dial done fuel s t enough = elim (Option-cases (retrieve lib dial t)) [
  | inl c ↦ (refused t s request_failed, rw (c, ftp_fetch) refl)
  | inr (body, c) ↦
      let (out, e) = ftp_loop_returns done t fuel 0 (ftp_begin s body) (enough body c) in
      (ftp_conclude t out, rw (c, ftp_fetch) (rw e refl))
]

-- FtpFetcher.Fetch of a chunk of n bytes returns, whatever the server and the disk do: one round of
-- its loop for each byte of the body, and one more, are enough. It found no body and left everything
-- as it was, or it ran on the body that the server gave and met `FtpSpec`.
pub ftp_fetch_ends :
    (lib : Library) (dial : Bytes → Option Connection) (done : ℕ → Bool) (fuel : ℕ) (s : Storage)
    (t : ChunkTask) (n : ℕ)
    → t.length ≡ pos n
    → ((body : Reader) → retrieve lib dial t ≡ some body → length (stream body) < fuel)
    → (o : Fetched) × (ftp_fetch lib dial done fuel s t ≡ some o)
      × ((o ≡ refused t s request_failed)
          ⊎ ((body : Reader) × (retrieve lib dial t ≡ some body) × FtpSpec t n s body o))
ftp_fetch_ends lib dial done fuel s t n sized enough =
    let (o, e) = ftp_fetch_returns lib dial done fuel s t enough in
    (o, e, ftp_fetch-FtpSpec t n sized lib dial done fuel s o e)
