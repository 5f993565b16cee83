-- ===== src/Fetch/Returns.antt =====
-- Where the loop of Fetch ends: two rounds are enough.
use oget.Prelude.{
  ℕ, suc, ◌+◌, ◌-◌, ◌≤◌, ◌<◌, ◌≡◌, ◌≢◌, ◌⊎◌, refl, Bool, not, ◌&&◌, Option, none, some, List, ◌++◌,
  arith, ltb, ◌==◌, length, length-append, Bool-cases, Option-cases, inl, inr, ap, sym, subst, ◌∙◌,
  concat,
}
use oget.Prelude.Int.{pos, pos_part}
use oget.Prelude.Text.{Bytes}
use oget.Reader.{Reader, stream, eof}
use oget.Storage.{Storage, file, mapped, contents, Transfer, read_at_from}
use oget.Storage.Reads.{TransferSpec}
use oget.Storage.Loops.{read_at_from-file_quiet, read_at_from-mapped_quiet}
use oget.Task.{ChunkTask}
use oget.Fetch.{
  Range, range_of, Response, Fetched, Exit, Run, fetch_loop, remaining, begin, refused,
  request_failed, bad_status, conclude, fetch,
}
use oget.Fetch.Round.{
  round_cancelled, round_full, round_error, round_more, transfer, next_run, transfer-TransferSpec,
  remaining_known,
}
use oget.Fetch.Result.{Ended, fetch-Ended, Accepted, accepted}

-- The handler takes the whole chunk, or the body has all of it, or the body ends with an error other
-- than io.EOF.
abbrev pub Reaches : Storage → Reader → ℕ → ℕ → ℕ → Type 0
Reaches (file f room) body off written n = (n ≤ written + length (stream body)) ⊎ (body.last ≢ eof)
Reaches (mapped f len) body off written n = off + n ≤ len

quiet_full :
    (s : Storage) (body : Reader) (off written n : ℕ)
    → written < n
    → Reaches s body off written n
    → let x = read_at_from s body (off + written) (n - written) in
      TransferSpec (contents s) (off + written) 0 (n - written) body x
      → x.error ≡ none
      → written + x.n ≡ n
quiet_full (mapped f len) body off written n h r a q = omega (
  arith,
  read_at_from-mapped_quiet f len body (off + written) (n - written) (omega arith) (omega arith) q,
)
quiet_full (file f room) body off written n h (inr broken_off) a q =
    elim (read_at_from-file_quiet f room body (off + written) (n - written) q) [
      | inl e ↦ omega (arith, e)
      | inr (e, l) ↦ absurd (broken_off (sym a.same_last ∙ l))
    ]
quiet_full (file f room) body off written n h (inl r) a q =
    elim (read_at_from-file_quiet f room body (off + written) (n - written) q) [
      | inl e ↦ omega (arith, e)
      | inr (e, l) ↦
          let x = read_at_from (file f room) body (off + written) (n - written) in
          let none_lost = ap (length {A = ℕ}) (a.kept_all (λ y. cc)) in
          let none_left : length (stream x.reader) ≡ 0 =
            ap (λ (p : List Bytes). length (concat p)) e in
          omega (
            arith,
            a.counted,
            a.bounded (omega arith),
            none_lost,
            none_left,
            ap (length {A = ℕ}) a.spelled,
            length-append a.got (a.lost ++ stream x.reader),
            length-append a.lost (stream x.reader),
          )
    ]

module _ (done : ℕ → Bool) (t : ChunkTask) (n : ℕ) (sized : t.length ≡ pos n) where
  abbrev Ends : Option (Exit × Run) → Type 0
  Ends o = (out : Exit × Run) × (o ≡ some out)

  round_last : (k i : ℕ) (run : Run) → run.written ≡ n → Ends (fetch_loop done t (suc k) i run)
  round_last k i run w = elim (Bool-cases (done i)) [
    | inl d ↦ (_, round_cancelled done t n sized k i run d)
    | inr d ↦ (_, round_full done t n sized k i run d w)
  ]

  next_full :
      (run : Run)
      → run.written < n
      → Reaches run.storage run.body t.offset run.written n
      → (transfer done t n sized run).error ≡ none
      → (next_run done t n sized run).written ≡ n
  next_full run h r q =
      let known : pos_part (remaining t run.written) ≡ n - run.written =
        ap pos_part (remaining_known t n run.written sized (omega arith)) in
      let x : ℕ → Transfer = λ c. read_at_from run.storage run.body (t.offset + run.written) c in
      ap (λ c. run.written + (x c).n) known
      ∙ quiet_full run.storage run.body t.offset run.written n h r
          (subst
            (λ c.
              TransferSpec (contents run.storage) (t.offset + run.written) 0 (n - run.written)
                run.body (x c))
            known (transfer-TransferSpec done t n sized run (omega arith)))
          (ap (λ c. (x c).error) (sym known) ∙ q)

  loop-Ends :
      (k i : ℕ) (run : Run)
      → run.written ≤ n
      → Reaches run.storage run.body t.offset run.written n
      → Ends (fetch_loop done t (suc (suc k)) i run)
  loop-Ends k i run h r = elim (Bool-cases (ltb run.written n)) [
    | inr full ↦ round_last (suc k) i run (ground arith)
    | inl room ↦ elim (Bool-cases (done i)) [
      | inl d ↦ (_, round_cancelled done t n sized (suc k) i run d)
      | inr d ↦ elim (Option-cases (transfer done t n sized run).error) [
        | inr (e, ended) ↦ (_, round_error done t n sized (suc k) i run e d (ground arith) ended)
        | inl goes_on ↦ rw (round_more done t n sized (suc k) i run d (ground arith) goes_on) (
            round_last k (suc i) (next_run done t n sized run)
              (next_full run (ground arith) r goes_on))
      ]
    ]
  ]

-- Fetch of a chunk of n bytes returns after at most two rounds of its loop, with one of the outcomes
-- of `Ended`, where the storage is a mapped file that has the whole chunk, or a plain file and the
-- body of a response of status 206 or 200 is not shorter than what the chunk lacks, or ends with an
-- error other than io.EOF.
pub fetch_returns :
    (sha256 : Bytes → Bytes) (checksum : Bool) (client : Range → Option Response) (done : ℕ → Bool)
    (k : ℕ) (s : Storage) (t : ChunkTask) (n : ℕ) (sized : t.length ≡ pos n)
    → t.written ≤ n
    → ((resp : Response)
        → client (range_of t) ≡ some resp
        → Accepted resp
        → Reaches s resp.body t.offset t.written n)
    → (o : Fetched) × (fetch sha256 checksum client done (suc (suc k)) s t ≡ some o)
      × Ended sha256 checksum t n sized client s o
fetch_returns sha256 checksum client done k s t n sized h reaches =
    let (o, e) = returns in
    (o, e, fetch-Ended sha256 checksum t n sized client done (suc (suc k)) s o h e)
  where
    returns : (o : Fetched) × (fetch sha256 checksum client done (suc (suc k)) s t ≡ some o)
    returns =
        unfold fetch in
        elim (Option-cases (client (range_of t))) [
          | inl c ↦ (refused t s request_failed, rw (c, fetch) refl)
          | inr (resp, c) ↦
              elim (Bool-cases (not (resp.status == 206) && not (resp.status == 200))) [
                | inl bad ↦ (refused t s (bad_status resp.status), rw (c, fetch) (rw bad refl))
                | inr good ↦
                    let (out, l) =
                      loop-Ends done t n sized k 0 (begin s t resp) h
                        (reaches resp c (accepted resp good)) in
                    (conclude sha256 checksum t out, rw (c, fetch) (rw (good, l) refl))
              ]
        ]
