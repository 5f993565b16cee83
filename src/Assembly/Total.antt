-- ===== src/Assembly/Total.antt =====
-- When the calls of Fetch for the chunks of a file return.
use oget.Prelude.{
  ℕ, zero, suc, ◌+◌, ◌-◌, ◌≤◌, ◌<◌, ◌≡◌, ◌≢◌, ◌⊎◌, refl, Bool, true, not, ◌&&◌, Option, none, some,
  List, [], ◌∷◌, ◌==◌, arith, length, inl, inr, Bool-cases, Option-cases, sym, ap, subst,
}
use oget.Prelude.Int.{ℤ, pos, pos_part, leb_ℤ, ◌+ℤ◌, ◌-ℤ◌}
use oget.Prelude.Text.{Bytes}
use oget.Reader.{stream, eof}
use oget.Storage.{Storage, file, mapped, contents, read_at_from}
use oget.Storage.Kind.{SameKind, SameKind-refl, SameKind-trans, read_at_from-SameKind}
use oget.Task.{ChunkTask, StorageKind}
use oget.Requester.{Requester, chunk_count, chunk_length}
use oget.Requester.Split.{chunk_length_bounds}
use oget.Fetch.{
  Range, between, range_of, Response, Fetched, FetchError, Exit, Run, fetch_loop, remaining,
  is_until_eof, begin, run_after, conclude, broke, returned, refused, request_failed, bad_status,
  fetch,
}
use oget.Fetch.Round.{Holds}
use oget.Fetch.Result.{Accepted}
use oget.Fetch.Returns.{Reaches, fetch_returns}
use oget.Assembly.{Assembly, Attempt, settle, attempt, attempts, begin_assembly}
use oget.Assembly.Whole.{
  IsSound, AllServe, StoresChunk, chunk_inside, attempt-IsSound, begin_assembly-IsSound,
  attempts-IsSound, whole-byte,
}

loop-SameKind :
    (done : ℕ → Bool) (t : ChunkTask) (k i : ℕ) (run : Run)
    → Holds (λ (out : Exit × Run). SameKind run.storage out.1.storage) (fetch_loop done t k i run)
unfolding fetch_loop
loop-SameKind done t zero i run = tt
loop-SameKind done t (suc k) i run =
    let left = remaining t run.written in
    let x = read_at_from run.storage run.body (t.offset + run.written) (pos_part left) in
    let kept =
      read_at_from-SameKind run.storage run.body (t.offset + run.written) (pos_part left) in
    elim (Bool-cases (done i)) [
      | inl d ↦ rw d (SameKind-refl run.storage)
      | inr d ↦ elim (Bool-cases (leb_ℤ left (pos 0) && not (is_until_eof t))) [
        | inl full ↦ rw (d, full) (SameKind-refl run.storage)
        | inr more ↦ elim (Option-cases x.error) [
          | inr (e, ended) ↦ rw (d, more, ended) kept
          | inl goes_on ↦
              rw (d, more, goes_on)
                (further run.storage x.storage (fetch_loop done t k (suc i) (run_after t run x))
                  kept (loop-SameKind done t k (suc i) (run_after t run x)))
        ]
      ]
    ]
  where
    further :
        (s u : Storage) (o : Option (Exit × Run))
        → SameKind s u
        → Holds (λ (out : Exit × Run). SameKind u out.1.storage) o
        → Holds (λ (out : Exit × Run). SameKind s out.1.storage) o
    further s u none p q = tt
    further s u (some out) p q = SameKind-trans s u out.1.storage p q

fetch-SameKind :
    (sha256 : Bytes → Bytes) (checksum : Bool) (client : Range → Option Response) (done : ℕ → Bool)
    (fuel : ℕ) (s : Storage) (t : ChunkTask) (o : Fetched)
    → fetch sha256 checksum client done fuel s t ≡ some o
    → SameKind s o.storage
unfolding fetch
fetch-SameKind sha256 checksum client done fuel s t o e =
    elim (Option-cases (client (range_of t))) [
      | inl c ↦
          subst (SameKind s)
            (ap (λ (y : Fetched). y.storage) (refused-is request_failed (ground arith)))
            (SameKind-refl s)
      | inr (resp, c) ↦ elim (Bool-cases (not (resp.status == 206) && not (resp.status == 200))) [
        | inl bad ↦
            subst (SameKind s)
              (ap (λ (y : Fetched). y.storage) (refused-is (bad_status resp.status) (ground arith)))
              (SameKind-refl s)
        | inr good ↦ elim (Option-cases (fetch_loop done t fuel 0 (begin s t resp))) [
          | inl l ↦ absurd (ground arith)
          | inr (out, l) ↦
              let same : conclude sha256 checksum t out ≡ o = ground arith in
              subst (SameKind s) (ap (λ (y : Fetched). y.storage) same) (
                storage-conclude out (
                  subst (Holds (λ (y : Exit × Run). SameKind s y.1.storage)) l
                    (loop-SameKind done t fuel 0 (begin s t resp))))
        ]
      ]
    ]
  where
    refused-is : (x : FetchError) → refused t s x ≡ o → refused t s x ≡ o
    refused-is x q = q

    storage-conclude :
        (out : Exit × Run)
        → SameKind s out.1.storage
        → SameKind s (conclude sha256 checksum t out).storage
    storage-conclude (returned x, run) k = unfold conclude in k
    storage-conclude (broke, run) k =
        let same : (conclude sha256 checksum t (broke, run)).storage ≡ run.storage =
          unfold conclude in ground arith in
        subst (SameKind s) (sym same) k

-- The body of a response of status 206 or 200 has all the bytes of the range that was asked for, or
-- it breaks off with an error other than io.EOF.
abbrev pub EndsWell : (Range → Option Response) → Type 0
EndsWell client =
    (first : ℕ) (last : ℤ) (resp : Response)
    → client (between first last) ≡ some resp
    → Accepted resp
    → (pos_part last < first + length (stream resp.body)) ⊎ (resp.body.last ≢ eof)

-- What makes a call of Fetch for a file of n bytes return: the storage is mapped over the whole
-- file, or it is a plain file and no accepted response ends with a clean io.EOF before its range does.
abbrev Returns : ℕ → (Range → Option Response) → Storage → Type 0
Returns n client (mapped f len) = n ≤ len
Returns n client (file f room) = EndsWell client

abbrev pub AllReturn : ℕ → Storage → List Attempt → Type 0
AllReturn n s [] = Unit
AllReturn n s (x ∷ xs) = (2 ≤ x.fuel) × Returns n x.client s × AllReturn n s xs

SameKind-Returns :
    (n : ℕ) (client : Range → Option Response) (s t : Storage)
    → SameKind s t
    → Returns n client s
    → Returns n client t
SameKind-Returns n client (mapped f l) (mapped g l') k h = omega arith
SameKind-Returns n client (mapped f l) (file g r) k h = absurd (cc)
SameKind-Returns n client (file f r) (mapped g l) k h = absurd (cc)
SameKind-Returns n client (file f r) (file g r') k h = h

SameKind-AllReturn :
    (n : ℕ) (s t : Storage) (xs : List Attempt) → SameKind s t → AllReturn n s xs → AllReturn n t xs
SameKind-AllReturn n s t [] k h = tt
SameKind-AllReturn n s t (x ∷ xs) k (f, h, all) =
    (f, SameKind-Returns n x.client s t k h, SameKind-AllReturn n s t xs k all)

module _ (content : ℕ → ℕ) (n : ℕ) (s0 : Storage) (a : Assembly) (x : Attempt)
    (sound : IsSound content n s0 a) (here : x.chunk < chunk_count n) where
  abbrev task : ChunkTask
  task = a.tasks x.chunk

  abbrev len : ℕ
  len = chunk_length n x.chunk

  asked : range_of task ≡ between (task.offset + task.written) (pos (task.offset + len) -ℤ pos 1)
  asked =
      let sized = sound.sized x.chunk here in
      unfold range_of in unfold ◌+ℤ◌ in rw sized (ground arith)

  last_byte : pos_part (pos (task.offset + len) -ℤ pos 1) ≡ task.offset + len - 1
  last_byte =
      let (some_bytes, few) = chunk_length_bounds n x.chunk here in unfold ◌-ℤ◌ in ground arith

  reaches :
      Returns n x.client a.storage
      → (resp : Response) → x.client (range_of task) ≡ some resp
      → Accepted resp
      → Reaches a.storage resp.body task.offset task.written len
  reaches can resp c ok = reach a.storage can
    where
      reach :
          (s : Storage) → Returns n x.client s → Reaches s resp.body task.offset task.written len
      reach (mapped f l) over =
          omega (arith, sound.offset x.chunk here, chunk_inside n x.chunk here)
      reach (file f r) all =
          let asked_for = subst (λ y. x.client y ≡ some resp) asked c in
          elim (all (task.offset + task.written) (pos (task.offset + len) -ℤ pos 1) resp asked_for
            ok) [
              | inl long ↦ inl (omega (arith, long, last_byte, chunk_length_bounds n x.chunk here))
              | inr broken_off ↦ inr broken_off
            ]

  attempt_ends :
      (sha256 : Bytes → Bytes) (checksum : Bool)
      → 2 ≤ x.fuel
      → Returns n x.client a.storage
      → (b : Assembly) × (attempt sha256 checksum a x ≡ some b) × SameKind a.storage b.storage
  unfolding attempt
  attempt_ends sha256 checksum enough can =
      let at : suc (suc (x.fuel - 2)) ≡ x.fuel = omega arith in
      let (o, e, ended) =
        fetch_returns sha256 checksum x.client x.cancelled (x.fuel - 2) a.storage task len
          (sound.sized x.chunk here) (sound.within x.chunk here) (reaches can) in
      let fetched =
        subst (λ y. fetch sha256 checksum x.client x.cancelled y a.storage task ≡ some o) at e in
      (
        settle a x.chunk o,
        rw (fetched, attempt) refl,
        fetch-SameKind sha256 checksum x.client x.cancelled x.fuel a.storage task o fetched,
      )

attempts_ends :
    (sha256 : Bytes → Bytes) (checksum : Bool) (content : ℕ → ℕ) (n : ℕ) (s0 : Storage)
    (xs : List Attempt) (a : Assembly)
    → IsSound content n s0 a
    → AllServe content n xs
    → AllReturn n a.storage xs
    → (b : Assembly) × (attempts sha256 checksum a xs ≡ some b)
unfolding attempts
attempts_ends sha256 checksum content n s0 [] a sound all can = (a, refl)
attempts_ends sha256 checksum content n s0 (x ∷ xs) a sound (here, serves, all)
      (enough, now, later) =
    let (b, e, kind) = attempt_ends content n s0 a x sound here sha256 checksum enough now in
    let after = attempt-IsSound content n s0 sha256 checksum a b x here serves e sound in
    let (c, rest) =
      attempts_ends sha256 checksum content n s0 xs b after all
        (SameKind-AllReturn n a.storage b.storage xs kind later) in
    (c, rw (e, attempts) rest)

-- A download of a file of n bytes, from start to end. It begins with the chunks that PrepareTasks
-- makes tasks for; the others, which the state shows as complete, are stored. The calls of Fetch run
-- one after the other, for the chunks in any order, with failures and retries. Each time the server
-- sends nothing, or an answer of another status than 206 and 200, or the bytes of the file from the
-- first one that is asked for on, perhaps fewer. The storage is mapped over the whole file, or it is
-- a plain file and no response of status 206 or 200 that is shorter than its range ends with a clean
-- io.EOF; it may break off with any other error. Then every call of Fetch returns, on fuel for two
-- rounds of its loop. If every chunk was fetched in the end, the first n bytes of the target are
-- those of the file on the server. Nothing past them was changed.
pub download-whole :
    (sha256 : Bytes → Bytes) (checksum : Bool) (content : ℕ → ℕ) (r : Requester) (name : Bytes)
    (n : ℕ) (kind : Option StorageKind) (complete : ℕ → Bool) (s : Storage) (xs : List Attempt)
    → ((i : ℕ) → i < chunk_count n → complete i ≡ true → StoresChunk content s i (chunk_length n i))
    → AllServe content n xs
    → AllReturn n s xs
    → (b : Assembly) × (attempts sha256 checksum (begin_assembly r name n kind complete s) xs
        ≡ some b)
      × (((i : ℕ) → i < chunk_count n → b.finished i ≡ true)
          → (x : ℕ) → x < n
          → (contents b.storage).byte x ≡ content x)
      × ((x : ℕ) → n ≤ x → (contents b.storage).byte x ≡ (contents s).byte x)
download-whole sha256 checksum content r name n kind complete s xs old all can =
    let start = begin_assembly r name n kind complete s in
    let sound = begin_assembly-IsSound content n r name kind complete s old in
    let (b, e) =
      attempts_ends sha256 checksum content n s xs start sound all (unfold begin_assembly in can) in
    let after = attempts-IsSound content n s sha256 checksum xs start b all e sound in
    (
      b,
      e,
      λ done. whole-byte content n b.storage (λ i lt. after.whole i lt (done i lt)),
      after.beyond,
    )
