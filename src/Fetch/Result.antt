-- ===== src/Fetch/Result.antt =====
-- What Fetch leaves, whether it succeeds or fails, and why a retry completes the chunk.
use oget.Prelude.{
  ℕ, ◌+◌, ◌-◌, ◌≤◌, ◌<◌, ◌≡◌, refl, Bool, false, not, ◌&&◌, Option, none, some, [], ◌∷◌, ◌++◌,
  arith, ltb, ◌==◌, if◌then◌else◌, length, get_or, get_or-append, length-append, append-nil,
  Bool-cases, Option-cases, inl, inr, ap, subst, ◌⊎◌, ◌∙◌,
}
use oget.Prelude.Int.{ℤ, pos, ◌+ℤ◌, ◌-ℤ◌}
use oget.Prelude.Text.{Bytes}
use oget.File.{write_at, Alike, byte-write_at_inside, byte-write_at_outside}
use oget.Reader.{Reader, stream}
use oget.Storage.{Storage, contents}
use oget.Task.{ChunkTask}
use oget.Fetch.{
  Range, whole, between, from, range_of, Response, FetchError, bad_status, request_failed, Fetched,
  Exit, broke, returned, Run, fetch_loop, begin, conclude, refused, fetch,
}
use oget.Fetch.Round.{Holds, LoopSpec, fetch_loop-LoopSpec}

-- Fetch goes on with a response of status 206 or 200 only.
abbrev pub Accepted : Response → Type 0
Accepted resp = (resp.status ≡ 206) ⊎ (resp.status ≡ 200)

pub accepted :
    (resp : Response)
    → (not (resp.status == 206) && not (resp.status == 200)) ≡ false
    → Accepted resp
accepted resp good = elim (Bool-cases (resp.status == 206)) [
  | inl partial ↦ inl (ground arith)
  | inr other ↦ inr (ground arith)
]

module _ (sha256 : Bytes → Bytes) (checksum : Bool) (t : ChunkTask) (n : ℕ)
    (sized : t.length ≡ pos n) where
  -- The outcome of Fetch for the storage `s` and the response `resp`: `got` is a prefix of the body
  -- and has been written behind the bytes that the chunk had; the task changes in `written` alone,
  -- which stays within what is stored; OnChunkComplete is called only on success, which means that
  -- the chunk is whole.
  pub record FetchSpec (s : Storage) (body : Reader) (o : Fetched) : Type 0 where
    pub got : Bytes
    pub rest : Bytes
    pub spelled : got ++ rest ≡ stream body
    pub wrote : Alike (contents o.storage) (write_at (contents s) (t.offset + t.written) got)
    pub within : t.written + length got ≤ n
    pub same_task : o.task ≡ record t { written = o.task.written }
    pub written_grows : t.written ≤ o.task.written
    pub written_stored : o.task.written ≤ t.written + length got
    pub failed_silent : (e : FetchError) → o.failure ≡ some e → o.completed ≡ []
    pub succeeded_whole : o.failure ≡ none → t.written + length got ≡ n
    pub succeeded_once :
        o.failure ≡ none
        → o.completed ≡ (
            if t.on_chunk_complete
            then (
              t.chunk_id,
              (if checksum && t.written == 0 then sha256 (body.seen ++ got) else []),
            )
              ∷ []
            else [])

  storage-conclude : (run : Run) → (conclude sha256 checksum t (broke, run)).storage ≡ run.storage
  unfolding conclude
  storage-conclude run = ground arith

  conclude-FetchSpec :
      (done : ℕ → Bool) (s : Storage) (resp : Response) (out : Exit × Run)
      → t.written ≤ n
      → LoopSpec done t n sized (begin s t resp) out
      → FetchSpec s resp.body (conclude sha256 checksum t out)
  unfolding conclude
  conclude-FetchSpec done s resp (returned e, run) h a = record {
    got = a.got;
    rest = a.lost ++ stream run.body;
    spelled = a.spelled;
    wrote = a.wrote;
    within = a.bounded h;
    same_task = ground arith;
    written_grows = ground (arith, a.counted);
    written_stored = ground (arith, a.counted);
    failed_silent = λ e' x. refl;
    succeeded_whole = λ x. cc;
    succeeded_once = λ x. cc;
  }
  conclude-FetchSpec done s resp (broke, run) h a =
      let lost_none = a.kept_all (λ x. cc) in
      let seen : run.body.seen ≡ resp.body.seen ++ a.got =
        a.seen
        ∙ ap (λ (l : Bytes). resp.body.seen ++ (a.got ++ l)) lost_none
        ∙ ap (λ y. resp.body.seen ++ y) (append-nil a.got) in
      record {
        got = a.got;
        rest = a.lost ++ stream run.body;
        spelled = a.spelled;
        wrote = λ i. ap (λ st. (contents st).byte i) (storage-conclude run) ∙ a.wrote i;
        within = a.bounded h;
        same_task = ground arith;
        written_grows = ground (arith, a.counted);
        written_stored = ground (arith, a.counted);
        failed_silent = λ e' x. ground arith;
        succeeded_whole = λ x. ground (arith, a.counted, a.bounded h, sized);
        succeeded_once = λ x. ground (arith, seen);
      }

  -- Fetch was refused before the loop and left everything as it was, or its loop ran on the body of
  -- an accepted response and met the specification.
  abbrev pub Ended : (Range → Option Response) → Storage → Fetched → Type 0
  Ended client s o =
      ((e : FetchError) × (o ≡ refused t s e))
      ⊎ ((resp : Response) × (client (range_of t) ≡ some resp)
          × Accepted resp
          × FetchSpec s resp.body o)

  -- Whatever the server and the disk do: if Fetch of a chunk of n bytes returns, with no more than n
  -- of them written before, then it was refused and left everything as it was, or it ran on the body
  -- of an accepted response and met `FetchSpec`.
  pub fetch-Ended :
      (client : Range → Option Response) (done : ℕ → Bool) (fuel : ℕ) (s : Storage) (o : Fetched)
      → t.written ≤ n
      → fetch sha256 checksum client done fuel s t ≡ some o
      → Ended client s o
  unfolding fetch
  fetch-Ended client done fuel s o h e = elim (Option-cases (client (range_of t))) [
    | inl c ↦ inl (request_failed, ground arith)
    | inr (resp, c) ↦ elim (Bool-cases (not (resp.status == 206) && not (resp.status == 200))) [
      | inl bad ↦ inl (bad_status resp.status, ground arith)
      | inr good ↦ elim (Option-cases (fetch_loop done t fuel 0 (begin s t resp))) [
        | inl l ↦ cc
        | inr (out, l) ↦
            let same : conclude sha256 checksum t out ≡ o = ground arith in
            inr (
              resp,
              c,
              accepted resp good,
              subst (FetchSpec s resp.body) same (
                  conclude-FetchSpec done s resp out h (
                    subst (Holds (LoopSpec done t n sized (begin s t resp))) l
                      (fetch_loop-LoopSpec done t n sized fuel 0 (begin s t resp) h))),
            )
      ]
    ]
  ]

-- The first k bytes of the chunk are stored.
abbrev pub HasPrefix : (ℕ → ℕ) → Storage → ChunkTask → ℕ → Type 0
HasPrefix content s t k =
    (i : ℕ) → i < k → (contents s).byte (t.offset + i) ≡ content (t.offset + i)

-- the first byte of a range
abbrev pub first_byte : Range → ℕ
first_byte whole = 0
first_byte (between first last) = first
first_byte (from first) = first

-- The server serves the file: whatever range is asked for, an accepted response begins with the bytes
-- of the file from the first byte of the range on. It may be shorter, and it may break off.
abbrev pub ServesFile : (ℕ → ℕ) → (Range → Option Response) → Type 0
ServesFile content client =
    (range : Range) (resp : Response)
    → client range ≡ some resp
    → Accepted resp
    → (i : ℕ) → i < length (stream resp.body)
    → get_or (stream resp.body) i 0 ≡ content (first_byte range + i)

pub range_between :
    (t : ChunkTask) (n : ℕ)
    → t.length ≡ pos n
    → (last : ℤ) × (range_of t ≡ between (t.offset + t.written) last)
unfolding range_of
range_between t n e = (pos t.offset +ℤ t.length -ℤ pos 1, rw e (ground arith))

-- Fetch asks for the bytes behind those that were written.
pub served :
    (content : ℕ → ℕ) (client : Range → Option Response) (t : ChunkTask) (n : ℕ) (resp : Response)
    → t.length ≡ pos n
    → ServesFile content client
    → client (range_of t) ≡ some resp
    → Accepted resp
    → (i : ℕ) → i < length (stream resp.body)
    → get_or (stream resp.body) i 0 ≡ content (t.offset + t.written + i)
served content client t n resp sized serves c ok i lt =
    let (last, r) = range_between t n sized in
    subst (λ k. get_or (stream resp.body) i 0 ≡ content (k + i)) (ap first_byte r)
      (serves (range_of t) resp c ok i lt)

pub get_or-prefix :
    (a b c : Bytes) (i : ℕ) → a ++ b ≡ c → i < length a → get_or a i 0 ≡ get_or c i 0
get_or-prefix a b c i e h = rw (← e) (ground (arith, get_or-append a b i 0))

pub length-prefix : (a b c : Bytes) (i : ℕ) → a ++ b ≡ c → i < length a → i < length c
length-prefix a b c i e h = rw (← e) (omega (arith, length-append a b))

stored-HasPrefix :
    (content : ℕ → ℕ) (s s' : Storage) (t : ChunkTask) (got : Bytes) (k : ℕ)
    → HasPrefix content s t t.written
    → ((i : ℕ) → i < length got → get_or got i 0 ≡ content (t.offset + t.written + i))
    → Alike (contents s') (write_at (contents s) (t.offset + t.written) got)
    → k ≤ t.written + length got
    → HasPrefix content s' t k
stored-HasPrefix content s s' t got k before new wrote h i lt =
    elim (Bool-cases (ltb i t.written)) [
      | inl old ↦
          wrote (t.offset + i)
          ∙ byte-write_at_outside (contents s) (t.offset + t.written) got (t.offset + i)
              (inl (ground arith))
          ∙ before i (ground arith)
      | inr fresh ↦
          let j = i - t.written in
          let at : t.offset + i ≡ t.offset + t.written + j = ground arith in
          rw at (
            wrote (t.offset + t.written + j)
            ∙ byte-write_at_inside (contents s) (t.offset + t.written) got j (ground arith)
            ∙ new j (ground arith))
    ]

pub fetch-HasPrefix :
    (sha256 : Bytes → Bytes) (checksum : Bool) (client : Range → Option Response) (done : ℕ → Bool)
    (fuel : ℕ) (s : Storage) (t : ChunkTask) (n : ℕ) (o : Fetched) (content : ℕ → ℕ)
    → t.length ≡ pos n
    → t.written ≤ n
    → fetch sha256 checksum client done fuel s t ≡ some o
    → ServesFile content client
    → HasPrefix content s t t.written
    → HasPrefix content o.storage t o.task.written
      × (o.failure ≡ none → HasPrefix content o.storage t n)
fetch-HasPrefix sha256 checksum client done fuel s t n o content sized h e serves before =
    elim (fetch-Ended sha256 checksum t n sized client done fuel s o h e) [
      | inl (err, r) ↦ (rw r before, λ x. cc (ap (λ (y : Fetched). y.failure) r))
      | inr (resp, c, ok, f) ↦
          let new : (i : ℕ)
              → i < length f.got
              → get_or f.got i 0 ≡ content (t.offset + t.written + i) =
            λ i lt.
              get_or-prefix f.got f.rest (stream resp.body) i f.spelled lt
              ∙ served content client t n resp sized serves c ok i
                  (length-prefix f.got f.rest (stream resp.body) i f.spelled lt) in
          (
            stored-HasPrefix content s o.storage t f.got o.task.written before new f.wrote
                f.written_stored,
            λ x.
                stored-HasPrefix content s o.storage t f.got n before new f.wrote
                  (omega (arith, f.succeeded_whole x)),
          )
    ]
