-- ===== src/Fetch/Keeps.antt =====
-- What Fetch of one chunk does to the rest of the file.
use oget.Prelude.{
  ℕ, ◌+◌, ◌-◌, ◌≤◌, ◌<◌, ◌≡◌, Bool, Option, some, ◌⊎◌, inl, inr, arith, ltb, length, Bool-cases,
  ◌∙◌, ap,
}
use oget.Prelude.Int.{pos}
use oget.Prelude.Text.{Bytes}
use oget.File.{byte-write_at_inside, byte-write_at_outside}
use oget.Reader.{stream}
use oget.Storage.{Storage, contents}
use oget.Task.{ChunkTask}
use oget.Fetch.{Range, Response, Fetched, fetch}
use oget.Fetch.Result.{fetch-Ended, ServesFile, served, get_or-prefix, length-prefix}

module _ (sha256 : Bytes → Bytes) (checksum : Bool) (client : Range → Option Response)
    (done : ℕ → Bool) (fuel : ℕ) (s : Storage) (t : ChunkTask) (n : ℕ) (o : Fetched)
    (sized : t.length ≡ pos n) (h : t.written ≤ n)
    (e : fetch sha256 checksum client done fuel s t ≡ some o) where
  -- The task changes in `written` alone, which stays within the chunk.
  pub fetch-same_task : (o.task ≡ record t { written = o.task.written }) × (o.task.written ≤ n)
  fetch-same_task = elim (fetch-Ended sha256 checksum t n sized client done fuel s o h e) [
    | inl (err, r) ↦
        let same : o.task ≡ t = ap (λ (y : Fetched). y.task) r in
        (cc, omega (arith, ap (λ (y : ChunkTask). y.written) same))
    | inr (resp, c, ok, f) ↦ (f.same_task, omega (arith, f.within, f.written_stored))
  ]

  -- No byte outside the chunk is changed.
  pub fetch-outside :
      (x : ℕ)
      → (x < t.offset) ⊎ (t.offset + n ≤ x)
      → (contents o.storage).byte x ≡ (contents s).byte x
  fetch-outside x far = elim (fetch-Ended sha256 checksum t n sized client done fuel s o h e) [
    | inl (err, r) ↦ ap (λ (y : Fetched). (contents y.storage).byte x) r
    | inr (resp, c, ok, f) ↦
        f.wrote x
        ∙ byte-write_at_outside (contents s) (t.offset + t.written) f.got x
            (far_off f.got f.within far)
  ]
    where
      far_off :
          (got : Bytes)
          → t.written + length got ≤ n
          → (x < t.offset) ⊎ (t.offset + n ≤ x)
          → (x < t.offset + t.written) ⊎ (t.offset + t.written + length got ≤ x)
      far_off got w (inl l) = inl (omega arith)
      far_off got w (inr l) = inr (omega arith)

  -- A byte that is as on the server stays so, wherever it lies.
  pub fetch-keeps :
      (content : ℕ → ℕ)
      → ServesFile content client
      → (x : ℕ) → (contents s).byte x ≡ content x
      → (contents o.storage).byte x ≡ content x
  fetch-keeps content serves x right =
      elim (fetch-Ended sha256 checksum t n sized client done fuel s o h e) [
        | inl (err, r) ↦ ap (λ (y : Fetched). (contents y.storage).byte x) r ∙ right
        | inr (resp, c, ok, f) ↦
            let start = t.offset + t.written in
            let outside = byte-write_at_outside (contents s) start f.got x in
            elim (Bool-cases (ltb x start)) [
              | inl low ↦ f.wrote x ∙ outside (inl (ground arith)) ∙ right
              | inr high ↦ elim (Bool-cases (ltb x (start + length f.got))) [
                | inr past ↦ f.wrote x ∙ outside (inr (ground arith)) ∙ right
                | inl within ↦
                    let j = x - start in
                    let at : x ≡ start + j = ground arith in
                    let inside : j < length f.got = ground arith in
                    rw at (
                      f.wrote (start + j)
                      ∙ byte-write_at_inside (contents s) start f.got j inside
                      ∙ get_or-prefix f.got f.rest (stream resp.body) j f.spelled inside
                      ∙ served content client t n resp sized serves c ok j
                          (length-prefix f.got f.rest (stream resp.body) j f.spelled inside))
              ]
            ]
      ]
