-- ===== src/Fetch/Hang.antt =====
-- When the loop of Fetch ends, and when it does not.
use oget.Prelude.{
  ℕ, zero, suc, ◌+◌, ◌≤◌, ◌<◌, ◌≡◌, refl, Bool, false, not, ◌&&◌, Option, none, some, ◌++◌, arith,
  ◌==◌, length, length-append, inl, inr, ap, sym, subst, ◌⊎◌, ◌∙◌,
}
use oget.Prelude.Int.{pos, negsuc, pos_part, leb_ℤ, ◌-ℤ◌}
use oget.Prelude.Text.{Bytes}
use oget.File.{File}
use oget.Reader.{eof, Reader, stream}
use oget.Storage.{file, read_at_from}
use oget.Storage.Loops.{read_at_from-TransferSpec, read_at_from-file_to_eof}
use oget.Task.{ChunkTask}
use oget.Fetch.{
  Range, range_of, Response, Run, fetch_loop, remaining, is_until_eof, begin, run_after, fetch,
}

-- What the loop still lacks: the length is not known, or the body is too short for it.
abbrev pub FallsShort : ChunkTask → ℕ → Reader → Type 0
FallsShort t written body =
    (t.length ≡ negsuc 0) ⊎ ((n : ℕ) × (t.length ≡ pos n) × (written + length (stream body) < n))

never_full :
    (t : ChunkTask) (w : ℕ) (body : Reader)
    → FallsShort t w body
    → (leb_ℤ (remaining t w) (pos 0) && not (is_until_eof t)) ≡ false
unfolding remaining ◌-ℤ◌
never_full t w body (inl e) = rw e (ground arith)
never_full t w body (inr (n, e, h)) = rw e (ground arith)

still_short :
    (t : ChunkTask) (w w' : ℕ) (body body' : Reader)
    → w' + length (stream body') ≡ w + length (stream body)
    → FallsShort t w body
    → FallsShort t w' body'
still_short t w w' body body' e (inl l) = inl l
still_short t w w' body body' e (inr (n, l, h)) = inr (n, l, omega arith)

module _ (done : ℕ → Bool) (t : ChunkTask) (room : ℕ) (uncancelled : (i : ℕ) → done i ≡ false) where
  loop_hangs :
      (k i : ℕ) (f : File) (run : Run)
      → run.storage ≡ file f room
      → run.body.last ≡ eof
      → t.offset + run.written + length (stream run.body) ≤ room
      → FallsShort t run.written run.body
      → fetch_loop done t k i run ≡ none
  unfolding fetch_loop
  loop_hangs zero i f run s l fits short = refl
  loop_hangs (suc k) i f run s l fits short =
      let off = t.offset + run.written in
      let count = pos_part (remaining t run.written) in
      let x = read_at_from run.storage run.body off count in
      let spec = read_at_from-TransferSpec run.storage run.body off count in
      let (g, kept, quiet) =
        subst
          (λ st.
            let y = read_at_from st run.body off count in
            (g : File) × (y.storage ≡ file g room) × (y.error ≡ none))
          (sym s) (read_at_from-file_to_eof f room run.body off count fits l) in
      let none_lost = ap (length {A = ℕ}) (spec.kept_all (λ y. cc)) in
      let joined : length (stream x.reader) + x.n ≡ length (stream run.body) = omega (
        arith,
        spec.counted,
        none_lost,
        ap (length {A = ℕ}) spec.spelled,
        length-append spec.got (spec.lost ++ stream x.reader),
        length-append spec.lost (stream x.reader),
      ) in
      rw (uncancelled i, never_full t run.written run.body short, quiet)
        (loop_hangs k (suc i) g (run_after t run x) kept (spec.same_last ∙ l) (omega arith)
          (still_short t run.written (run.written + x.n) run.body x.reader (omega arith) short))

-- On a plain file Fetch never returns, however long it runs, unless the context is cancelled: where
-- the length of the file is not known, and where the body ends cleanly before the chunk is whole.
-- The disk has room, and the response is accepted.
pub fetch_hangs :
    (sha256 : Bytes → Bytes) (checksum : Bool) (client : Range → Option Response) (done : ℕ → Bool)
    (fuel : ℕ) (f : File) (room : ℕ) (t : ChunkTask) (resp : Response)
    → client (range_of t) ≡ some resp
    → (resp.status ≡ 206) ⊎ (resp.status ≡ 200)
    → resp.body.last ≡ eof
    → t.offset + t.written + length (stream resp.body) ≤ room
    → FallsShort t t.written resp.body
    → ((i : ℕ) → done i ≡ false)
    → fetch sha256 checksum client done fuel (file f room) t ≡ none
unfolding fetch
fetch_hangs sha256 checksum client done fuel f room t resp c ok_status l fits short live =
    let hangs =
      loop_hangs done t room live fuel 0 f (begin (file f room) t resp) refl l fits short in
    let accepted : (not (resp.status == 206) && not (resp.status == 200)) ≡ false = ground arith in
    rw (c, fetch) (rw (accepted, hangs) refl)
