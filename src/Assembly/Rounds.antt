-- ===== src/Assembly/Rounds.antt =====
-- The rounds of the loops of several calls of HttpFetcher.Fetch, interleaved in any order. The calls
-- are for different chunks of one file and share its storage.
pub mod Transfers
pub mod Whole
use oget.Prelude.{
  ℕ, zero, suc, ◌+◌, ◌-◌, ◌*◌, ◌≤◌, ◌<◌, ◌≡◌, refl, Bool, true, false, not, ◌&&◌, ◌||◌, Option,
  none, some, List, [], ◌∷◌, ◌++◌, ◌==◌, arith, ltb, leb, length, get_or, if◌then◌else◌, inl, inr,
  ◌⊎◌, Bool-cases, Option-cases, ◌∙◌, sym, ap, subst, ==_iff, length-append, get_or-append,
}
use oget.Prelude.Int.{ℤ, pos, pos_part, leb_ℤ, ◌+ℤ◌, ◌-ℤ◌}
use oget.Prelude.Text.{Bytes}
use oget.File.{write_at, byte-write_at_inside, byte-write_at_outside}
use oget.Reader.{IoError, eof, unexpected_eof, disk_full, Reader, stream}
use oget.Storage.{Storage, contents, Transfer, read_at_from}
use oget.Storage.Reads.{TransferSpec}
use oget.Storage.Loops.{read_at_from-TransferSpec}
use oget.Task.{ChunkTask, StorageKind}
use oget.Requester.{Requester, chunk_task, chunk_count, chunk_offset, chunk_length}
use oget.Requester.Split.{chunk_length_bounds}
use oget.Fetch.{
  Range, between, Response, Exit, broke, returned, Run, run_after, fetch_loop, remaining,
  is_until_eof, leave, cancelled,
}
use oget.Fetch.Round.{remaining_known}
use oget.Fetch.Result.{get_or-prefix, length-prefix}
use oget.Assembly.Whole.{StoresChunk, chunk_inside, whole-byte}

-- One round of the loop of Fetch, when the context is not cancelled: how the loop is left, if it is.
unfoldable pub round : ChunkTask → Run → Option Exit × Run
round t run =
    let left = remaining t run.written in
    let x = read_at_from run.storage run.body (t.offset + run.written) (pos_part left) in
    if leb_ℤ left (pos 0) && not (is_until_eof t) then (some broke, run) else elim x.error [
      | none ↦ (none, run_after t run x)
      | some e ↦ (some (leave e), run_after t run x)
    ]

-- The loop is made of such rounds.
pub fetch_loop-round :
    (done : ℕ → Bool) (t : ChunkTask) (k i : ℕ) (run : Run)
    → done i ≡ false
    → fetch_loop done t (suc k) i run ≡ (elim (round t run).0 [
      | none ↦ fetch_loop done t k (suc i) (round t run).1
      | some e ↦ some (e, (round t run).1)
    ])
unfolding fetch_loop round
fetch_loop-round done t k i run live =
    let left = remaining t run.written in
    let x = read_at_from run.storage run.body (t.offset + run.written) (pos_part left) in
    elim (Bool-cases (leb_ℤ left (pos 0) && not (is_until_eof t))) [
      | inl full ↦ rw (live, full) (rw full refl)
      | inr more ↦ elim (Option-cases x.error) [
        | inl goes_on ↦ rw (live, more, goes_on) (rw (more, goes_on) refl)
        | inr (e, ended) ↦ rw (live, more, ended) (rw (more, ended) refl)
      ]
    ]

-- A chunk: whether a call of Fetch is in its loop, with what body, how many bytes it and the calls
-- before it wrote (`written`), the number of bytes that its task goes on with (`saved`, the field
-- Written of the task), and whether a call has succeeded.
pub record Slot : Type 0 where
  pub active : Bool
  pub body : Reader
  pub written : ℕ
  pub saved : ℕ
  pub fetched : Bool

pub record Shared : Type 0 where
  pub storage : Storage
  pub slots : ℕ → Slot

-- A call of Fetch for a chunk asks for its range and comes to its loop unless it is refused, runs one round of it, or finds its context cancelled.
pub data Move : Type 0 where
  enter : ℕ → (Range → Option Response) → Move
  turn : ℕ → Move
  cancel : ℕ → Move

abbrev pub put_slot : ℕ → Slot → Shared → Shared
put_slot i s sh = record sh { slots = λ j. if j == i then s else sh.slots j }

-- how a slot goes on behind a round: it succeeds where the loop is left with the whole chunk
abbrev pub after_round : ℕ → Option Exit × Run → Slot → Slot
after_round n (none, run) s = record s { body = run.body; written = run.written }
after_round n (some broke, run) s =
    if ltb run.written n
    then record s { active = false; body = run.body; written = run.written; saved = run.written }
    else record s { active = false; body = run.body; written = run.written; fetched = true }
after_round n (some (returned e), run) s = record s {
  active = false;
  body = run.body;
  written = run.written;
  saved = run.written;
}

module _ (r : Requester) (name : Bytes) (n : ℕ) (kind : Option StorageKind) where
  abbrev pub asked : ℕ → ℕ → Range
  asked i written =
      between (chunk_offset i + written) (pos (chunk_offset i) +ℤ pos (chunk_length n i) -ℤ pos 1)

  unfoldable pub move : Move → Shared → Shared
  unfolding round
  move (enter i client) sh = elim (client (asked i (sh.slots i).saved)) [
    | none ↦ sh
    | some resp ↦
        if (sh.slots i).active || (not (resp.status == 206) && not (resp.status == 200))
        then sh
        else put_slot i
            (record (sh.slots i) { active = true; body = resp.body; written = (sh.slots i).saved })
            sh
  ]
  move (turn i) sh =
      let s = sh.slots i in
      let out =
        round (chunk_task r name n kind i)
          (record { storage = sh.storage; body = s.body; written = s.written; progress = [] }) in
      if s.active
      then record (put_slot i (after_round (chunk_length n i) out s) sh) { storage = out.1.storage }
      else sh
  move (cancel i) sh = put_slot i (record (sh.slots i) { active = false }) sh

  unfoldable pub moves : List Move → Shared → Shared
  unfolding move
  moves [] sh = sh
  moves (m ∷ ms) sh = moves ms (move m sh)

-- No call is in its loop yet; the chunks that the state of the file shows as complete are fetched.
unfoldable pub begin_rounds : (ℕ → Bool) → Storage → Shared
begin_rounds complete s = record {
  storage = s;
  slots = λ i. record {
    active = false;
    body = record { pieces = []; last = eof; early = false; seen = [] };
    written = 0;
    saved = 0;
    fetched = complete i;
  };
}
