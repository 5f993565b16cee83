-- ===== src/Assembly/Rounds/Whole.antt =====
-- The storage and the chunks of a file, when the rounds of the calls of Fetch run in any order.
use oget.Prelude.{
  ℕ, ◌+◌, ◌-◌, ◌≤◌, ◌<◌, ◌≡◌, refl, Bool, true, false, not, ◌&&◌, Option, none, some, List, [], ◌∷◌,
  ◌==◌, arith, ltb, if◌then◌else◌, inl, inr, Bool-cases, Option-cases, ◌∙◌, sym, subst, ==_iff,
}
use oget.Prelude.Text.{Bytes}
use oget.Storage.{Storage, contents}
use oget.Task.{ChunkTask, StorageKind}
use oget.Requester.{Requester, chunk_task, chunk_count, chunk_offset, chunk_length}
use oget.Fetch.{Range, Response, Exit, broke, returned, Run}
use oget.Fetch.Result.{ServesFile, accepted}
use oget.Assembly.Whole.{StoresChunk, chunk_inside, whole-byte}
use oget.Assembly.Rounds.{
  round, Slot, Shared, Move, enter, turn, cancel, put_slot, after_round, asked, move, moves,
  begin_rounds,
}
use oget.Assembly.Rounds.Transfers.{Ahead, Effect, round-Effect}

module _ (content : ℕ → ℕ) (n : ℕ) where
  -- What holds of the slot of chunk i between the moves.
  record IsGood (s : Storage) (i : ℕ) (x : Slot) : Type 0 where
    saved : x.saved ≤ x.written
    within : x.written ≤ chunk_length n i
    stored : StoresChunk content s i x.written
    whole : x.fetched ≡ true → StoresChunk content s i (chunk_length n i)
    ahead : x.active ≡ true → Ahead content (chunk_offset i + x.written) x.body

  record IsFair (s0 : Storage) (sh : Shared) : Type 0 where
    good : (i : ℕ) → i < chunk_count n → IsGood sh.storage i (sh.slots i)
    beyond : (x : ℕ) → n ≤ x → (contents sh.storage).byte x ≡ (contents s0).byte x

  -- Another call's round takes nothing from a slot.
  IsGood-kept :
      (s s' : Storage) (i : ℕ) (x : Slot)
      → ((y : ℕ) → (contents s).byte y ≡ content y → (contents s').byte y ≡ content y)
      → IsGood s i x
      → IsGood s' i x
  IsGood-kept s s' i x keep g = record {
    saved = g.saved;
    within = g.within;
    stored = λ y lt. keep (chunk_offset i + y) (g.stored y lt);
    whole = λ f y lt. keep (chunk_offset i + y) (g.whole f y lt);
    ahead = g.ahead;
  }

  module _ (t : ChunkTask) (s : Storage) (i : ℕ) (x : Slot) (there : t.offset ≡ chunk_offset i)
      (g : IsGood s i x) where
    abbrev before : Run
    before = record { storage = s; body = x.body; written = x.written; progress = [] }

    stored_after :
        (out : Option Exit × Run)
        → Effect content t (chunk_length n i) before out
        → StoresChunk content out.1.storage i out.1.written
    stored_after out f y lt = elim (Bool-cases (ltb y x.written)) [
      | inl old ↦ f.keeps (chunk_offset i + y) (g.stored y (ground arith))
      | inr new ↦
          subst (λ z. (contents out.1.storage).byte z ≡ content z) (ground (arith, there))
            (f.added (y - x.written) (ground arith))
    ]

    after_round-IsGood :
        (out : Option Exit × Run)
        → Effect content t (chunk_length n i) before out
        → IsGood out.1.storage i (after_round (chunk_length n i) out x)
    after_round-IsGood (none, run) f = record {
      saved = omega (arith, f.grown, g.saved);
      within = f.within;
      stored = stored_after (none, run) f;
      whole = λ q y lt. f.keeps (chunk_offset i + y) (g.whole q y lt);
      ahead = λ q. subst (λ z. Ahead content (z + run.written) run.body) there (f.next refl);
    }
    after_round-IsGood (some broke, run) f =
        elim (Bool-cases (ltb run.written (chunk_length n i))) [
          | inl short ↦ rw short (record {
            saved = omega arith;
            within = f.within;
            stored = stored_after (some broke, run) f;
            whole = λ q y lt. f.keeps (chunk_offset i + y) (g.whole q y lt);
            ahead = λ q. absurd (ground arith);
          })
          | inr full ↦ rw full (record {
            saved = omega (arith, f.grown, g.saved);
            within = f.within;
            stored = stored_after (some broke, run) f;
            whole = λ q y lt. stored_after (some broke, run) f y (ground arith);
            ahead = λ q. absurd (ground arith);
          })
        ]
    after_round-IsGood (some (returned e), run) f = record {
      saved = omega arith;
      within = f.within;
      stored = stored_after (some (returned e), run) f;
      whole = λ q y lt. f.keeps (chunk_offset i + y) (g.whole q y lt);
      ahead = λ q. absurd (ground arith);
    }

  -- A move is for a chunk of the file, and its server serves the file.
  abbrev pub MoveServes : Move → Type 0
  MoveServes (enter i client) = (i < chunk_count n) × ServesFile content client
  MoveServes (turn i) = i < chunk_count n
  MoveServes (cancel i) = i < chunk_count n

  abbrev pub MovesServe : List Move → Type 0
  MovesServe [] = Unit
  MovesServe (m ∷ ms) = MoveServes m × MovesServe ms

  module _ (r : Requester) (name : Bytes) (kind : Option StorageKind) (s0 : Storage) (sh : Shared)
      (fair : IsFair s0 sh) where
    enter-IsFair :
        (i : ℕ) (client : Range → Option Response)
        → i < chunk_count n
        → ServesFile content client
        → IsFair s0 (move r name n kind (enter i client) sh)
    unfolding move
    enter-IsFair i client here serves =
        elim (Option-cases (client (asked r name n kind i (sh.slots i).saved))) [
          | inl none_sent ↦ rw none_sent fair
          | inr (resp, sent) ↦ elim (Bool-cases (sh.slots i).active) [
            | inl busy ↦ rw (sent, busy) fair
            | inr idle ↦ elim (Bool-cases (not (resp.status == 206) && not (resp.status == 200))) [
              | inl refused ↦ rw (sent, idle, refused) fair
              | inr good ↦ rw (sent, idle, good) (begun i client here serves resp sent good)
            ]
          ]
        ]
      where
        begun :
            (i : ℕ) (client : Range → Option Response)
            → i < chunk_count n
            → ServesFile content client
            → (resp : Response) → client (asked r name n kind i (sh.slots i).saved) ≡ some resp
            → (not (resp.status == 206) && not (resp.status == 200)) ≡ false
            → IsFair s0 (
                put_slot i
                  (record (sh.slots i) {
                    active = true;
                    body = resp.body;
                    written = (sh.slots i).saved;
                  })
                  sh)
        begun i client here serves resp sent good = record {
          good = λ j lt. elim (Bool-cases (j == i)) [
            | inl same ↦
                let g = fair.good i here in
                rw (same, (==_iff j i).0 same)
                  (record {
                    saved = omega arith;
                    within = omega (arith, g.saved, g.within);
                    stored = λ y l. g.stored y (omega (arith, g.saved));
                    whole = g.whole;
                    ahead = λ q.
                        serves (asked r name n kind i (sh.slots i).saved) resp sent
                          (accepted resp good);
                  })
            | inr other ↦ rw other (fair.good j lt)
          ];
          beyond = fair.beyond;
        }

    turn-IsFair : (i : ℕ) → i < chunk_count n → IsFair s0 (move r name n kind (turn i) sh)
    unfolding move chunk_task
    turn-IsFair i here = elim (Bool-cases (sh.slots i).active) [
      | inr idle ↦ rw idle fair
      | inl busy ↦
          let t = chunk_task r name n kind i in
          let g = fair.good i here in
          let run = before t sh.storage i (sh.slots i) refl g in
          let f = round-Effect content t (chunk_length n i) refl run g.within (g.ahead busy) in
          let behind =
            record (put_slot i (after_round (chunk_length n i) (round t run) (sh.slots i)) sh) {
              storage = (round t run).1.storage;
            } in
          subst (λ b. IsFair s0 (if b then behind else sh)) (sym busy)
            (record {
              good = λ j lt. elim (Bool-cases (j == i)) [
                | inl same ↦
                    rw (same, (==_iff j i).0 same)
                      (after_round-IsGood t sh.storage i (sh.slots i) refl g (round t run) f)
                | inr other ↦ rw other (
                    IsGood-kept sh.storage (round t run).1.storage j (sh.slots j) f.keeps
                      (fair.good j lt))
              ];
              beyond =
                  λ y far. f.beyond y (omega (arith, chunk_inside n i here)) ∙ fair.beyond y far;
            })
    ]

    cancel-IsFair : (i : ℕ) → i < chunk_count n → IsFair s0 (move r name n kind (cancel i) sh)
    unfolding move
    cancel-IsFair i here = record {
      good = λ j lt. elim (Bool-cases (j == i)) [
        | inl same ↦
            let g = fair.good i here in
            rw (same, (==_iff j i).0 same)
              (record {
                saved = g.saved;
                within = g.within;
                stored = g.stored;
                whole = g.whole;
                ahead = λ q. absurd (ground arith);
              })
        | inr other ↦ rw other (fair.good j lt)
      ];
      beyond = fair.beyond;
    }

  moves-IsFair :
      (r : Requester) (name : Bytes) (kind : Option StorageKind) (s0 : Storage) (ms : List Move)
      (sh : Shared)
      → MovesServe ms
      → IsFair s0 sh
      → IsFair s0 (moves r name n kind ms sh)
  unfolding moves
  moves-IsFair r name kind s0 [] sh all fair = fair
  moves-IsFair r name kind s0 (enter i client ∷ ms) sh ((here, serves), all) fair =
      moves-IsFair r name kind s0 ms _ all
        (enter-IsFair r name kind s0 sh fair i client here serves)
  moves-IsFair r name kind s0 (turn i ∷ ms) sh (here, all) fair =
      moves-IsFair r name kind s0 ms _ all (turn-IsFair r name kind s0 sh fair i here)
  moves-IsFair r name kind s0 (cancel i ∷ ms) sh (here, all) fair =
      moves-IsFair r name kind s0 ms _ all (cancel-IsFair r name kind s0 sh fair i here)

-- Calls of Fetch for the chunks of a file of n bytes run their rounds in any order, with one storage
-- between them, are cancelled and called again at any time. Each time the server sends nothing, or an
-- answer of another status than 206 and 200, or the bytes of the file from the first one that is
-- asked for on, perhaps fewer. The chunks that count as fetched at the start are stored. Whenever
-- every chunk has been fetched, the storage holds the file; beyond the n bytes it is as it was, at
-- all times.
pub moves-whole :
    (content : ℕ → ℕ) (r : Requester) (name : Bytes) (n : ℕ) (kind : Option StorageKind)
    (complete : ℕ → Bool) (s : Storage) (ms : List Move)
    → ((i : ℕ) → i < chunk_count n → complete i ≡ true → StoresChunk content s i (chunk_length n i))
    → MovesServe content n ms
    → (((i : ℕ)
          → i < chunk_count n
          → ((moves r name n kind ms (begin_rounds complete s)).slots i).fetched ≡ true)
        → (x : ℕ) → x < n
        → (contents (moves r name n kind ms (begin_rounds complete s)).storage).byte x ≡ content x)
      × ((x : ℕ)
          → n ≤ x
          → (contents (moves r name n kind ms (begin_rounds complete s)).storage).byte x
            ≡ (contents s).byte x)
unfolding begin_rounds
moves-whole content r name n kind complete s ms old serve =
    let start : IsFair content n s (begin_rounds complete s) = record {
      good = λ i lt. record {
        saved = omega arith;
        within = omega arith;
        stored = λ y h. absurd (omega arith);
        whole = old i lt;
        ahead = λ q. absurd (ground arith);
      };
      beyond = λ y far. refl;
    } in
    let fair = moves-IsFair content n r name kind s ms (begin_rounds complete s) serve start in
    (
      (λ all.
          whole-byte content n (moves r name n kind ms (begin_rounds complete s)).storage
            (λ i lt. (fair.good i lt).whole (all i lt))),
      fair.beyond,
    )
