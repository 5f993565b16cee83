-- ===== src/Examples/Fetches.antt =====
-- The theorems about the fetch of a chunk at concrete inputs.
use oget.Prelude.{
  inr, ◌≢◌, ◌≤◌, min, take, ◌↔◌, ◌⊎◌, ℕ, zero, suc, ◌+◌, ◌<◌, ◌≡◌, refl, Bool, true, false, Option,
  none, some, List, [], ◌∷◌, arith, length, inl, get_or, subst,
}
use oget.Prelude.Int.{negsuc}
use oget.Prelude.Text.{Bytes}
use oget.File.{created}
use oget.Reader.{Reader, eof, unexpected_eof, broken, stream}
use oget.Storage.{Storage, file, mapped, read_at_from}
use oget.Storage.Reads.{TransferSpec}
use oget.Storage.Loops.{read_at_from-TransferSpec}
use oget.Storage.Mapped.{map_write, map_read, map_read-map_write}
use oget.Task.{ChunkTask, new_chunk_task}
use oget.Fetch.{Range, Response, Fetched, fetch, refused, request_failed}
use oget.Fetch.Result.{Ended, ServesFile, first_byte}
use oget.Fetch.Hang.{fetch_hangs}
use oget.Fetch.Returns.{fetch_returns}
use oget.Samples.{sample_task}
use oget.Prelude.Int.{pos}
use oget.Storage.{contents}
use oget.Requester.{Requester, chunk_count}
use oget.Assembly.{Assembly, Attempt, attempts, begin_assembly}
use oget.Assembly.Total.{EndsWell, download-whole}
use oget.Assembly.Rounds.{Move, enter, turn, moves, begin_rounds}
use oget.Assembly.Rounds.Whole.{moves-whole}

-- three bytes in two pieces
abbrev body : Reader
body = record { pieces = (7 ∷ 8 ∷ []) ∷ (9 ∷ []) ∷ []; last = eof; early = false; seen = [] }

abbrev server : Reader → Range → Option Response
server b range = some (record { status = 206; body = b })

abbrev never : ℕ → Bool
never i = false

abbrev digest : Bytes → Bytes
digest b = b

abbrev target : Storage
target = mapped created 10

-- the file on the server: 7, 8 and 9 at the offsets 4, 5 and 6
abbrev content : ℕ → ℕ
content i = get_or (0 ∷ 0 ∷ 0 ∷ 0 ∷ 7 ∷ 8 ∷ 9 ∷ []) i 0

-- a server of that file, whose answer breaks off after a byte
abbrev cut_short : Range → Option Response
cut_short range = some (record {
  status = 206;
  body = record {
    pieces = (content (first_byte range) ∷ []) ∷ [];
    last = broken;
    early = false;
    seen = [];
  };
})

abbrev outcome : Fetched
outcome = elim (fetch digest true cut_short never 2 target sample_task) [
  | none ↦ refused sample_task target request_failed
  | some o ↦ o
]

-- the length of the file is not known
abbrev endless : ChunkTask
endless = record new_chunk_task { length = negsuc 0 }

fetch_hangs_example : fetch digest true (server body) never 50 (file created 1000) endless ≡ none
fetch_hangs_example =
    fetch_hangs digest true (server body) never 50 created 1000 endless
      (record { status = 206; body = body }) refl (inl refl) refl (omega arith) (inl refl)
      (λ i. refl)

fetch_returns_example :
    (o : Fetched) × (fetch digest true (server body) never 2 target sample_task ≡ some o)
    × Ended digest true sample_task 3 refl (server body) target o
fetch_returns_example =
    fetch_returns digest true (server body) never 0 target sample_task 3 refl (omega arith)
      (λ resp e ok. omega arith)

read_at_from-TransferSpec_example : TransferSpec created 4 0 3 body (read_at_from target body 4 3)
read_at_from-TransferSpec_example = read_at_from-TransferSpec target body 4 3

map_read-map_write_example :
    let w = map_write 10 created 8 (7 ∷ 8 ∷ 9 ∷ []) in
    (w.n ≡ min 3 2)
    × (map_read 10 w.file 8 w.n ≡ record { got = take w.n (7 ∷ 8 ∷ 9 ∷ []); at_end = false })
    × ((w.short ≡ true) ↔ (w.n < 3))
    × ((i : ℕ) → (i < 8) ⊎ (8 + w.n ≤ i) → w.file.byte i ≡ created.byte i)
map_read-map_write_example = map_read-map_write 10 created 8 (7 ∷ 8 ∷ 9 ∷ []) (omega arith)

-- a server of a file of three bytes, whose connections break behind the last byte
abbrev bytes_from : ℕ → Bytes
bytes_from zero = 7 ∷ 8 ∷ 9 ∷ []
bytes_from (suc zero) = 8 ∷ 9 ∷ []
bytes_from (suc (suc zero)) = 9 ∷ []
bytes_from (suc (suc (suc i))) = []

abbrev small : ℕ → ℕ
small zero = 7
small (suc zero) = 8
small (suc (suc zero)) = 9
small (suc (suc (suc i))) = 0

abbrev body_from : ℕ → Reader
body_from i = record { pieces = bytes_from i ∷ []; last = unexpected_eof; early = false; seen = [] }

abbrev small_server : Range → Option Response
small_server Range.whole = none
small_server (Range.between first last) = some (record { status = 206; body = body_from first })
small_server (Range.from first) = none

small_server-ServesFile : ServesFile small small_server
small_server-ServesFile Range.whole resp e ok = absurd (cc)
small_server-ServesFile (Range.from first) resp e ok = absurd (cc)
small_server-ServesFile (Range.between first last) resp e ok =
    let same : record { status = 206; body = body_from first } ≡ resp = cc in
    subst
      (λ (r : Response).
        (j : ℕ) → j < length (stream r.body) → get_or (stream r.body) j 0 ≡ small (first + j))
      same (served first)
  where
    served :
        (i j : ℕ)
        → j < length (stream (body_from i))
        → get_or (stream (body_from i)) j 0 ≡ small (i + j)
    served zero zero l = refl
    served zero (suc zero) l = refl
    served zero (suc (suc zero)) l = refl
    served zero (suc (suc (suc j))) l = absurd (omega arith)
    served (suc zero) zero l = refl
    served (suc zero) (suc zero) l = refl
    served (suc zero) (suc (suc j)) l = absurd (omega arith)
    served (suc (suc zero)) zero l = refl
    served (suc (suc zero)) (suc j) l = absurd (omega arith)
    served (suc (suc (suc i))) j l = absurd (omega arith)

-- The first call finds no server; the second one has the whole chunk.
abbrev down : Attempt
down = record { chunk = 0; client = λ r. none; cancelled = never; fuel = 2 }

abbrev up : Attempt
up = record { chunk = 0; client = small_server; cancelled = never; fuel = 2 }

abbrev asker : Requester
asker = record {
  resource = [];
  output_dir = [];
  storage_type = [];
  task_batch_size = pos 0;
  submits = true;
  reports = false;
}

one_chunk : 0 < chunk_count 3
unfolding chunk_count
one_chunk = ground arith

-- a plain file
abbrev disk : Storage
disk = file created 1000

small_server-EndsWell : EndsWell small_server
small_server-EndsWell first last resp e ok =
    inr (subst (λ (r : Response). r.body.last ≢ eof) same (λ q. cc))
  where
    same : record { status = 206; body = body_from first } ≡ resp
    same = cc

download-whole_example :
    (b : Assembly) × (attempts digest true
        (begin_assembly asker [] 3 none (λ i. false) disk)
        (down ∷ up ∷ [])
      ≡ some b)
    × (((i : ℕ) → i < chunk_count 3 → b.finished i ≡ true)
        → (x : ℕ) → x < 3
        → (contents b.storage).byte x ≡ small x)
    × ((x : ℕ) → 3 ≤ x → (contents b.storage).byte x ≡ (contents disk).byte x)
download-whole_example =
    download-whole digest true small asker [] 3 none (λ i. false) disk (down ∷ up ∷ [])
      (λ i lt f. absurd (cc))
      (one_chunk, (λ range resp e ok. absurd (cc)), (one_chunk, small_server-ServesFile, tt))
      (omega arith, (λ first last resp e ok. absurd (cc)), (omega arith, small_server-EndsWell, tt))

-- The call for the chunk comes to its loop, and runs two rounds.
abbrev rounds : List Move
rounds = enter 0 small_server ∷ turn 0 ∷ turn 0 ∷ []

moves-whole_example :
    (((i : ℕ)
        → i < chunk_count 3
        → ((moves asker [] 3 none rounds (begin_rounds (λ i. false) target)).slots i).fetched
          ≡ true)
      → (x : ℕ) → x < 3
      → (contents (moves asker [] 3 none rounds (begin_rounds (λ i. false) target)).storage).byte x
        ≡ small x)
    × ((x : ℕ)
        → 3 ≤ x
        → (contents (moves asker [] 3 none rounds (begin_rounds (λ i. false) target)).storage).byte
            x
          ≡ (contents target).byte x)
moves-whole_example =
    moves-whole small asker [] 3 none (λ i. false) target rounds (λ i lt f. absurd (cc))
      ((one_chunk, small_server-ServesFile), (one_chunk, (one_chunk, tt)))
