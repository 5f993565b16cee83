-- ===== src/Assembly/Whole.antt =====
-- What the storage holds of the file while its chunks are fetched, one call after the other.
use oget.Prelude.{
  ℕ, ◌+◌, ◌-◌, ◌/◌, ◌≤◌, ◌<◌, ◌≡◌, refl, Bool, true, false, ◌||◌, Option, none, some, List, [], ◌∷◌,
  ◌==◌, arith, inl, inr, Bool-cases, Option-cases, ◌∙◌, sym, ap, subst, ==_iff,
}
use oget.Prelude.Int.{pos}
use oget.Prelude.Text.{Bytes}
use oget.Storage.{Storage, contents}
use oget.Task.{ChunkTask, StorageKind, range_size}
use oget.Requester.{Requester, chunk_task, chunk_count, chunk_offset, chunk_length}
use oget.Requester.Split.{chunk_cover, chunk_of_byte}
use oget.Fetch.{Fetched, FetchError, fetch}
use oget.Fetch.Result.{ServesFile, fetch-HasPrefix}
use oget.Fetch.Keeps.{fetch-same_task, fetch-outside, fetch-keeps}
use oget.Assembly.{
  Assembly, Attempt, next_try, succeeded, settle, attempt, attempts, begin_assembly,
}

-- Every attempt is at a chunk of the file, with a server that serves it.
abbrev pub AllServe : (ℕ → ℕ) → ℕ → List Attempt → Type 0
AllServe content n [] = Unit
AllServe content n (x ∷ xs) =
    (x.chunk < chunk_count n) × ServesFile content x.client × AllServe content n xs

-- the first k bytes of chunk i are stored
abbrev pub StoresChunk : (ℕ → ℕ) → Storage → ℕ → ℕ → Type 0
StoresChunk content s i k =
    (x : ℕ) → x < k → (contents s).byte (chunk_offset i + x) ≡ content (chunk_offset i + x)

-- A retry is for the same bytes.
next_try-same :
    (o : Fetched)
    → ((next_try o).offset ≡ o.task.offset)
      × ((next_try o).length ≡ o.task.length)
      × ((next_try o).written ≡ o.task.written)
next_try-same o = elim (Option-cases o.failure) [
  | inl e ↦ rw e (refl, refl, refl)
  | inr (x, e) ↦ rw e (refl, refl, refl)
]

pub chunk_inside : (n i : ℕ) → i < chunk_count n → chunk_offset i + chunk_length n i ≤ n
unfolding chunk_count chunk_length
chunk_inside n i h = ground arith

module _ (content : ℕ → ℕ) (n : ℕ) (s0 : Storage) where
  -- What holds between the attempts.
  pub record IsSound (a : Assembly) : Type 0 where
    pub offset : (i : ℕ) → i < chunk_count n → (a.tasks i).offset ≡ chunk_offset i
    pub sized : (i : ℕ) → i < chunk_count n → (a.tasks i).length ≡ pos (chunk_length n i)
    pub within : (i : ℕ) → i < chunk_count n → (a.tasks i).written ≤ chunk_length n i
    pub stored : (i : ℕ) → i < chunk_count n → StoresChunk content a.storage i (a.tasks i).written
    pub whole :
        (i : ℕ)
        → i < chunk_count n
        → a.finished i ≡ true
        → StoresChunk content a.storage i (chunk_length n i)
    pub beyond : (x : ℕ) → n ≤ x → (contents a.storage).byte x ≡ (contents s0).byte x

  module _ (sha256 : Bytes → Bytes) (checksum : Bool) (a : Assembly) (x : Attempt) (o : Fetched)
      (i : IsSound a) (here : x.chunk < chunk_count n) (serves : ServesFile content x.client)
      (e : fetch sha256 checksum x.client x.cancelled x.fuel a.storage (a.tasks x.chunk)
        ≡ some o) where
    abbrev task : ChunkTask
    task = a.tasks x.chunk

    abbrev len : ℕ
    len = chunk_length n x.chunk

    same : (o.task ≡ record task { written = o.task.written }) × (o.task.written ≤ len)
    same =
        fetch-same_task sha256 checksum x.client x.cancelled x.fuel a.storage task len o
          (i.sized x.chunk here) (i.within x.chunk here) e

    keeps :
        (y : ℕ) → (contents a.storage).byte y ≡ content y → (contents o.storage).byte y ≡ content y
    keeps =
        fetch-keeps sha256 checksum x.client x.cancelled x.fuel a.storage task len o
          (i.sized x.chunk here) (i.within x.chunk here) e content serves

    fetched_task :
        ((next_try o).offset ≡ chunk_offset x.chunk)
        × ((next_try o).length ≡ pos len)
        × ((next_try o).written ≡ o.task.written)
    fetched_task =
        let (off, l, w) = next_try-same o in
        (
          off ∙ ap (λ (y : ChunkTask). y.offset) same.0 ∙ i.offset x.chunk here,
          l ∙ ap (λ (y : ChunkTask). y.length) same.0 ∙ i.sized x.chunk here,
          w,
        )

    stored_here :
        StoresChunk content o.storage x.chunk o.task.written
        × (o.failure ≡ none → StoresChunk content o.storage x.chunk len)
    stored_here =
        let at = i.offset x.chunk here in
        let (part, all) =
          fetch-HasPrefix sha256 checksum x.client x.cancelled x.fuel a.storage task len o content
            (i.sized x.chunk here) (i.within x.chunk here) e serves
            (λ y lt.
              subst (λ z. (contents a.storage).byte (z + y) ≡ content (z + y)) (sym at)
                (i.stored x.chunk here y lt)) in
        (
          λ y lt. subst (λ z. (contents o.storage).byte (z + y) ≡ content (z + y)) at (part y lt),
          λ f y lt.
              subst (λ z. (contents o.storage).byte (z + y) ≡ content (z + y)) at (all f y lt),
        )

    finished_here :
        (a.finished x.chunk || succeeded o.failure) ≡ true
        → StoresChunk content o.storage x.chunk len
    finished_here f = elim (Bool-cases (a.finished x.chunk)) [
      | inl before ↦ λ y lt. keeps (chunk_offset x.chunk + y) (i.whole x.chunk here before y lt)
      | inr now ↦ stored_here.1 (done o.failure (ap (λ y. y || succeeded o.failure) (sym now) ∙ f))
    ]
      where
        done : (f : Option FetchError) → (false || succeeded f) ≡ true → f ≡ none
        done none q = refl
        done (some y) q = cc

    settle-IsSound : IsSound (settle a x.chunk o)
    settle-IsSound = record {
      offset = λ j lt. elim (Bool-cases (j == x.chunk)) [
        | inl q ↦ rw (q, (==_iff j x.chunk).0 q) fetched_task.0
        | inr q ↦ rw q (i.offset j lt)
      ];
      sized = λ j lt. elim (Bool-cases (j == x.chunk)) [
        | inl q ↦ rw (q, (==_iff j x.chunk).0 q) fetched_task.1
        | inr q ↦ rw q (i.sized j lt)
      ];
      within = λ j lt. elim (Bool-cases (j == x.chunk)) [
        | inl q ↦ rw (q, (==_iff j x.chunk).0 q) (omega (arith, fetched_task.2, same.1))
        | inr q ↦ rw q (i.within j lt)
      ];
      stored = λ j lt. elim (Bool-cases (j == x.chunk)) [
        | inl q ↦ rw (q, (==_iff j x.chunk).0 q, fetched_task.2) stored_here.0
        | inr q ↦ rw q (λ y l. keeps (chunk_offset j + y) (i.stored j lt y l))
      ];
      whole = λ j lt. elim (Bool-cases (j == x.chunk)) [
        | inl q ↦ rw (q, (==_iff j x.chunk).0 q) finished_here
        | inr q ↦ rw q (λ f y l. keeps (chunk_offset j + y) (i.whole j lt f y l))
      ];
      beyond = λ y far.
          fetch-outside sha256 checksum x.client x.cancelled x.fuel a.storage task len o
            (i.sized x.chunk here) (i.within x.chunk here) e y
            (inr (omega (arith, i.offset x.chunk here, chunk_inside n x.chunk here)))
          ∙ i.beyond y far;
    }

  pub attempt-IsSound :
      (sha256 : Bytes → Bytes) (checksum : Bool) (a b : Assembly) (x : Attempt)
      → x.chunk < chunk_count n
      → ServesFile content x.client
      → attempt sha256 checksum a x ≡ some b
      → IsSound a
      → IsSound b
  unfolding attempt
  attempt-IsSound sha256 checksum a b x here serves e i =
      elim (Option-cases
        (fetch sha256 checksum x.client x.cancelled x.fuel a.storage (a.tasks x.chunk))) [
          | inl never ↦ absurd (ground arith)
          | inr (o, fetched) ↦
              let same : settle a x.chunk o ≡ b = ground arith in
              subst IsSound same (settle-IsSound sha256 checksum a x o i here serves fetched)
        ]

  pub attempts-IsSound :
      (sha256 : Bytes → Bytes) (checksum : Bool) (xs : List Attempt) (a b : Assembly)
      → AllServe content n xs
      → attempts sha256 checksum a xs ≡ some b
      → IsSound a
      → IsSound b
  unfolding attempts
  attempts-IsSound sha256 checksum [] a b all e i = subst IsSound (cc) i
  attempts-IsSound sha256 checksum (x ∷ xs) a b (here, serves, all) e i =
      elim (Option-cases (attempt sha256 checksum a x)) [
        | inl never ↦ absurd (ground arith)
        | inr (c, first) ↦
            attempts-IsSound sha256 checksum xs c b all (ground arith)
              (attempt-IsSound sha256 checksum a c x here serves first i)
      ]

-- A file is whole when its chunks are.
pub whole-byte :
    (content : ℕ → ℕ) (n : ℕ) (s : Storage)
    → ((i : ℕ) → i < chunk_count n → StoresChunk content s i (chunk_length n i))
    → (x : ℕ) → x < n
    → (contents s).byte x ≡ content x
whole-byte content n s all x lt =
    let i = x / range_size in
    let here = chunk_of_byte n x lt in
    let (low, high) = (chunk_cover n i x here).1 (lt, refl) in
    let at : chunk_offset i + (x - chunk_offset i) ≡ x = omega arith in
    subst (λ y. (contents s).byte y ≡ content y) at (all i here (x - chunk_offset i) (omega arith))

pub begin_assembly-IsSound :
    (content : ℕ → ℕ) (n : ℕ) (r : Requester) (name : Bytes) (kind : Option StorageKind)
    (complete : ℕ → Bool) (s : Storage)
    → ((i : ℕ) → i < chunk_count n → complete i ≡ true → StoresChunk content s i (chunk_length n i))
    → IsSound content n s (begin_assembly r name n kind complete s)
unfolding begin_assembly chunk_task
begin_assembly-IsSound content n r name kind complete s old = record {
  offset = λ i lt. refl;
  sized = λ i lt. refl;
  within = λ i lt. omega arith;
  stored = λ i lt x h. absurd (omega arith);
  whole = old;
  beyond = λ x far. refl;
}
