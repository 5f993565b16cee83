-- ===== src/Requester/Split.antt =====
-- The chunks of a file cover it exactly, and the loop of PrepareTasks submits each unfinished one.
use oget.Prelude.{
  ℕ, zero, suc, ◌+◌, ◌/◌, ◌<◌, ◌≤◌, ◌≡◌, refl, ◌↔◌, Bool, false, List, [], ◌∷◌, ◌++◌, arith, leb,
  if◌then◌else◌, length, map, concat, append_assoc, append-nil, Bool-cases, length-append, ◌∙◌, inl,
  inr,
}
use oget.Task.{ChunkTask, range_size}
use oget.Requester.{split, chunk_count, chunk_offset, chunk_length}
use oget.State.Sizes.{chunks, bytes}

-- The count of the loop is the count from which the bitset was sized.
pub chunk_count-chunks : (n : ℕ) → chunk_count n ≡ chunks n range_size
unfolding chunk_count
chunk_count-chunks n = ground arith

-- Every chunk has a place in the bitset.
pub chunk_has_room : (n i : ℕ) → i < chunk_count n → i / 8 < bytes n range_size
chunk_has_room n i h = omega (arith, chunk_count-chunks n)

-- The chunks of a file of n bytes: each begins where the one before it ends, the first at 0 and
-- the last ending at n, and each has between 1 and range_size bytes.
pub chunk_end :
    (n i : ℕ) → suc i < chunk_count n → chunk_offset i + chunk_length n i ≡ chunk_offset (suc i)
unfolding chunk_length
chunk_end n i h = ground arith

pub chunk_length_bounds :
    (n i : ℕ) → i < chunk_count n → (0 < chunk_length n i) × (chunk_length n i ≤ range_size)
unfolding chunk_length
chunk_length_bounds n i h = ground arith

-- The byte x lies in chunk i of a file of n bytes exactly when x is a byte of the file and i is
-- x / range_size: the chunks do not overlap, and none goes past the end.
pub chunk_cover :
    (n i x : ℕ)
    → i < chunk_count n
    → ((chunk_offset i ≤ x) × (x < chunk_offset i + chunk_length n i))
      ↔ ((x < n) × (i ≡ x / range_size))
unfolding chunk_length
chunk_cover n i x h = (λ p. ground arith, λ p. ground arith)

pub chunk_of_byte : (n x : ℕ) → x < n → x / range_size < chunk_count n
unfolding chunk_count
chunk_of_byte n x h = ground arith

-- The chunks among the k from i on that are not complete, in order.
abbrev pub unfinished : (ℕ → Bool) → ℕ → ℕ → List ℕ
unfinished complete i zero = []
unfinished complete i (suc k) =
    let rest = unfinished complete (suc i) k in if complete i then rest else i ∷ rest

abbrev pub All {ℓ κ} : {A : Type ℓ} → (A → Type κ) → List A → Type κ
All P [] = Unit
All P (x ∷ xs) = P x × All P xs

-- What is submitted is a prefix of the expected tasks, and all of them unless the context was found
-- cancelled.
abbrev pub Spells : List (List ChunkTask) × Bool → List ChunkTask → Type 0
Spells out expected =
    (rest : List ChunkTask) × (concat out.0 ++ rest ≡ expected) × (out.1 ≡ false → rest ≡ [])

module _ (done complete : ℕ → Bool) (task : ℕ → ChunkTask) (size : ℕ) where
  pub split-Spells :
      (k i : ℕ) (batch : List ChunkTask)
      → Spells
          (split done complete task size k i batch)
          (batch ++ map task (unfinished complete i k))
  unfolding split
  split-Spells zero i [] = ([], refl, λ h. refl)
  split-Spells zero i (t ∷ ts) = ([], simp append-nil, λ h. refl)
  split-Spells (suc k) i batch =
      let batch' = batch ++ task i ∷ [] in
      let skip = split-Spells k (suc i) batch in
      let full = split-Spells k (suc i) [] in
      let more = split-Spells k (suc i) batch' in
      elim (Bool-cases (complete i)) [
        | inl c ↦ rw c skip
        | inr c ↦ elim (Bool-cases (done i)) [
          | inl d ↦ rw (c, d) (batch ++ map task (i ∷ unfinished complete (suc i) k), refl, λ h. cc)
          | inr d ↦ elim (Bool-cases (leb size (length batch'))) [
            | inl l ↦ rw (c, d, l) (full.0, simp append_assoc (rw full.1), full.2)
            | inr l ↦ rw (c, d, l) (more.0, more.1 ∙ append_assoc batch (task i ∷ []) _, more.2)
          ]
        ]
      ]

  -- For a positive batch size, and a current batch that is smaller: no batch that is submitted is
  -- empty, and none has more than `size` tasks.
  pub split-All :
      (k i : ℕ) (batch : List ChunkTask)
      → 0 < size
      → length batch < size
      → All (λ b. (0 < length b) × (length b ≤ size)) (split done complete task size k i batch).0
  unfolding split
  split-All zero i [] h l = tt
  split-All zero i (t ∷ ts) h l = omega arith
  split-All (suc k) i batch h l =
      let batch' = batch ++ task i ∷ [] in
      let grown = length-append batch (task i ∷ []) in
      elim (Bool-cases (leb size (length batch'))) [
        | inl f ↦ ground (arith, grown, split-All k (suc i) batch h l, split-All k (suc i) [] h h)
        | inr f ↦ ground (
          arith,
          grown,
          split-All k (suc i) batch h l,
          split-All k (suc i) batch' h (ground (arith, grown)),
        )
      ]
