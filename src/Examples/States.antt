-- ===== src/Examples/States.antt =====
-- The theorems about pkg/oget/state.go at concrete inputs.
use oget.Prelude.{
  ℕ, zero, suc, ◌≤◌, ◌≡◌, refl, true, false, if◌then◌else◌, ◌==◌, some, [], ◌∷◌, arith, inl, inr,
}
use oget.Prelude.Int.{pos}
use oget.State.{
  Bitset, test_bit, DownloadState, is_complete, mark_complete, ok, load_state, percent_complete,
  set_bit,
}
use oget.State.Mark.{is_complete-mark_complete, set_bit-IsMirrored, IsMirrored, opened}
use oget.State.Create.{load_state-IsStored}
use oget.State.Count.{percent_complete-tally, tally}
use oget.State.Resume.{session, session-resumes, marked, saved_info}
use oget.State.Sizes.{chunks}
use oget.Task.{range_size}
use oget.Samples.{
  toy_codec, toy_codec-IsFaithful, all_well, sample_info, sample_bitset, sample_bitset-IsStored,
  sample_length, sample_size,
}

session-resumes_example :
    (t : DownloadState) × (session toy_codec all_well all_well 0 [] 10 4 [] [] true
        ((5, 0) ∷ (6, 2) ∷ [])
      ≡ ok t)
    × ((j : ℕ) → is_complete t j ≡ marked ((5, 0) ∷ (6, 2) ∷ []) j)
    × (t.info ≡ record (saved_info 0 [] 10 4 [] []) { updated_at = 0 })
session-resumes_example =
    session-resumes toy_codec all_well all_well 0 [] 10 4 [] [] true ((5, 0) ∷ (6, 2) ∷ [])
      (10 ∷ 4 ∷ 0 ∷ []) toy_codec-IsFaithful (refl, refl, inl refl) (refl, refl)
      (refl, refl, inl refl) (inl refl) (omega arith) (omega arith) refl (omega arith)
      (omega arith, (omega arith, tt))

is_complete-mark_complete_example :
    is_complete (mark_complete true 7 (opened sample_info sample_bitset) 2) 2
    ≡ (if 2 == 2 then true else is_complete (opened sample_info sample_bitset) 2)
is_complete-mark_complete_example =
    is_complete-mark_complete true 7 sample_info sample_bitset 2 2
      sample_bitset-IsStored.mirrored.are_bytes (omega (arith, sample_length))

set_bit-IsMirrored_example : IsMirrored (set_bit true sample_bitset 2)
set_bit-IsMirrored_example =
    set_bit-IsMirrored true sample_bitset 2 (omega (arith, sample_length)) (inr refl)
      sample_bitset-IsStored.mirrored

load_state-IsStored_example :
    load_state toy_codec all_well sample_bitset.file
    ≡ ok (
        opened
          (record sample_info { updated_at = toy_codec.stored_time sample_info.updated_at })
          (record sample_bitset { is_mmap = true }))
load_state-IsStored_example =
    load_state-IsStored toy_codec all_well sample_info sample_bitset toy_codec-IsFaithful
      (refl, refl, inl refl) sample_bitset-IsStored

-- two of the three chunks
abbrev two_done : Bitset
two_done = record sample_bitset { bits = 5 ∷ [] }

two_done-clear :
    (k : ℕ)
    → chunks sample_size range_size ≤ k
    → is_complete (opened sample_info two_done) k ≡ false
unfolding is_complete test_bit
two_done-clear zero h = absurd (omega arith)
two_done-clear (suc zero) h = absurd (omega arith)
two_done-clear (suc (suc zero)) h = absurd (omega arith)
two_done-clear (suc (suc (suc zero))) h = refl
two_done-clear (suc (suc (suc (suc zero)))) h = refl
two_done-clear (suc (suc (suc (suc (suc zero))))) h = refl
two_done-clear (suc (suc (suc (suc (suc (suc zero)))))) h = refl
two_done-clear (suc (suc (suc (suc (suc (suc (suc zero))))))) h = refl
two_done-clear (suc (suc (suc (suc (suc (suc (suc (suc k)))))))) h = ground arith

percent_complete-tally_example :
    percent_complete (opened sample_info two_done)
    ≡ some (
      tally (is_complete (opened sample_info two_done)) 0 (chunks sample_size range_size),
      pos (chunks sample_size range_size),
    )
percent_complete-tally_example =
    percent_complete-tally sample_info two_done sample_size range_size refl refl (omega arith)
      (omega arith) (omega arith) (omega arith) two_done-clear
