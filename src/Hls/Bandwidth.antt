-- ===== src/Hls/Bandwidth.antt =====
-- The bandwidth that the line of a variant states, against ParseM3U8Segments of
-- pkg/oget/hls_tools.go, which looks for it by an index.
use native.Mathlib.Nat.{suc-add}
use oget.Prelude.{
  ℕ, suc, ◌+◌, ◌≡◌, refl, true, false, Option, none, some, [], ◌∷◌, ◌==◌, arith, if◌then◌else◌,
  drop, inl, inr, Bool-cases, Option-cases, ap, ◌∙◌,
}
use oget.Prelude.Int.{ℤ, pos}
use oget.Prelude.Text.{Bytes, codes, has_prefix, index}
use oget.Hls.{Tools, bandwidth, bandwidth_key, before_any, ends_number}

-- a text up to the first comma, space, carriage return or line feed
unfoldable pub number_part : Bytes → Bytes
number_part [] = []
number_part (c ∷ s) =
    let rest = number_part s in
    if c == b','
    then []
    else if c == b' '
    then []
    else if c == 13
    then []
    else if c == 10
    then []
    else c ∷ rest

-- The number behind the first `BANDWIDTH=` of a line, and 0 where there is none. It may be that of an
-- attribute whose name ends so, such as AVERAGE-BANDWIDTH.
unfoldable pub stated : {U : Type 0} → Tools U → Bytes → ℤ
unfolding number_part has_prefix
stated lib [] = pos 0
stated lib (c ∷ s) =
    let rest = stated lib s in
    if has_prefix (c ∷ s) (codes "BANDWIDTH=")
    then lib.parse_int (number_part (drop 10 (c ∷ s)))
    else rest

number_part-before_any : (s : Bytes) → before_any ends_number s ≡ number_part s
unfolding number_part
number_part-before_any [] = refl
number_part-before_any (c ∷ s) = ground (arith, number_part-before_any s)

module _ {U : Type 0} (lib : Tools U) where
  -- the number behind an index
  abbrev number_at : Bytes → Option ℕ → ℤ
  number_at line none = pos 0
  number_at line (some i) = lib.parse_int (before_any ends_number (drop (i + 10) line))

  further : Option ℕ → Option ℕ
  further none = none
  further (some i) = some (suc i)

  index-later :
      (c : ℕ) (s p : Bytes) → has_prefix (c ∷ s) p ≡ false → index (c ∷ s) p ≡ further (index s p)
  unfolding index further
  index-later c s p h = elim (Option-cases (index s p)) [
    | inl nowhere ↦ rw (h, nowhere) refl
    | inr (i, there) ↦ rw (h, there) refl
  ]

  index-here : (c : ℕ) (s p : Bytes) → has_prefix (c ∷ s) p ≡ true → index (c ∷ s) p ≡ some 0
  unfolding index
  index-here c s p h = rw h refl

  number_at-further :
      (c : ℕ) (s : Bytes) (o : Option ℕ) → number_at (c ∷ s) (further o) ≡ number_at s o
  unfolding further
  number_at-further c s none = refl
  number_at-further c s (some i) = rw (suc-add i 10) refl

  number_at-index : (line : Bytes) → number_at line (index line bandwidth_key) ≡ stated lib line
  unfolding stated
  number_at-index [] = unfold index in refl
  number_at-index (c ∷ s) = elim (Bool-cases (has_prefix (c ∷ s) bandwidth_key)) [
    | inl here ↦
        ap (number_at (c ∷ s)) (index-here c s bandwidth_key here)
        ∙ rw here (ap lib.parse_int (number_part-before_any (drop 10 (c ∷ s))))
    | inr not_here ↦
        ap (number_at (c ∷ s)) (index-later c s bandwidth_key not_here)
        ∙ number_at-further c s (index s bandwidth_key)
        ∙ number_at-index s
        ∙ rw not_here refl
  ]

  bandwidth-number_at :
      (line : Bytes) → bandwidth lib line ≡ number_at line (index line bandwidth_key)
  unfolding bandwidth
  bandwidth-number_at line = elim (Option-cases (index line bandwidth_key)) [
    | inl nowhere ↦ rw (nowhere, bandwidth) refl
    | inr (i, there) ↦ rw (there, bandwidth) refl
  ]

  pub bandwidth-stated : (line : Bytes) → bandwidth lib line ≡ stated lib line
  bandwidth-stated line = bandwidth-number_at line ∙ number_at-index line
