-- ===== src/Hls/Quote.antt =====
-- The quoting of paths in the list for ffmpeg.
use oget.Prelude.{◌≡◌, refl, List, [], ◌∷◌, ◌++◌, arith, inl, inr, Bool-cases, ◌==◌}
use oget.Prelude.Text.{Bytes}
use oget.Hls.{escape, concat_list}

-- A quoted path ends where the line ends.
escape_line :
    (p q x y : Bytes) → escape p ++ (39 ∷ 10 ∷ x) ≡ escape q ++ (39 ∷ 10 ∷ y) → (p ≡ q) × (x ≡ y)
unfolding escape
escape_line [] [] x y h = (refl, cc)
escape_line [] (d ∷ q) x y h = elim (Bool-cases (d == 39)) [
  | inl e ↦ absurd (ground arith)
  | inr e ↦ absurd (ground arith)
]
escape_line (c ∷ p) [] x y h = elim (Bool-cases (c == 39)) [
  | inl e ↦ absurd (ground arith)
  | inr e ↦ absurd (ground arith)
]
escape_line (c ∷ p) (d ∷ q) x y h = elim (Bool-cases (c == 39)) [
  | inl e ↦ elim (Bool-cases (d == 39)) [
    | inl f ↦ let (same, rest) = escape_line p q x y (ground arith) in (ground arith, rest)
    | inr f ↦ absurd (ground arith)
  ]
  | inr e ↦ elim (Bool-cases (d == 39)) [
    | inl f ↦ absurd (ground arith)
    | inr f ↦ let (same, rest) = escape_line p q x y (ground arith) in (ground arith, rest)
  ]
]

-- Different lists of files give different lists for ffmpeg, whatever quotes and line breaks the
-- paths have.
pub concat_list_injective : (ps qs : List Bytes) → concat_list ps ≡ concat_list qs → ps ≡ qs
unfolding concat_list
concat_list_injective [] [] h = refl
concat_list_injective [] (q ∷ qs) h = absurd (cc)
concat_list_injective (p ∷ ps) [] h = absurd (cc)
concat_list_injective (p ∷ ps) (q ∷ qs) h =
    let (same, rest) = escape_line p q (concat_list ps) (concat_list qs) (cc) in
    cc (same, concat_list_injective ps qs rest)
