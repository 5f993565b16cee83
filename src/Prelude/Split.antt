-- ===== src/Prelude/Split.antt =====
-- Splitting a text at a byte, and looking for one that is not there.
use Prim.Native.Nat.{ℕ, ◌+◌}
use mathlib.Core.Bool.{false}
use mathlib.Core.List.{[], ◌∷◌, ◌++◌}
use mathlib.Core.Logic.{◌≢◌}
use mathlib.Core.Option.{Option, none, some}
use mathlib.Core.Path.{◌≡◌, refl, ap}
use native.Mathlib.Omega.{arith}
use oget.Prelude.Lists.{length, take, drop}
use oget.Prelude.Text.{Bytes, contains, has_prefix, index, split_once}

-- The byte is not in the text.
abbrev pub NoByte : ℕ → Bytes → Type 0
NoByte c [] = Unit
NoByte c (x ∷ s) = (x ≢ c) × NoByte c s

pub NoByte-append : (c : ℕ) (s t : Bytes) → NoByte c s → NoByte c t → NoByte c (s ++ t)
NoByte-append c [] t n m = m
NoByte-append c (x ∷ s) t (y, n) m = (y, NoByte-append c s t n m)

pub index_byte : (c : ℕ) (k v : Bytes) → NoByte c k → index (k ++ c ∷ v) (c ∷ []) ≡ some (length k)
unfolding index has_prefix
index_byte c [] v n = ground arith
index_byte c (x ∷ k) v (other, n) = ground (arith, index_byte c k v n)

pub index_absent : (c : ℕ) (k : Bytes) → NoByte c k → index k (c ∷ []) ≡ none
unfolding index has_prefix
index_absent c [] n = refl
index_absent c (x ∷ k) (other, n) = ground (arith, index_absent c k n)

pub take_front : (k v : Bytes) → take (length k) (k ++ v) ≡ k
take_front [] v = refl
take_front (c ∷ k) v = ap (λ s. c ∷ s) (take_front k v)

pub drop_front : (k v : Bytes) (c : ℕ) → drop (length k + 1) (k ++ c ∷ v) ≡ v
drop_front [] v c = refl
drop_front (x ∷ k) v c = ground (arith, drop_front k v c)

abbrev pub Parts : Type 0
Parts = Bytes × Option Bytes

pub split_at_byte :
    (c : ℕ) (k v : Bytes)
    → NoByte c k
    → ◌≡◌ {A = Parts} (split_once (k ++ c ∷ v) (c ∷ [])) (k, some v)
unfolding split_once
split_at_byte c k v n =
    rw (index_byte c k v n, split_once) (cc (take_front k (c ∷ v), drop_front k v c))

pub split_absent :
    (c : ℕ) (k : Bytes) → NoByte c k → ◌≡◌ {A = Parts} (split_once k (c ∷ [])) (k, none)
unfolding split_once
split_absent c k n = rw (index_absent c k n, split_once) refl

-- A text without a byte has no part with it.
has_prefix-absent : (c : ℕ) (p s r : Bytes) → NoByte c s → has_prefix s (p ++ c ∷ r) ≡ false
unfolding has_prefix
has_prefix-absent c [] [] r n = refl
has_prefix-absent c [] (x ∷ s) r (y, n) = ground arith
has_prefix-absent c (b ∷ p) [] r n = refl
has_prefix-absent c (b ∷ p) (x ∷ s) r (y, n) = ground (arith, has_prefix-absent c p s r n)

contains-absent : (c : ℕ) (s r : Bytes) → NoByte c s → contains s (c ∷ r) ≡ false
unfolding contains has_prefix
contains-absent c [] r n = refl
contains-absent c (x ∷ s) r (y, n) = ground (arith, contains-absent c s r n)

-- A text with one such byte has no part with two.
pub contains-two :
    (c : ℕ) (s t p r : Bytes)
    → NoByte c s
    → NoByte c t
    → contains (s ++ c ∷ t) (c ∷ (p ++ c ∷ r)) ≡ false
unfolding contains has_prefix
contains-two c [] t p r n m =
    ground (arith, has_prefix-absent c p t r m, contains-absent c t (p ++ c ∷ r) m)
contains-two c (x ∷ s) t p r (y, n) m = ground (arith, contains-two c s t p r n m)
