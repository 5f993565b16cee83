-- ===== src/Prelude/Trim.antt =====
-- Trimming leaves a text that neither begins nor ends with what is trimmed.
use Prim.Native.Nat.{ℕ}
use mathlib.Core.Bool.{Bool, false}
use mathlib.Core.List.{
  [], ◌∷◌, ◌++◌, reverse, reverse-append, reverse-reverse, reverse-cons, append_assoc,
}
use mathlib.Core.Logic.{◌≢◌}
use mathlib.Core.Path.{◌≡◌, refl, ap, sym, ◌∙◌, subst}
use oget.Prelude.Tests.{◌==◌}
use oget.Prelude.Text.{Bytes, drop_while, is_space, trim, trim_space}

-- Every byte fails the test.
abbrev pub Fails : (ℕ → Bool) → Bytes → Type 0
Fails p [] = Unit
Fails p (c ∷ s) = (p c ≡ false) × Fails p s

Fails-append : (p : ℕ → Bool) (s t : Bytes) → Fails p s → Fails p t → Fails p (s ++ t)
Fails-append p [] t f g = g
Fails-append p (c ∷ s) t (x, f) g = (x, Fails-append p s t f g)

Fails-reverse : (p : ℕ → Bool) (s : Bytes) → Fails p s → Fails p (reverse s)
Fails-reverse p [] f = tt
Fails-reverse p (c ∷ s) (x, f) =
    subst (Fails p) (sym (reverse-cons c s))
      (Fails-append p (reverse s) (c ∷ []) (Fails-reverse p s f) (x, tt))

drop_while_kept : (p : ℕ → Bool) (s t : Bytes) → s ≢ [] → Fails p s → drop_while p (s ++ t) ≡ s ++ t
drop_while_kept p [] t n f = absurd (n refl)
drop_while_kept p (c ∷ s) t n (x, f) = rw x refl

reverse-some : (s : Bytes) → s ≢ [] → reverse s ≢ []
reverse-some s n e = n (sym (reverse-reverse s) ∙ ap reverse e)

-- a text with a beginning and an end that are not trimmed
module _ (p : ℕ → Bool) (a m z : Bytes) (some_a : a ≢ []) (some_z : z ≢ []) (fa : Fails p a)
    (fz : Fails p z) where
  backwards : reverse (a ++ (m ++ z)) ≡ reverse z ++ (reverse m ++ reverse a)
  backwards =
      reverse-append a (m ++ z)
      ∙ ap (λ t. t ++ reverse a) (reverse-append m z)
      ∙ append_assoc (reverse z) (reverse m) (reverse a)

  kept : reverse (drop_while p (reverse (drop_while p (a ++ (m ++ z))))) ≡ a ++ (m ++ z)
  kept =
      ap (λ t. reverse (drop_while p (reverse t))) (drop_while_kept p a (m ++ z) some_a fa)
      ∙ ap (λ t. reverse (drop_while p t)) backwards
      ∙ ap reverse (
          drop_while_kept p (reverse z) (reverse m ++ reverse a) (reverse-some z some_z)
            (Fails-reverse p z fz))
      ∙ ap reverse (sym backwards)
      ∙ reverse-reverse (a ++ (m ++ z))

pub trim_space_kept :
    (a m z : Bytes)
    → a ≢ []
    → z ≢ []
    → Fails is_space a
    → Fails is_space z
    → trim_space (a ++ (m ++ z)) ≡ a ++ (m ++ z)
unfolding trim_space
trim_space_kept a m z some_a some_z fa fz = kept is_space a m z some_a some_z fa fz

pub trim_kept :
    (b : ℕ) (a m z : Bytes)
    → a ≢ []
    → z ≢ []
    → Fails (λ c. c == b) a
    → Fails (λ c. c == b) z
    → trim b (a ++ (m ++ z)) ≡ a ++ (m ++ z)
unfolding trim
trim_kept b a m z some_a some_z fa fz = kept (λ c. c == b) a m z some_a some_z fa fz
