-- ===== src/Prelude/Members.antt =====
-- Members of lists that are selected or mapped.
use mathlib.Core.Bool.{Bool, true}
use mathlib.Core.List.Memᴰ
use mathlib.Core.List.{List, [], ◌∷◌, ◌++◌, Memᴰ, map}
use mathlib.Core.Logic.{inl, inr, ◌⊎◌}
use mathlib.Core.Path.{◌≡◌, refl, ap, subst, ◌∙◌}
use oget.Prelude.Lists.{select}
use oget.Prelude.Tests.{if◌then◌else◌, Bool-cases}

module _ {ℓ} {A : Type ℓ} where
  pub Memᴰ-select :
      (p : A → Bool) (x : A) (xs : List A) → Memᴰ x (select p xs) → Memᴰ x xs × (p x ≡ true)
  Memᴰ-select p x [] m = absurd (Memᴰ.not-nil m)
  Memᴰ-select p x (y ∷ ys) m = elim (Bool-cases (p y)) [
    | inr fails ↦
        let (there, passes) =
          Memᴰ-select p x ys
            (subst (λ b. Memᴰ x (if b then y ∷ select p ys else select p ys)) fails m) in
        (Memᴰ.tail there, passes)
    | inl pass ↦
        elim (Memᴰ.cases_cons
          (subst (λ b. Memᴰ x (if b then y ∷ select p ys else select p ys)) pass m)) [
            | inl same ↦ (Memᴰ.head same, ap p same ∙ pass)
            | inr later ↦
                let (there, passes) = Memᴰ-select p x ys later in (Memᴰ.tail there, passes)
          ]
  ]

  pub select-Memᴰ :
      (p : A → Bool) (x : A) (xs : List A) → Memᴰ x xs → p x ≡ true → Memᴰ x (select p xs)
  select-Memᴰ p x [] m h = absurd (Memᴰ.not-nil m)
  select-Memᴰ p x (y ∷ ys) (Memᴰ.head e) h = rw (← e, h) (Memᴰ.head refl)
  select-Memᴰ p x (y ∷ ys) (Memᴰ.tail m) h = elim (Bool-cases (p y)) [
    | inl pass ↦ rw pass (Memᴰ.tail (select-Memᴰ p x ys m h))
    | inr fails ↦ rw fails (select-Memᴰ p x ys m h)
  ]

  pub Memᴰ-append : (x : A) (xs ys : List A) → Memᴰ x (xs ++ ys) → Memᴰ x xs ⊎ Memᴰ x ys
  Memᴰ-append x [] ys m = inr m
  Memᴰ-append x (y ∷ xs) ys (Memᴰ.head e) = inl (Memᴰ.head e)
  Memᴰ-append x (y ∷ xs) ys (Memᴰ.tail m) = elim (Memᴰ-append x xs ys m) [
    | inl l ↦ inl (Memᴰ.tail l)
    | inr r ↦ inr r
  ]

  pub append-Memᴰ : (x : A) (xs ys : List A) → Memᴰ x xs ⊎ Memᴰ x ys → Memᴰ x (xs ++ ys)
  append-Memᴰ x [] ys (inl m) = absurd (Memᴰ.not-nil m)
  append-Memᴰ x (y ∷ xs) ys (inl (Memᴰ.head e)) = Memᴰ.head e
  append-Memᴰ x (y ∷ xs) ys (inl (Memᴰ.tail m)) = Memᴰ.tail (append-Memᴰ x xs ys (inl m))
  append-Memᴰ x [] ys (inr m) = m
  append-Memᴰ x (y ∷ xs) ys (inr m) = Memᴰ.tail (append-Memᴰ x xs ys (inr m))

module _ {ℓ κ} {A : Type ℓ} {B : Type κ} (f : A → B) where
  pub Memᴰ-map : (y : B) (xs : List A) → Memᴰ y (map f xs) → (x : A) × Memᴰ x xs × (y ≡ f x)
  Memᴰ-map y [] m = absurd (Memᴰ.not-nil m)
  Memᴰ-map y (x ∷ xs) m = elim (Memᴰ.cases_cons m) [
    | inl same ↦ (x, Memᴰ.head refl, same)
    | inr later ↦ let (z, there, e) = Memᴰ-map y xs later in (z, Memᴰ.tail there, e)
  ]

  pub map-Memᴰ : (x : A) (xs : List A) → Memᴰ x xs → Memᴰ (f x) (map f xs)
  map-Memᴰ x [] m = absurd (Memᴰ.not-nil m)
  map-Memᴰ x (y ∷ ys) (Memᴰ.head e) = Memᴰ.head (ap f e)
  map-Memᴰ x (y ∷ ys) (Memᴰ.tail m) = Memᴰ.tail (map-Memᴰ x ys m)
