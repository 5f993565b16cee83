-- ===== src/Clean/Names.antt =====
-- Which names CleanBT takes for those of state files.
use oget.Prelude.{
  ◌-◌, ◌≡◌, ◌≢◌, refl, true, [], ◌∷◌, ◌++◌, arith, length, take, drop, take-append-drop, Bool-cases,
  inl, inr, ◌⊎◌, ◌↔◌, ap, sym, ◌∙◌, subst,
}
use oget.Prelude.Text.{Bytes, codes, str_eq, str_eq_iff}
use oget.Url.{Library}
use oget.Clean.{Host, is_state_name}

-- The text ends with the other one.
abbrev pub EndsWith : Bytes → Bytes → Type 0
EndsWith name s = (p : Bytes) × (name ≡ p ++ s)

-- no dot and no slash
abbrev pub IsPlain : Bytes → Type 0
IsPlain [] = Unit
IsPlain (c ∷ s) = (c ≢ b'.') × (c ≢ b'/') × IsPlain s

-- filepath.Ext: the part from the last dot on, if it is behind the last slash, and empty otherwise.
pub record IsExt (ext : Bytes → Bytes) : Type 0 where
  pub found : (p s : Bytes) → IsPlain s → ext (p ++ b'.' ∷ s) ≡ b'.' ∷ s
  pub suffix : (name : Bytes) → EndsWith name (ext name)

ends_with :
    (lib : Library) (h : Host) (name s : Bytes)
    → IsExt h.ext
    → str_eq (h.ext name) s ≡ true
    → EndsWith name s
ends_with lib h name s is e =
    subst (EndsWith name) ((str_eq_iff (h.ext name) s).0 e) (is.suffix name)

-- The text behind the last dot is found again.
ends_in :
    (lib : Library) (h : Host) (name s : Bytes)
    → IsExt h.ext
    → IsPlain s
    → EndsWith name (b'.' ∷ s)
    → str_eq (h.ext name) (b'.' ∷ s) ≡ true
ends_in lib h name s is plain (p, e) =
    (str_eq_iff (h.ext name) (b'.' ∷ s)).1 (ap h.ext e ∙ is.found p s plain)

-- The names are those that end with ".oget" or ".bits"; the third test of the code adds none.
pub is_state_name_iff :
    (lib : Library) (h : Host) (name : Bytes)
    → IsExt h.ext
    → (is_state_name lib h name ≡ true)
      ↔ (EndsWith name (codes ".oget") ⊎ EndsWith name (codes ".bits"))
unfolding is_state_name
is_state_name_iff lib h name is = (there, back)
  where
    there :
        is_state_name lib h name ≡ true
        → EndsWith name (codes ".oget") ⊎ EndsWith name (codes ".bits")
    there e = elim (Bool-cases (str_eq (h.ext name) (codes ".oget"))) [
      | inl oget ↦ inl (ends_with lib h name (codes ".oget") is oget)
      | inr x ↦ elim (Bool-cases (str_eq (h.ext name) (codes ".bits"))) [
        | inl bits ↦ inr (ends_with lib h name (codes ".bits") is bits)
        | inr y ↦
            let n = length name - 5 in
            let end : str_eq (drop n name) (codes ".oget") ≡ true = ground arith in
            inl (
              take n name,
              sym (take-append-drop n name)
                  ∙ ap (λ z. take n name ++ z) ((str_eq_iff (drop n name) (codes ".oget")).0 end),
            )
      ]
    ]

    back :
        EndsWith name (codes ".oget") ⊎ EndsWith name (codes ".bits")
        → is_state_name lib h name ≡ true
    back (inl w) = rw (ends_in lib h name (codes "oget") is (omega arith) w) refl
    back (inr w) = let e = ends_in lib h name (codes "bits") is (omega arith) w in ground arith
