-- ===== src/Storage/Kind.antt =====
-- ReadAtFrom leaves a storage of the same kind: the same disk, or a mapping of the same length.
use oget.Prelude.{
  ℕ, zero, suc, ◌+◌, ◌-◌, ◌≡◌, refl, true, false, ltb, leb, length, min, inl, inr, Bool-cases,
  Option-cases, ◌∙◌,
}
use oget.File.{File}
use oget.Reader.{Reader, read}
use oget.Storage.{Storage, file, mapped, fitting, buffer_size, read_loop, fill_loop, read_at_from}

abbrev pub SameKind : Storage → Storage → Type 0
SameKind (file f room) (file g room') = room ≡ room'
SameKind (mapped f len) (mapped g len') = len ≡ len'
SameKind (file f room) (mapped g len) = true ≡ false
SameKind (mapped f len) (file g room) = true ≡ false

pub SameKind-refl : (s : Storage) → SameKind s s
SameKind-refl (file f room) = refl
SameKind-refl (mapped f len) = refl

pub SameKind-trans : (s t u : Storage) → SameKind s t → SameKind t u → SameKind s u
SameKind-trans (file f r) (file g r') (file h r'') p q = p ∙ q
SameKind-trans (file f r) (file g r') (mapped h l) p q = q
SameKind-trans (file f r) (mapped g l) u p q = cc
SameKind-trans (mapped f l) (file g r) u p q = cc
SameKind-trans (mapped f l) (mapped g l') (file h r) p q = q
SameKind-trans (mapped f l) (mapped g l') (mapped h l'') p q = p ∙ q

module _ (room off count : ℕ) where
  read_loop-SameKind :
      (k : ℕ) (f g : File) (r : Reader) (total : ℕ)
      → SameKind (file g room) (read_loop k room off count f r total).storage
  unfolding read_loop
  read_loop-SameKind zero f g r total = refl
  read_loop-SameKind (suc k) f g r total = elim (Bool-cases (leb count total)) [
    | inl full ↦ rw full refl
    | inr more ↦
        let o = read (min buffer_size (count - total)) r in
        let nw = fitting room (off + total) o.got in
        elim (Bool-cases (ltb nw (length o.got))) [
          | inl short ↦ rw (more, short) refl
          | inr all ↦ elim (Option-cases o.error) [
            | inr (e, ended) ↦ rw (more, all, ended) refl
            | inl goes_on ↦ rw (more, all, goes_on) (read_loop-SameKind k _ g o.reader (total + nw))
          ]
        ]
  ]

module _ (len off count : ℕ) where
  fill_loop-SameKind :
      (k : ℕ) (f g : File) (r : Reader) (total : ℕ)
      → SameKind (mapped g len) (fill_loop k len off count f r total).storage
  unfolding fill_loop
  fill_loop-SameKind zero f g r total = refl
  fill_loop-SameKind (suc k) f g r total = elim (Bool-cases (leb count total)) [
    | inl full ↦ rw full refl
    | inr more ↦
        let o = read (count - total) r in
        elim (Option-cases o.error) [
          | inl goes_on ↦
              rw (more, goes_on) (fill_loop-SameKind k _ g o.reader (total + length o.got))
          | inr (e, ended) ↦ elim (Bool-cases (leb count (total + length o.got))) [
            | inl enough ↦ rw (more, ended, enough) refl
            | inr few ↦ rw (more, ended, few) refl
          ]
        ]
  ]

pub read_at_from-SameKind :
    (s : Storage) (r : Reader) (off count : ℕ) → SameKind s (read_at_from s r off count).storage
unfolding read_at_from
read_at_from-SameKind (file f room) r off count = read_loop-SameKind room off count _ f f r 0
read_at_from-SameKind (mapped f len) r off count = elim (Bool-cases (leb len off)) [
  | inl past ↦ rw past refl
  | inr inside ↦ rw inside (fill_loop-SameKind len off (min count (len - off)) _ f f r 0)
]
