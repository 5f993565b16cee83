-- ===== src/Clean/Exact.antt =====
-- What CleanBT removes, and what it leaves.
use mathlib.Core.List.Memᴰ
use mathlib.Core.List.{Memᴰ}
use oget.Prelude.{
  ℕ, ◌<◌, ◌≡◌, refl, Bool, true, false, not, ◌&&◌, Option, none, some, List, [], ◌∷◌, arith,
  if◌then◌else◌, length, get_or, map, select, Bool-cases, inl, inr, ◌⊎◌, ◌↔◌, sym, subst, zero, suc,
}
use oget.Prelude.Members.{Memᴰ-append, append-Memᴰ, Memᴰ-map, map-Memᴰ, Memᴰ-select, select-Memᴰ}
use oget.Prelude.Text.{Bytes, codes}
use oget.Url.{Library}
use oget.Clean.{
  Entry, Host, Removal, is_id_char, all_id_chars, is_task_name, is_state_name, session_db,
  clean_session, clean_local, clean_entries, clean_listing, remove_task, remove_state, directory,
  clean_bt,
}
use oget.Clean.Names.{EndsWith, IsExt, is_state_name_iff}

-- a name of 22 letters, digits, dashes and underscores
abbrev pub IsTaskName : Bytes → Type 0
IsTaskName name =
    (length name ≡ 22) × ((i : ℕ) → i < length name → is_id_char (get_or name i 0) ≡ true)

-- A removal of the contents of a directory: of a directory with such a name, or of a file with the
-- name of a state file.
abbrev pub OfEntry : Library → Host → Bytes → Entry → Removal → Type 0
OfEntry lib h dir e r =
    ((e.is_dir ≡ true) × IsTaskName e.name × (r ≡ remove_task lib h dir e))
    ⊎ ((e.is_dir ≡ false)
        × (EndsWith e.name (codes ".oget") ⊎ EndsWith e.name (codes ".bits"))
        × (r ≡ remove_state lib h dir e))

-- The removal of the database of the session or of the directory that stands in for it, each where
-- os.Stat finds it. The second one is counted whether it succeeds or not.
abbrev pub OfSession : Library → Host → Removal → Type 0
OfSession lib h r =
    ((home : Bytes) × (h.home ≡ some home)
      × (h.stat (session_db lib h home) ≡ true)
      × (r ≡ record {
        whole = false;
        path = session_db lib h home;
        counted = h.remove (session_db lib h home);
      }))
    ⊎ ((h.stat (codes ".oget_bt") ≡ true)
        × (r ≡ record { whole = true; path = codes ".oget_bt"; counted = true }))

-- A removal of one of the entries of the directory.
abbrev pub OfEntries : Library → Host → Bytes → Removal → Type 0
OfEntries lib h dir r =
    (entries : List Entry) × (h.read_dir dir ≡ some entries)
    × ((e : Entry) × Memᴰ e entries × OfEntry lib h dir e r)

all_id_chars_sound :
    (s : Bytes) (i : ℕ) → all_id_chars s ≡ true → i < length s → is_id_char (get_or s i 0) ≡ true
unfolding all_id_chars
all_id_chars_sound [] i h lt = absurd (omega arith)
all_id_chars_sound (c ∷ s) zero h lt = elim (Bool-cases (is_id_char c)) [
  | inl y ↦ y
  | inr n ↦ ground arith
]
all_id_chars_sound (c ∷ s) (suc i) h lt = all_id_chars_sound s i (ground arith) (omega arith)

all_id_chars_complete :
    (s : Bytes)
    → ((i : ℕ) → i < length s → is_id_char (get_or s i 0) ≡ true)
    → all_id_chars s ≡ true
unfolding all_id_chars
all_id_chars_complete [] f = refl
all_id_chars_complete (c ∷ s) f =
    let here = f 0 (omega arith) in
    let later = all_id_chars_complete s (λ i lt. f (suc i) (omega arith)) in rw (here, later) refl

is_task_name_sound : (name : Bytes) → is_task_name name ≡ true → IsTaskName name
unfolding is_task_name
is_task_name_sound name h = elim (Bool-cases (all_id_chars name)) [
  | inl all ↦ (ground arith, λ i lt. all_id_chars_sound name i all lt)
  | inr some_other ↦ absurd (ground arith)
]

is_task_name_complete : (name : Bytes) → IsTaskName name → is_task_name name ≡ true
unfolding is_task_name
is_task_name_complete name (n, f) = rw (all_id_chars_complete name f) (ground arith)

of_test : (b : Bool) (x r : Removal) → Memᴰ r (if b then x ∷ [] else []) → (b ≡ true) × (r ≡ x)
of_test true x r m = (refl, Memᴰ.eq_of_singleton m)
of_test false x r m = absurd (Memᴰ.not-nil m)

to_test : (b : Bool) (x r : Removal) → b ≡ true → r ≡ x → Memᴰ r (if b then x ∷ [] else [])
to_test b x r there same = rw (there, same) (Memᴰ.head refl)

module _ (lib : Library) (h : Host) (is : IsExt h.ext) where
  clean_session-OfSession :
      (home : Option Bytes) (r : Removal)
      → h.home ≡ home
      → Memᴰ r (clean_session lib h home)
      → OfSession lib h r
  unfolding clean_session
  clean_session-OfSession none r e m = absurd (Memᴰ.not-nil m)
  clean_session-OfSession (some home) r e m =
      let (there, same) = of_test (h.stat (session_db lib h home)) _ r m in
      inl (home, e, there, same)

  clean_local-OfSession : (r : Removal) → Memᴰ r (clean_local lib h) → OfSession lib h r
  unfolding clean_local
  clean_local-OfSession r m = inr (of_test (h.stat (codes ".oget_bt")) _ r m)

  OfSession-tried :
      (r : Removal)
      → OfSession lib h r
      → Memᴰ r (clean_session lib h h.home) ⊎ Memᴰ r (clean_local lib h)
  unfolding clean_session clean_local
  OfSession-tried r (inl (home, at, there, same)) =
      inl (rw (at, clean_session) (to_test (h.stat (session_db lib h home)) _ r there same))
  OfSession-tried r (inr (there, same)) = inr (to_test (h.stat (codes ".oget_bt")) _ r there same)

  abbrev is_task : Entry → Bool
  is_task e = e.is_dir && is_task_name e.name

  abbrev is_state : Entry → Bool
  is_state e = not e.is_dir && is_state_name lib h e.name

  module _ (dir : Bytes) (entries : List Entry) where
    clean_entries_sound :
        (r : Removal)
        → Memᴰ r (clean_entries lib h dir entries)
        → (e : Entry) × Memᴰ e entries × OfEntry lib h dir e r
    unfolding clean_entries
    clean_entries_sound r m =
        let tasks = select is_task entries in
        let states = select is_state entries in
        elim (Memᴰ-append r (map (remove_task lib h dir) tasks)
          (map (remove_state lib h dir) states) m) [
            | inl task ↦
                let (e, there, same) = Memᴰ-map (remove_task lib h dir) r tasks task in
                let (listed, test) = Memᴰ-select is_task e entries there in
                (e, listed, inl (ground arith, is_task_name_sound e.name (ground arith), same))
            | inr state ↦
                let (e, there, same) = Memᴰ-map (remove_state lib h dir) r states state in
                let (listed, test) = Memᴰ-select is_state e entries there in
                (
                  e,
                  listed,
                  inr (ground arith, (is_state_name_iff lib h e.name is).0 (ground arith), same),
                )
          ]

    clean_entries_complete :
        (e : Entry) (r : Removal)
        → Memᴰ e entries
        → OfEntry lib h dir e r
        → Memᴰ r (clean_entries lib h dir entries)
    unfolding clean_entries
    clean_entries_complete e r m of =
        let tasks = select is_task entries in
        let states = select is_state entries in
        append-Memᴰ r (map (remove_task lib h dir) tasks) (map (remove_state lib h dir) states)
          (elim of [
            | inl (a_dir, task, same) ↦
                let passes : is_task e ≡ true =
                  rw (a_dir, is_task_name_complete e.name task) refl in
                inl (
                  subst (λ x. Memᴰ x (map (remove_task lib h dir) tasks)) (sym same)
                    (map-Memᴰ (remove_task lib h dir) e tasks
                      (select-Memᴰ is_task e entries m passes)))
            | inr (a_file, ends, same) ↦
                let passes : is_state e ≡ true =
                  rw (a_file, (is_state_name_iff lib h e.name is).1 ends) refl in
                inr (
                  subst (λ x. Memᴰ x (map (remove_state lib h dir) states)) (sym same)
                    (map-Memᴰ (remove_state lib h dir) e states
                      (select-Memᴰ is_state e entries m passes)))
          ])

  listed :
      (dir : Bytes) (answer : Option (List Entry)) (r : Removal)
      → h.read_dir dir ≡ answer
      → Memᴰ r (clean_listing lib h dir answer)
      → (entries : List Entry) × (h.read_dir dir ≡ some entries)
        × ((e : Entry) × Memᴰ e entries × OfEntry lib h dir e r)
  unfolding clean_listing
  listed dir none r e m = absurd (Memᴰ.not-nil m)
  listed dir (some entries) r e m = (entries, e, clean_entries_sound dir entries r m)

-- Where filepath.Ext finds the part behind the last dot, the removals that CleanBT tries are exactly
-- these: that of the database of the session, and that of the directory that stands in for it, where
-- they are found; and, of the contents of the directory that it is given, those of the directories
-- whose names are 22 letters, digits, dashes and underscores, with all that is in them, and those of
-- the other entries whose names end with ".oget" or ".bits". Each is counted as cleaned where it
-- succeeds, and the second one always.
pub clean_bt_exact :
    (lib : Library) (h : Host) (target : Bytes) (r : Removal)
    → IsExt h.ext
    → Memᴰ r (clean_bt lib h target)
      ↔ (OfSession lib h r ⊎ OfEntries lib h (directory lib h target) r)
unfolding clean_bt
clean_bt_exact lib h target r is = (sound, complete)
  where
    sound :
        Memᴰ r (clean_bt lib h target)
        → OfSession lib h r ⊎ OfEntries lib h (directory lib h target) r
    sound m = elim (Memᴰ-append r (clean_session lib h h.home) _ m) [
      | inl session ↦ inl (clean_session-OfSession lib h is h.home r refl session)
      | inr more ↦ elim (Memᴰ-append r (clean_local lib h) _ more) [
        | inl local ↦ inl (clean_local-OfSession lib h is r local)
        | inr rest ↦ inr (listed lib h is (directory lib h target) _ r refl rest)
      ]
    ]

    complete :
        OfSession lib h r ⊎ OfEntries lib h (directory lib h target) r
        → Memᴰ r (clean_bt lib h target)
    complete (inl session) = elim (OfSession-tried lib h is r session) [
      | inl db ↦ append-Memᴰ r (clean_session lib h h.home) _ (inl db)
      | inr local ↦
          append-Memᴰ r (clean_session lib h h.home) _
            (inr (append-Memᴰ r (clean_local lib h) _ (inl local)))
    ]
    complete (inr (entries, there, (e, m, of))) = append-Memᴰ r (clean_session lib h h.home) _ (
        inr (
          append-Memᴰ r (clean_local lib h) _ (
            inr (
              subst (λ a. Memᴰ r (clean_listing lib h (directory lib h target) a)) (sym there)
                (unfold clean_listing in
                  clean_entries_complete lib h is (directory lib h target) entries e r m of)))))
