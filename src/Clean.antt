-- ===== src/Clean.antt =====
-- CleanBT of pkg/oget/bt_clean.go: the removals that it tries. The operating system and filepath.Ext
-- are an argument.
pub mod Names
pub mod Exact
use oget.Prelude.{
  ℕ, ◌+◌, ◌-◌, Bool, true, false, not, ◌&&◌, ◌||◌, Option, none, some, List, [], ◌∷◌, ◌++◌, ltb,
  leb, ◌==◌, if◌then◌else◌, length, drop, map, select,
}
use oget.Prelude.Text.{Bytes, codes, str_eq, is_empty}
use oget.Url.{Library}

-- os.DirEntry
pub record Entry : Type 0 where
  pub name : Bytes
  pub is_dir : Bool

-- os.UserHomeDir, `none` for its error; whether os.Stat, os.Remove and os.RemoveAll of a path return
-- no error; os.ReadDir; filepath.Ext
pub record Host : Type 0 where
  pub home : Option Bytes
  pub stat : Bytes → Bool
  pub remove : Bytes → Bool
  pub remove_all : Bytes → Bool
  pub read_dir : Bytes → Option (List Entry)
  pub ext : Bytes → Bytes

-- A call of os.RemoveAll (`whole`) or os.Remove, and whether it is counted as cleaned.
pub record Removal : Type 0 where
  pub whole : Bool
  pub path : Bytes
  pub counted : Bool

-- [A-Za-z0-9_-]
unfoldable pub is_id_char : ℕ → Bool
is_id_char c =
    (leb b'A' c && leb c b'Z')
    || (leb b'a' c && leb c b'z')
    || (leb b'0' c && leb c b'9')
    || c == b'_'
    || c == b'-'

unfoldable pub all_id_chars : Bytes → Bool
unfolding is_id_char
all_id_chars [] = true
all_id_chars (c ∷ s) = is_id_char c && all_id_chars s

-- base64DirRegex.MatchString
unfoldable pub is_task_name : Bytes → Bool
unfolding all_id_chars
is_task_name name = length name == 22 && all_id_chars name

module _ (lib : Library) (h : Host) where
  -- the test of the last loop
  unfoldable pub is_state_name : Bytes → Bool
  unfolding str_eq
  is_state_name name =
      str_eq (h.ext name) (codes ".oget")
      || str_eq (h.ext name) (codes ".bits")
      || (ltb 6 (length name) && str_eq (drop (length name - 5) name) (codes ".oget"))

  abbrev pub session_db : Bytes → Bytes
  session_db home =
      lib.join (lib.join (lib.join home (codes ".oget")) (codes "bt")) (codes "session.db")

  clean_session : Option Bytes → List Removal
  clean_session none = []
  clean_session (some home) =
      let db = session_db home in
      if h.stat db then record { whole = false; path = db; counted = h.remove db } ∷ [] else []

  clean_local : List Removal
  clean_local =
      if h.stat (codes ".oget_bt")
      then record { whole = true; path = codes ".oget_bt"; counted = true } ∷ []
      else []

  abbrev pub remove_task : Bytes → Entry → Removal
  remove_task dir e =
      let path = lib.join dir e.name in
      record { whole = true; path = path; counted = h.remove_all path }

  abbrev pub remove_state : Bytes → Entry → Removal
  remove_state dir e =
      let path = lib.join dir e.name in
      record { whole = false; path = path; counted = h.remove path }

  clean_entries : Bytes → List Entry → List Removal
  unfolding is_task_name is_state_name
  clean_entries dir entries =
      map (remove_task dir) (select (λ e. e.is_dir && is_task_name e.name) entries)
      ++ map (remove_state dir) (select (λ e. not e.is_dir && is_state_name e.name) entries)

  clean_listing : Bytes → Option (List Entry) → List Removal
  unfolding clean_entries
  clean_listing dir none = []
  clean_listing dir (some entries) = clean_entries dir entries

  -- the argument, as the rest of the function has it
  abbrev pub directory : Bytes → Bytes
  directory target = if is_empty target then codes "." else target

  -- CleanBT, which returns nil always
  unfoldable pub clean_bt : Bytes → List Removal
  unfolding clean_session clean_local clean_listing
  clean_bt target =
      let dir = directory target in
      clean_session h.home ++ (clean_local ++ clean_listing dir (h.read_dir dir))

-- cleanedCount
abbrev pub cleaned_count : List Removal → ℕ
cleaned_count [] = 0
cleaned_count (r ∷ rs) = (if r.counted then 1 else 0) + cleaned_count rs
