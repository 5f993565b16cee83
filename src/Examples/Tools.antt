-- ===== src/Examples/Tools.antt =====
-- The theorems about sizes, CleanBT, the command line, the transport and the mapped handler at
-- concrete inputs.

use mathlib.Core.List.{Memᴰ}
use oget.Prelude.{
  ℕ, ◌*◌, ◌<◌, ◌≤◌, ◌≡◌, refl, Bool, true, false, Option, some, List, [], ◌∷◌, ◌++◌, arith, ◌==◌,
  if◌then◌else◌, length, get_or, inl, inr, ◌⊎◌, ◌↔◌, append_assoc, append-nil, ap, sym, ◌∙◌,
  Bool-cases,
}
use oget.Prelude.Int.{ℤ, pos}
use oget.Prelude.Text.{Bytes, codes, str_eq, is_empty, trim_space}
use oget.Url.{Url}
use oget.File.{created}
use oget.Reader.{Reader, eof}
use oget.Storage.{mapped}
use oget.HumanSize.{humanize_size, humanize_size_lem, scaled, unit_letters, denominators}
use oget.Clean.{Entry, Host, Removal, clean_bt, remove_state}
use oget.Clean.Names.{IsPlain, IsExt}
use oget.Clean.Exact.{OfSession, OfEntries, clean_bt_exact}
use oget.Cli.{Flags, header, add_header}
use oget.Cli.Headers.{header-add_header}
use oget.Storage.Mapping.{
  Mapping, close_mapping, write_mapping, read_mapping, fill_mapping, sync_mapping,
  close_mapping_safe,
}
use oget.Samples.{toy_library}

humanize_size_lem_example :
    (k : ℕ) × (k < length unit_letters)
    × (humanize_size (pos 5000000)
        ≡ some (scaled 5000000 (get_or denominators k 0) (get_or unit_letters k 0)))
    × (get_or denominators k 0 ≤ 5000000)
    × (5000000 < 1024 * get_or denominators k 0)
humanize_size_lem_example = humanize_size_lem 5000000 (omega arith) (omega arith)

-- filepath.Ext: the candidate that the bytes so far leave
abbrev next_ext : Bytes → ℕ → Bytes
next_ext cur c =
    if c == b'.'
    then b'.' ∷ []
    else if c == b'/'
    then []
    else if is_empty cur
    then []
    else cur ++ c ∷ []

ext_from : Bytes → Bytes → Bytes
ext_from cur [] = cur
ext_from cur (c ∷ s) = ext_from (next_ext cur c) s

ext_from-plain : (x : ℕ) (cur s : Bytes) → IsPlain s → ext_from (x ∷ cur) s ≡ (x ∷ cur) ++ s
unfolding ext_from
ext_from-plain x cur [] p = ap (λ t. x ∷ t) (sym (append-nil cur))
ext_from-plain x cur (c ∷ s) (dot, slash, p) =
    let step : next_ext (x ∷ cur) c ≡ x ∷ (cur ++ c ∷ []) = ground arith in
    ap (λ e. ext_from e s) step
    ∙ ext_from-plain x (cur ++ c ∷ []) s p
    ∙ ap (λ t. x ∷ t) (append_assoc cur (c ∷ []) s)

ext_from-found : (cur p s : Bytes) → IsPlain s → ext_from cur (p ++ b'.' ∷ s) ≡ b'.' ∷ s
unfolding ext_from
ext_from-found cur [] s plain = ext_from-plain b'.' [] s plain
ext_from-found cur (c ∷ p) s plain = ext_from-found (next_ext cur c) p s plain

split_next : (q cur : Bytes) (c : ℕ) → (q' : Bytes) × ((q ++ cur) ++ c ∷ [] ≡ q' ++ next_ext cur c)
split_next q cur c = elim (Bool-cases (c == b'.')) [
  | inl dot ↦ (q ++ cur, ground arith)
  | inr x ↦ elim (Bool-cases (c == b'/')) [
    | inl slash ↦ ((q ++ cur) ++ c ∷ [], rw (x, slash) (sym (append-nil _)))
    | inr y ↦ elim (Bool-cases (is_empty cur)) [
      | inl empty ↦ ((q ++ cur) ++ c ∷ [], rw (x, y, empty) (sym (append-nil _)))
      | inr more ↦ (q, rw (x, y, more) (append_assoc q cur (c ∷ [])))
    ]
  ]
]

ext_from-suffix : (q cur s : Bytes) → (p : Bytes) × ((q ++ cur) ++ s ≡ p ++ ext_from cur s)
unfolding ext_from
ext_from-suffix q cur [] = (q, append-nil (q ++ cur))
ext_from-suffix q cur (c ∷ s) =
    let (q', step) = split_next q cur c in
    let (p, e) = ext_from-suffix q' (next_ext cur c) s in
    (p, sym (append_assoc (q ++ cur) (c ∷ []) s) ∙ ap (λ (t : Bytes). t ++ s) step ∙ e)

ext_from-IsExt : IsExt (ext_from [])
ext_from-IsExt = record {
  found = ext_from-found [];
  suffix = λ name. let (p, e) = ext_from-suffix [] [] name in (p, e);
}

-- a state file, and a directory whose name is too short
abbrev entries : List Entry
entries =
    record { name = codes ".a.oget"; is_dir = false }
    ∷ record { name = codes "ab"; is_dir = true }
    ∷ []

abbrev host : Host
host = record {
  home = some (codes "/h");
  stat = λ p. true;
  remove = λ p. true;
  remove_all = λ p. true;
  read_dir = λ p. some entries;
  ext = ext_from [];
}

abbrev removal : Removal
removal =
    remove_state toy_library host (codes "d") (record { name = codes ".a.oget"; is_dir = false })

clean_bt_exact_example :
    Memᴰ removal (clean_bt toy_library host (codes "d"))
    ↔ (OfSession toy_library host removal ⊎ OfEntries toy_library host (codes "d") removal)
clean_bt_exact_example = clean_bt_exact toy_library host (codes "d") removal ext_from-IsExt

header-add_header_example :
    (header (codes "Referer") (add_header [] (codes "Referer" ++ b':' ∷ codes " http://a")) ≡ (
      if str_eq (trim_space (codes "Referer")) (codes "Referer")
      then some (trim_space (codes " http://a"))
      else header (codes "Referer") []))
    × (add_header [] (codes "Referer") ≡ [])
header-add_header_example =
    header-add_header [] (codes "Referer") (codes " http://a") (codes "Referer") (omega arith)

abbrev no_flags : Flags
no_flags = record {
  file = [];
  dir = [];
  hf = [];
  hf_mirror = [];
  hf_token = [];
  concurrency = pos 0;
  timeout = pos 0;
  verbose = false;
  version = false;
  checksum = false;
  dns = [];
  ffmpeg_path = [];
  proxy = [];
  headers = [];
}

-- no flags
abbrev toy_parse : List Bytes → Option (Flags × List Bytes)
toy_parse args = some (no_flags, args)

-- a proxy for plain HTTP in the environment
abbrev environment : Bytes → Bytes → Option Bytes
environment scheme h = some (codes "http://p:1")

abbrev mapping : Mapping
mapping = record { contents = created; is_open = true; window = some 10 }

abbrev behind : Mapping
behind = (close_mapping true true mapping).1

close_mapping_safe_example :
    (close_mapping false true mapping ≡ (false, mapping))
    × (((off : ℤ) (p : Bytes)
          → write_mapping behind off p ≡ record { n = 0; short = true; file = created })
        × ((off : ℤ) (k : ℕ) → read_mapping behind off k ≡ record { got = []; at_end = true })
        × ((r : Reader) (off : ℤ) (count : ℕ)
            → ((fill_mapping behind r off count).n ≡ 0)
              × ((fill_mapping behind r off count).error ≡ some eof)
              × ((fill_mapping behind r off count).storage ≡ mapped created 0)
              × ((fill_mapping behind r off count).reader ≡ r))
        × ((synced : Bool) → sync_mapping synced behind ≡ (true, false))
        × (true ≡ true → (unmapped again : Bool) → (close_mapping unmapped again behind).0 ≡ false))
close_mapping_safe_example = close_mapping_safe true mapping 10 refl
