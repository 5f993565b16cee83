-- ===== src/Cli.antt =====
-- The command line, cmd/main.go: what the program does for its arguments. Package flag is an argument.
pub mod Headers
pub mod Commands
use oget.Prelude.{Bool, true, false, not, Option, none, some, List, [], ◌∷◌, ◌++◌, if◌then◌else◌}
use oget.Prelude.Int.{ℤ, pos, ltb_ℤ}
use oget.Prelude.Text.{Bytes, codes, str_eq, is_empty, split_once, trim_space}
use oget.Config.{Config, default_config}

-- The flags. `-dir` and `-local-dir` set one variable, and so do `-H` and `-header`.
pub record Flags : Type 0 where
  pub file : Bytes
  pub dir : Bytes
  pub hf : Bytes
  pub hf_mirror : Bytes
  pub hf_token : Bytes
  pub concurrency : ℤ
  pub timeout : ℤ
  pub verbose : Bool
  pub version : Bool
  pub checksum : Bool
  pub dns : Bytes
  pub ffmpeg_path : Bytes
  pub proxy : Bytes
  pub headers : List Bytes

-- NewDownloader, as far as main sets it up
pub record Download : Type 0 where
  pub urls : List Bytes
  pub concurrency : ℤ
  pub config : Config

-- `exited` is the end of the program in flag.Parse.
pub data Outcome : Type 0 where
  exited usage versioned : Outcome
  cleaned : Bytes → Outcome
  downloads : Download → Outcome

-- h[key] = value
unfoldable pub set_header : Bytes → Bytes → List (Bytes × Bytes) → List (Bytes × Bytes)
unfolding str_eq
set_header key value [] = (key, value) ∷ []
set_header key value ((k, v) ∷ hs) =
    let rest = set_header key value hs in if str_eq k key then (key, value) ∷ hs else (k, v) ∷ rest

unfoldable pub header : Bytes → List (Bytes × Bytes) → Option Bytes
unfolding str_eq
header key [] = none
header key ((k, v) ∷ hs) = let rest = header key hs in if str_eq k key then some v else rest

-- a header in two parts, or in one
unfoldable pub add_parts : List (Bytes × Bytes) → Bytes × Option Bytes → List (Bytes × Bytes)
add_parts hs (k, none) = hs
add_parts hs (k, some value) = set_header (trim_space k) (trim_space value) hs

-- one round of the loop over the headers
unfoldable pub add_header : List (Bytes × Bytes) → Bytes → List (Bytes × Bytes)
unfolding split_once add_parts
add_header hs h = add_parts hs (split_once h (codes ":"))

unfoldable pub add_headers : List (Bytes × Bytes) → List Bytes → List (Bytes × Bytes)
unfolding add_header
add_headers hs [] = hs
add_headers hs (h ∷ rest) = add_headers (add_header hs h) rest

abbrev pub first_of : Bytes → Bytes → Bytes
first_of new old = if is_empty new then old else new

-- NewDownloader
unfoldable pub new_downloader : List Bytes → ℤ → Download
new_downloader urls concurrency =
    let cfg = record default_config {
      concurrency = if ltb_ℤ (pos 0) concurrency then concurrency else default_config.concurrency;
    } in
    record { urls = urls; concurrency = cfg.concurrency; config = cfg }

-- what main sets in the configuration
unfoldable pub configure : Flags → Config → Config
unfolding add_headers
configure f c = record c {
  verbose = f.verbose;
  checksum = f.checksum;
  dns = f.dns;
  ffmpeg_path = first_of f.ffmpeg_path c.ffmpeg_path;
  proxy_url = first_of f.proxy c.proxy_url;
  headers = add_headers c.headers f.headers;
  output_dir =
      if not (is_empty f.dir)
      then f.dir
      else if not (is_empty f.file)
      then f.file
      else c.output_dir;
  timeout = if ltb_ℤ (pos 0) f.timeout then f.timeout else c.timeout;
  hf_mirror = first_of f.hf_mirror c.hf_mirror;
  hf_token = first_of f.hf_token c.hf_token;
}

abbrev first_argument : Bytes → List Bytes → Bytes
first_argument default [] = default
first_argument default (a ∷ rest) = a

-- the arguments behind `bt`
bt_command : List Bytes → Outcome
unfolding str_eq
bt_command [] = usage
bt_command (c ∷ rest) =
    if str_eq c (codes "clean") then cleaned (first_argument (codes ".") rest) else usage

-- the arguments that begin with `bt`
unfoldable pub subcommand : List Bytes → Option Outcome
unfolding str_eq bt_command
subcommand [] = none
subcommand (a ∷ rest) = if str_eq a (codes "bt") then some (bt_command rest) else none

-- main, when it has its URLs
unfoldable pub run_arguments : Flags → List Bytes → Outcome
unfolding subcommand new_downloader configure
run_arguments f [] = usage
run_arguments f (a ∷ more) =
    let d = new_downloader (a ∷ more) f.concurrency in
    elim (subcommand (a ∷ more)) [
      | some o ↦ o
      | none ↦ downloads (record d { config = configure f d.config })
    ]

-- the arguments, with the model of `-hf` behind them
abbrev pub named : Flags → List Bytes → List Bytes
named f rest = if is_empty f.hf then rest else rest ++ (codes "hf:" ++ f.hf) ∷ []

-- main behind flag.Parse
unfoldable pub run_flags : Flags → List Bytes → Outcome
unfolding run_arguments
run_flags f rest = if f.version then versioned else run_arguments f (named f rest)

-- main, for os.Args[1:]; `parse` is flag.Parse, which ends the program where it returns `none`
unfoldable pub main : (List Bytes → Option (Flags × List Bytes)) → List Bytes → Outcome
unfolding subcommand run_flags
main parse args = elim (subcommand args) [
  | some o ↦ o
  | none ↦ elim (parse args) [ none ↦ exited | some (f, rest) ↦ run_flags f rest ]
]
