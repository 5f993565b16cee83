-- ===== src/Ffmpeg.antt =====
-- pkg/oget/ffmpeg_progress.go, ffmpeg_wrapper.go, ffmpeg_fetcher.go and ffmpeg_prober.go. The program
-- ffmpeg is not modelled: the lines of its output that are read and how it exits are
-- arguments.
pub mod Report
use oget.Prelude.{
  ℕ, ◌+◌, ◌-◌, ◌≡◌, Bool, true, false, not, ◌&&◌, ◌||◌, Option, none, some, List, [], ◌∷◌, ◌++◌,
  ◌==◌, leb, if◌then◌else◌, map,
}
use oget.Prelude.Int.{ℤ, pos, pos_part, ltb_ℤ, scale64}
use oget.Prelude.Text.{Bytes, codes, str_eq, to_lower, is_empty, trim_space}
use oget.Task.{ChunkTask}
use oget.Url.{Library}
use oget.Requester.{ResourceMetadata}

-- FFmpegProgress; `F` is the type of its floating-point number.
pub record Progress (F : Type 0) : Type 0 where
  pub frame : ℤ
  pub fps : F
  pub total_size : ℤ
  pub out_time_us : ℤ
  pub out_time_str : Bytes
  pub speed : Bytes
  pub is_end : Bool

-- strconv.ParseInt in base 10 and strconv.ParseFloat, `none` where they return an error, and 0.0
pub record Numbers (F : Type 0) : Type 0 where
  pub parse_int : Bytes → Option ℤ
  pub parse_float : Bytes → Option F
  pub zero_float : F

-- strings.SplitN(line, "=", 2), where it has two parts
unfoldable pub split_equals : Bytes → Option (Bytes × Bytes)
split_equals [] = none
split_equals (c ∷ s) =
    let rest = split_equals s in
    if c == b'=' then some ([], s) else elim rest [ none ↦ none | some p ↦ some (c ∷ p.0, p.1) ]

abbrev or_keep {ℓ} : {A : Type ℓ} → Option A → A → A
or_keep none a = a
or_keep (some b) a = b

module _ {F : Type 0} (numbers : Numbers F) where
  abbrev pub no_progress : Progress F
  no_progress = record {
    frame = pos 0;
    fps = numbers.zero_float;
    total_size = pos 0;
    out_time_us = pos 0;
    out_time_str = [];
    speed = [];
    is_end = false;
  }

  -- what a key and its value change
  unfoldable pub set_key : Bytes → Bytes → Progress F → Progress F
  unfolding str_eq scale64
  set_key key val p =
      if str_eq key (codes "frame")
      then record p { frame = or_keep (numbers.parse_int val) p.frame }
      else if str_eq key (codes "fps")
      then record p { fps = or_keep (numbers.parse_float val) p.fps }
      else if str_eq key (codes "total_size")
      then record p { total_size = or_keep (numbers.parse_int val) p.total_size }
      else if str_eq key (codes "out_time_us")
      then record p { out_time_us = or_keep (numbers.parse_int val) p.out_time_us }
      else if str_eq key (codes "out_time_ms")
      then (elim (numbers.parse_int val) [
        | none ↦ p
        | some n ↦ record p { out_time_us = scale64 1000 n }
      ])
      else if str_eq key (codes "out_time")
      then record p { out_time_str = val }
      else if str_eq key (codes "speed")
      then record p { speed = val }
      else if str_eq key (codes "progress") && str_eq val (codes "end")
      then record p { is_end = true }
      else p

  -- ParseFFmpegProgress over the lines, from `current` on: the arguments of the calls of onUpdate
  unfoldable pub parse_ffmpeg_progress : List Bytes → Progress F → List (Progress F)
  unfolding split_equals set_key trim_space str_eq
  parse_ffmpeg_progress [] current = []
  parse_ffmpeg_progress (l ∷ ls) current = elim (split_equals (trim_space l)) [
    | none ↦ parse_ffmpeg_progress ls current
    | some (k, v) ↦
        let next = set_key (trim_space k) (trim_space v) current in
        if str_eq (trim_space k) (codes "progress")
        then next ∷ parse_ffmpeg_progress ls next
        else parse_ffmpeg_progress ls next
  ]

  -- The callback of FFmpegFetcher.Fetch: the arguments of OnProgress, from lastTotalSize on.
  unfoldable pub report_sizes : Bool → List (Progress F) → ℕ → List ℕ
  report_sizes reports [] last = []
  report_sizes reports (p ∷ ps) last =
      let size = pos_part p.total_size in
      let same = report_sizes reports ps last in
      let grown = report_sizes reports ps size in
      if ltb_ℤ (pos last) p.total_size
      then (if reports then (size - last) ∷ grown else grown)
      else same

-- FindFFmpeg: exec.LookPath, and whether os.Stat finds a file
unfoldable pub find_ffmpeg : (Bytes → Option Bytes) → (Bytes → Bool) → Bytes → Option Bytes
find_ffmpeg look_path exists custom_path =
    if not (is_empty custom_path)
    then elim (look_path custom_path) [
      | some path ↦ some path
      | none ↦ if exists custom_path then some custom_path else none
    ]
    else look_path (codes "ffmpeg")

-- strings.Join(lines, "\r\n") + "\r\n"
abbrev join_lines : List Bytes → Bytes
join_lines [] = 13 ∷ 10 ∷ []
join_lines (l ∷ []) = l ++ (13 ∷ 10 ∷ [])
join_lines (l ∷ m ∷ ls) = l ++ (13 ∷ 10 ∷ join_lines (m ∷ ls))

-- BuildFFmpegArgs; `headers` are the headers of the configuration, in the order in which the map
-- gives them
unfoldable pub build_ffmpeg_args : Bytes → Bytes → Bytes → List (Bytes × Bytes) → Bytes → List Bytes
build_ffmpeg_args version resource_url output_file headers proxy_url =
    let lines : List Bytes = elim headers [
      | [] ↦ (codes "User-Agent: oget/" ++ version) ∷ []
      | h ∷ hs ↦ map (λ (h : Bytes × Bytes). h.0 ++ (codes ": " ++ h.1)) (h ∷ hs)
    ] in
    codes "-y"
    ∷ codes "-headers"
    ∷ join_lines lines
    ∷ ((if is_empty proxy_url then [] else codes "-http_proxy" ∷ proxy_url ∷ [])
        ++ (codes "-reconnect"
            ∷ codes "1"
            ∷ codes "-reconnect_at_eof"
            ∷ codes "1"
            ∷ codes "-reconnect_streamed"
            ∷ codes "1"
            ∷ codes "-reconnect_delay_max"
            ∷ codes "5"
            ∷ codes "-i"
            ∷ resource_url
            ∷ codes "-c"
            ∷ codes "copy"
            ∷ codes "-bsf:a"
            ∷ codes "aac_adtstoasc"
            ∷ codes "-movflags"
            ∷ codes "+faststart"
            ∷ codes "-progress"
            ∷ codes "pipe:1"
            ∷ codes "-nostats"
            ∷ output_file
            ∷ []))

pub data FfmpegError : Type 0 where
  not_found no_directory no_pipe not_started cancelled exited : FfmpegError

-- What FFmpegFetcher.Fetch meets: whether ffmpeg is found, whether the directory, the pipes and the
-- process can be made, the lines of the output that the scanner of the goroutine returns, and how
-- ffmpeg ends. The scanner can come to its end before it has all that ffmpeg prints: cmd.Wait closes
-- the pipe when ffmpeg has exited, and the goroutine may still be reading then.
pub record Course : Type 0 where
  pub found : Bool
  pub directory_made : Bool
  pub piped : Bool
  pub started : Bool
  pub lines_read : List Bytes
  pub context_done : Bool
  pub exit_failed : Bool

pub record Outcome : Type 0 where
  pub failure : Option FfmpegError
  pub progress : List ℕ
  pub completed : List (ℕ × Bytes)

abbrev pub early : FfmpegError → Outcome
early e = record { failure = some e; progress = []; completed = [] }

-- FFmpegFetcher.Fetch
unfoldable pub ffmpeg_fetch : {F : Type 0} → Numbers F → Course → ChunkTask → Outcome
unfolding parse_ffmpeg_progress report_sizes
ffmpeg_fetch numbers c t =
    let progress =
      report_sizes numbers t.on_progress
        (parse_ffmpeg_progress numbers c.lines_read (no_progress numbers)) 0 in
    if not c.found
    then early not_found
    else if not c.directory_made
    then early no_directory
    else if not c.piped
    then early no_pipe
    else if not c.started
    then early not_started
    else if c.context_done
    then record { failure = some cancelled; progress = progress; completed = [] }
    else if c.exit_failed
    then record { failure = some exited; progress = progress; completed = [] }
    else record {
      failure = none;
      progress = progress;
      completed = if t.on_chunk_complete then (t.chunk_id, []) ∷ [] else [];
    }

abbrev no_size : ResourceMetadata
no_size = record { size = pos 0; etag = []; last_modified = [] }

-- FFmpegProber.Probe: whether ffmpeg is found, and the statuses of the answers to HEAD and GET, `none`
-- where a request cannot be made or gets no answer
unfoldable pub ffmpeg_probe : Library → Bool → Option ℕ → Option ℕ → Bytes → Option ResourceMetadata
unfolding str_eq to_lower
ffmpeg_probe lib found head get resource =
    let refused : Option ℕ → Bool = λ o. elim o [ none ↦ false | some status ↦ leb 400 status ] in
    if not found then none else elim (lib.parse resource) [
      | none ↦ some no_size
      | some u ↦
          let scheme = to_lower u.scheme in
          if (str_eq scheme (codes "http") || str_eq scheme (codes "https"))
            && refused head
            && refused get
          then none
          else some no_size
    ]
