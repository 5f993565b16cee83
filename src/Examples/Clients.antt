-- ===== src/Examples/Clients.antt =====
-- The theorems about the FTP and BitTorrent clients and the auto-tuner at concrete inputs.
use oget.Prelude.{
  get_or, ◌%◌, ℕ, ◌+◌, ◌<◌, ◌≡◌, refl, ◌⊎◌, true, false, Option, none, some, List, [], ◌∷◌, arith,
  length, subst, sum, ◌↔◌, ◌||◌, if◌then◌else◌,
}
use oget.Prelude.Int.{pos}
use oget.Prelude.Text.{Bytes, codes}
use oget.File.{created}
use oget.Reader.{Reader, eof, stream}
use oget.Storage.{file}
use oget.Fetch.{Fetched, refused, request_failed}
use oget.Ftp.{Connection, dial_ftp, retrieve, ftp_fetch}
use oget.Ftp.Outcome.{FtpSpec}
use oget.Ftp.Returns.{ftp_fetch_ends}
use oget.Torrent.{Event, tick, complete_notice, Watched}
use oget.Task.{ChunkTask}
use oget.Url.{Library}
use oget.Ffmpeg.{Numbers, Course, ffmpeg_fetch}
use oget.Ffmpeg.Report.{largest, block_sizes, ffmpeg_fetch_lem}
use oget.Requester.Probe
use oget.Requester.Probe.{
  Request, head_range, head, get, Reply, http_probe, is_refused, NoRange, NoHead, NoGet,
  http_probe_refused,
}
use oget.TestServer.{
  DummyContent, seek_content, seek_start, read_all, calculate_sha256, read_all_lem,
}
use oget.Samples.{toy_library, sample_task}

abbrev body : Reader
body = record { pieces = (7 ∷ 8 ∷ []) ∷ (9 ∷ []) ∷ []; last = eof; early = false; seen = [] }

-- a server that takes every login and has one body
abbrev server : Bytes → Option Connection
server host = some (record {
  login = λ user pass. true;
  file_size = λ path. none;
  list = λ path. none;
  retr_from = λ path off. some body;
})

retrieved : retrieve toy_library server sample_task ≡ some body
unfolding retrieve dial_ftp
retrieved = refl

short_body : (b : Reader) → retrieve toy_library server sample_task ≡ some b → length (stream b) < 5
short_body b h =
    let same : body ≡ b = cc (h, retrieved) in
    subst (λ (r : Reader). length (stream r) < 5) same (omega arith)

ftp_fetch_ends_example :
    (o : Fetched) × (ftp_fetch toy_library server (λ i. false) 5 (file created 100) sample_task
      ≡ some o)
    × ((o ≡ refused sample_task (file created 100) request_failed)
        ⊎ ((b : Reader) × (retrieve toy_library server sample_task ≡ some b)
            × FtpSpec sample_task 3 (file created 100) b o))
ftp_fetch_ends_example =
    ftp_fetch_ends toy_library server (λ i. false) 5 (file created 100) sample_task 3 refl
      short_body

abbrev reporting : ChunkTask
reporting = record sample_task { on_progress = true }

-- ten bytes from an earlier run, two ticks, and the end
abbrev events : List Event
events = tick 10 9 4 ∷ tick 25 9 7 ∷ complete_notice ∷ []

abbrev large : ChunkTask
large = record reporting { length = pos 40 }

abbrev watched : Watched
watched = record { failure = none; progress = 10 ∷ 15 ∷ []; completed = (0, []) ∷ [] }

-- a library for which every text is the URL of a udp tracker
abbrev udp_library : Library
udp_library = record toy_library {
  parse = λ s.
      some
        (record { scheme = codes "udp"; host = codes "h"; path = s; query = λ k. []; user = none });
}

abbrev source : Bytes → Option (List Bytes)
source url = some (codes "udp://a" ∷ codes "udp://a" ∷ [])

-- numbers in unary, as the length of their text
abbrev unary : Numbers ℕ
unary = record { parse_int = λ s. some (pos (length s)); parse_float = λ s. none; zero_float = 0 }

abbrev course : Course
course = record {
  found = true;
  directory_made = true;
  piped = true;
  started = true;
  lines_read =
      codes "total_size=111"
      ∷ codes "progress=continue"
      ∷ codes "total_size=1111111"
      ∷ codes "progress=end"
      ∷ [];
  context_done = false;
  exit_failed = false;
}

ffmpeg_fetch_lem_example :
    let o = ffmpeg_fetch unary course reporting in
    (sum o.progress ≡ largest unary 0 (block_sizes unary course.lines_read (pos 0)))
    × ((o.failure ≡ none) ↔ ((course.context_done ≡ false) × (course.exit_failed ≡ false)))
    × (o.completed
        ≡ (if course.context_done || course.exit_failed then [] else (reporting.chunk_id, []) ∷ []))
ffmpeg_fetch_lem_example =
    ffmpeg_fetch_lem unary course reporting refl refl (refl, refl, refl, refl)

-- headers as in the answers of a server of a file of ten bytes
abbrev numbers : Probe.Numbers
numbers = record { parse_int = λ s. some (pos (length s)); scan_total = λ s. pos 10 }

-- a server that takes no HEAD
abbrev get_only : Request → Option Reply
get_only head_range = some (record { status = 405; header = λ k. [] })
get_only head = some (record { status = 405; header = λ k. [] })
get_only get = some (record { status = 404; header = λ k. [] })

-- a content of four bytes, of which one was read
abbrev served : DummyContent
served = record { size = 4; off = 1 }

read_all_lem_example :
    (d' : DummyContent) × (seek_content (pos 0) seek_start served ≡ some (0, d'))
    × ((bs : Bytes) × (read_all 5 3 d' ≡ some bs)
        × (length bs ≡ 4)
        × ((i : ℕ) → i < length bs → get_or bs i 0 ≡ (0 + i) % 256)
        × (◌≡◌ {A = ℕ} 0 0 → calculate_sha256 (λ b. b) 5 served ≡ some bs))
read_all_lem_example = read_all_lem (λ b. b) served 0 3 5 (omega arith) (omega arith)
