-- ===== src/Ftp.antt =====
-- FtpProber and FtpFetcher of pkg/oget/protocol.go. The FTP client is an argument: what a host
-- answers when it is dialled. io.LimitReader is not seen: its limit is the count that ReadAtFrom is
-- called with, and ReadAtFrom never asks for more.
pub mod Outcome
pub mod Returns
use oget.Prelude.{
  ℕ, zero, suc, ◌+◌, ◌≡◌, Bool, true, false, not, ◌&&◌, Option, none, some, List, [], ◌∷◌, ◌++◌,
  ◌==◌, if◌then◌else◌,
}
use oget.Prelude.Int.{ℤ, pos, pos_part, leb_ℤ, ltb_ℤ, wrap64}
use oget.Prelude.Text.{Bytes, codes, contains, str_eq}
use oget.Reader.{IoError, eof, Reader}
use oget.Storage.{Storage, Transfer, read_at_from}
use oget.Task.{ChunkTask}
use oget.Url.{Url, Library}
use oget.Requester.{ResourceMetadata}
use oget.Fetch.{
  FetchError, request_failed, cancelled, io, incomplete, Fetched, Exit, broke, returned, Run,
  remaining, is_until_eof, run_after, refused,
}

-- A connection: whether a login is taken, SIZE, LIST with the names and the sizes of the entries,
-- and RETR from an offset on.
pub record Connection : Type 0 where
  pub login : Bytes → Bytes → Bool
  pub file_size : Bytes → Option ℤ
  pub list : Bytes → Option (List (Bytes × ℕ))
  pub retr_from : Bytes → ℕ → Option Reader

unfoldable pub with_port : Bytes → Bytes
unfolding contains
with_port host = if contains host (codes ":") then host else host ++ codes ":21"

-- the user name and the password
abbrev credentials : Option (Bytes × Option Bytes) → Bytes × Bytes
credentials none = (codes "anonymous", codes "anonymous")
credentials (some (user, none)) = (user, codes "anonymous")
credentials (some (user, some pass)) = (user, pass)

-- dialFtp, with the URL that it has parsed
unfoldable pub dial_ftp : Library → (Bytes → Option Connection) → Bytes → Option (Connection × Url)
unfolding with_port
dial_ftp lib dial resource = elim (lib.parse resource) [
  | none ↦ none
  | some u ↦ elim (dial (with_port u.host)) [
    | none ↦ none
    | some c ↦
        let login = credentials u.user in if c.login login.0 login.1 then some (c, u) else none
  ]
]

-- the size of the first entry with the name `base`; its uint64 becomes an int64
unfoldable pub entry_size : Bytes → List (Bytes × ℕ) → Option ℤ
unfolding str_eq wrap64
entry_size base [] = none
entry_size base ((name, size) ∷ es) =
    let rest = entry_size base es in if str_eq name base then some (wrap64 (pos size)) else rest

abbrev metadata : ℤ → ResourceMetadata
metadata size = record { size = size; etag = []; last_modified = [] }

-- FtpProber.Probe
unfoldable pub ftp_probe : Library → (Bytes → Option Connection) → Bytes → Option ResourceMetadata
unfolding dial_ftp entry_size
ftp_probe lib dial resource = elim (dial_ftp lib dial resource) [
  | none ↦ none
  | some (c, u) ↦ elim (c.file_size u.path) [
    | some size ↦ some (metadata size)
    | none ↦ elim (c.list (lib.dir u.path)) [
      | none ↦ none
      | some entries ↦ elim (entry_size (lib.base u.path) entries) [
        | none ↦ none
        | some size ↦ some (metadata size)
      ]
    ]
  ]
]

-- how an error of ReadAtFrom leaves the loop
abbrev pub ftp_leave : IoError → Exit
ftp_leave eof = broke
ftp_leave e = returned (io e)

-- The loop of FtpFetcher.Fetch, with the context found cancelled in round i where `done i`; `none` is
-- the end of the fuel.
unfoldable pub ftp_loop : (ℕ → Bool) → ChunkTask → ℕ → ℕ → Run → Option (Exit × Run)
unfolding remaining read_at_from
ftp_loop done t zero i run = none
ftp_loop done t (suc k) i run =
    let left = remaining t run.written in
    let x = read_at_from run.storage run.body (t.offset + run.written) (pos_part left) in
    let run' = run_after t run x in
    let rest = ftp_loop done t k (suc i) run' in
    if done i
    then some (returned cancelled, run)
    else if leb_ℤ left (pos 0) && not (is_until_eof t)
    then some (broke, run)
    else elim x.error [
      | some e ↦ some (ftp_leave e, run')
      | none ↦ if x.n == 0 then some (broke, run') else rest
    ]

-- The part behind the loop. `task.Written` is never set.
unfoldable pub ftp_conclude : ChunkTask → Exit × Run → Fetched
ftp_conclude t (returned e, run) = record {
  failure = some e;
  task = t;
  storage = run.storage;
  progress = run.progress;
  completed = [];
}
ftp_conclude t (broke, run) =
    if not (is_until_eof t) && ltb_ℤ (pos run.written) t.length
    then record {
      failure = some (incomplete run.written t.length);
      task = t;
      storage = run.storage;
      progress = run.progress;
      completed = [];
    }
    else record {
      failure = none;
      task = t;
      storage = run.storage;
      progress = run.progress;
      completed = if t.on_chunk_complete then (t.chunk_id, []) ∷ [] else [];
    }

abbrev pub ftp_begin : Storage → Reader → Run
ftp_begin s body = record { storage = s; body = body; written = 0; progress = [] }

-- the body of the file from the offset of the task on
unfoldable pub retrieve : Library → (Bytes → Option Connection) → ChunkTask → Option Reader
unfolding dial_ftp
retrieve lib dial t = elim (dial_ftp lib dial t.url) [
  | none ↦ none
  | some (c, u) ↦ c.retr_from u.path t.offset
]

-- FtpFetcher.Fetch, with fuel for the rounds of its loop; `request_failed` stands for the errors
-- before the loop
unfoldable pub ftp_fetch :
    Library → (Bytes → Option Connection) → (ℕ → Bool) → ℕ → Storage → ChunkTask → Option Fetched
unfolding retrieve ftp_loop ftp_conclude
ftp_fetch lib dial done fuel s t = elim (retrieve lib dial t) [
  | none ↦ some (refused t s request_failed)
  | some body ↦ elim (ftp_loop done t fuel 0 (ftp_begin s body)) [
    | none ↦ none
    | some end ↦ some (ftp_conclude t end)
  ]
]
