-- ===== src/Lib.antt =====
-- oget downloads a file in chunks, over HTTP and other protocols, and keeps a state file from which an
-- interrupted download goes on. The code that is modelled is Go, under pkg/oget, cmd and ogettest.
--
-- The parts and how they interact. A Requester (requester.go) probes a resource, finds or makes its
-- DownloadState (state.go), and splits the file into ChunkTasks (fetcher.go). The Downloader
-- (downloader.go) puts the tasks of all files into host queues, from which its workers take them. A
-- worker gives its task to the DispatchFetcher (protocol.go), which chooses a Fetcher by the URL. The
-- HttpFetcher (fetcher.go) asks for the range of the chunk and copies the body of the response into
-- the task's StorageHandler (fetcher.go, mmap_storage.go). A task that failed is put back, up to
-- MaxFetchRetries times. When it is finished its OnChunkComplete marks the chunk in the state.
--
-- The files:
--   Prelude      shared names, Boolean tests, lists and integers over native numbers, strings
--   File         os.File: the size and the bytes of a file, WriteAt, Truncate
--   State        pkg/oget/state.go: new_download_state is NewDownloadState, load_state LoadState,
--                mark_complete MarkComplete, is_complete IsComplete, is_server_changed
--                IsServerChanged, percent_complete PercentComplete, save Save, close Close
--   Url          what is used of net/url and path/filepath, as a parameter
--   HumanSize    humanizeSize of pkg/oget/util.go
--   FileName     parseFileName of pkg/oget/util.go, getStateFileName of pkg/oget/requester.go
--   Resource     pkg/oget/protocol.go: get_prober is GetProber, get_fetcher GetFetcher, dispatch
--                DispatchFetcher.Fetch
--   Task         ChunkTask and its constants
--   Requester    pkg/oget/requester.go: prepare_tasks is PrepareTasks, split its loop over the chunks,
--                cleanup Cleanup, http_probe HttpProber.Probe
--   Reader       io.Reader: a source that hands out its bytes in pieces and ends with an error
--   Storage      ReadAtFrom of FileStorageHandler and of MmapStorageHandler; map_write and map_read
--                are WriteAt and ReadAt of the latter, in pkg/oget/mmap_storage.go; Storage/Mapping is
--                its creation, Close and Sync
--   Fetch        HttpFetcher.Fetch of pkg/oget/fetcher.go, and MultiFetcher.Fetch; Fetch/Transport is
--                NewHttpFetcher and hybridRoundTripper
--   Downloader   pkg/oget/downloader.go: step is one step of Download, of one of its workers or of the
--                goroutine that waits for the tasks; Downloader/Gather is PrepareAllTasks, and
--                Downloader/Tune the auto-tuner
--   Clean        CleanBT of pkg/oget/bt_clean.go
--   Cli          cmd/main.go: main is main behind the start of the program, new_downloader NewDownloader
--   Assembly     how the calls of Fetch by the workers add up to the file, one call after the other;
--                Assembly/Rounds with the rounds of the calls interleaved
--   Ftp          FtpProber and FtpFetcher of pkg/oget/protocol.go
--   Torrent      TorrentFetcher and MagnetFetcher of pkg/oget/protocol.go, and getTrackers
--   Ffmpeg       pkg/oget/ffmpeg_progress.go, ffmpeg_wrapper.go, ffmpeg_fetcher.go, ffmpeg_prober.go:
--                parse_ffmpeg_progress is ParseFFmpegProgress, ffmpeg_fetch FFmpegFetcher.Fetch
--   Hls          pkg/oget/hls_tools.go: parse_m3u8_segments is ParseM3U8Segments, concat_list the list
--                of files of RemuxConcat
--   HuggingFace  pkg/oget/hf.go: is_hf_resource is IsHFResource, parse_hf_spec ParseHFSpec,
--                get_hf_endpoint GetHFEndpoint, get_hf_token GetHFToken, match_hf_files
--                matchHFFiles, resolve_hf_model_files ResolveHFModelFiles
--   Config       pkg/oget/config.go: default_config is DefaultConfig
--   TestServer   DummyContent of ogettest/server.go
--   Samples, Examples   the theorems at concrete inputs
--
-- Strings are lists of bytes. An int64 is an integer whose arithmetic wraps at 2^63 where the code
-- computes the size of the state and TotalSize, and activeWorkers and targetConcurrency are int32;
-- lengths, offsets and counts that the code keeps positive are natural numbers. The contents of a file are a function from offsets to bytes, and a mapped range is the
-- file itself. The answers of the operating system on which the code branches are arguments.
--
-- Fuel. The loops of ReadAtFrom have two more than the number of reads that the reader can answer
-- before its error, so that the fuel does not run out. Fetch takes its fuel as an argument, because
-- its loop need not end; Fetch/Returns is about the fuel that is enough where it does. FtpFetcher.Fetch
-- needs one round for each byte of the body and one more (Ftp/Returns), and ParseM3U8Segments one call
-- for each playlist on the way to a media playlist (Hls/Descent). The steps of Download are a list of
-- events, one for each move of a goroutine; what a fetch returns is in the event. The
-- decision of a worker to return and its deferred count of activeWorkers are two events, and so are the
-- two decisions of the auto-tuner. The loops of the BitTorrent fetchers run on a list of the events that
-- their select receives.
--
-- Parameters: the CBOR codec (State.Codec, with the hypothesis State.Stored.IsFaithful), url.Parse and
-- the functions of filepath (Url.Library), the HTTP client, sha256, and the time; the FTP client
-- (Ftp.Connection), the answers and the events of the torrent library, net/url and strconv for
-- playlists (Hls.Tools), the expression and the sort of matchHFFiles (HuggingFace.Files.Tools, with
-- the hypothesis HuggingFace.Matches.SortKeeps), the comparisons of floating-point numbers of the
-- auto-tuner, package flag, http.ProxyFromEnvironment, and the answers of the operating system to CleanBT
-- (Clean.Host, with the hypothesis Clean.Names.IsExt on filepath.Ext).
--
-- Not modelled: the progress bar of Download; that two calls of ReadAtFrom write at the same time (a
-- round of Fetch is one step in Assembly/Rounds); the configuration of the torrent library; ffmpeg
-- itself, which is another program, and how much of its output is read before cmd.Wait closes the
-- pipe, which is an argument; the configuration file, and what is logged and printed. SpliceFrom is
-- never called.
pub mod Prelude
pub mod Config
pub mod File
pub mod Url
pub mod FileName
pub mod HumanSize
pub mod Resource
pub mod Task
pub mod Reader
pub mod Storage
pub mod State
pub mod Requester
pub mod Fetch
pub mod Ftp
pub mod Torrent
pub mod Ffmpeg
pub mod Hls
pub mod HuggingFace
pub mod Downloader
pub mod Assembly
pub mod Clean
pub mod Cli
pub mod TestServer
pub mod Samples
pub mod Examples
