-- ===== src/Torrent/Progress.antt =====
-- What the loops of the BitTorrent fetchers report.
use oget.Prelude.{
  sum, ℕ, ◌-◌, ◌≡◌, true, ◌&&◌, none, some, List, [], ◌∷◌, ◌++◌, ltb, max, if◌then◌else◌,
}
use oget.Task.{ChunkTask}
use oget.Torrent.{
  Event, context_done, stop_notice, complete_notice, tick, Watched, TorrentError, completion,
}

-- the highest Bytes.Completed of the ticks, and at least `start`
abbrev pub highest : ℕ → List Event → ℕ
highest start [] = start
highest start (tick n total have ∷ es) = highest (max start n) es
highest start (context_done ∷ es) = highest start es
highest start (stop_notice ∷ es) = highest start es
highest start (complete_notice ∷ es) = highest start es

-- What Fetch reported when it returned behind the events `handled`: each byte once, and the
-- completion on success only.
pub record WatchSpec (t : ChunkTask) (start : ℕ) (es : List Event) (o : Watched) : Type 0 where
  pub handled : List Event
  pub rest : List Event
  pub spelled : handled ++ rest ≡ es
  pub progress_sum : sum o.progress ≡ highest start handled
  pub completed_once : o.failure ≡ none → o.completed ≡ completion t
  pub failed_silent : (e : TorrentError) → o.failure ≡ some e → o.completed ≡ []

module _ (t : ChunkTask) (reports : t.on_progress ≡ true) where
  abbrev after_tick : ℕ → ℕ → ℕ
  after_tick last n = if t.on_progress && ltb last n then n else last

  abbrev reported : ℕ → ℕ → List ℕ → List ℕ
  reported last n progress =
      if t.on_progress && ltb last n then progress ++ (n - last) ∷ [] else progress
