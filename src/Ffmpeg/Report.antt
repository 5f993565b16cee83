-- ===== src/Ffmpeg/Report.antt =====
-- What FFmpegFetcher.Fetch reports.
use oget.Prelude.{
  ℕ, ◌+◌, ◌<◌, ◌≡◌, ◌↔◌, ◌&&◌, ◌||◌, ◌==◌, refl, Bool, true, false, Option, none, some, List, [],
  ◌∷◌, arith, max, sum, if◌then◌else◌, Bool-cases, inl, inr, ap, ◌∙◌,
}
use oget.Prelude.Int.{ℤ, pos, pos_part, ltb_ℤ}
use oget.Prelude.Text.{Bytes, codes, str_eq, str_eq_sound, trim_space}
use oget.Task.{ChunkTask}
use oget.Ffmpeg.{
  Progress, Numbers, no_progress, parse_ffmpeg_progress, report_sizes, Course, ffmpeg_fetch,
  split_equals, set_key, or_keep,
}

if-true {ℓ} : {A : Type ℓ} {b : Bool} (x y : A) → b ≡ true → (if b then x else y) ≡ x
if-true x y e = rw e refl

if-false {ℓ} : {A : Type ℓ} {b : Bool} (x y : A) → b ≡ false → (if b then x else y) ≡ y
if-false x y e = rw e refl

-- the parts of a text before and behind the first `=`, and whether there is one
abbrev before_equals : Bytes → Bytes
before_equals [] = []
before_equals (c ∷ s) = let rest = before_equals s in if c == b'=' then [] else c ∷ rest

abbrev behind_equals : Bytes → Bytes
behind_equals [] = []
behind_equals (c ∷ s) = let rest = behind_equals s in if c == b'=' then s else rest

abbrev has_equals : Bytes → Bool
has_equals [] = false
has_equals (c ∷ s) = c == b'=' || has_equals s

split_equals-parts :
    (s : Bytes)
    → split_equals s ≡ (if has_equals s then some (before_equals s, behind_equals s) else none)
unfolding split_equals
split_equals-parts [] = refl
split_equals-parts (c ∷ s) = elim (Bool-cases (c == b'=')) [
  | inl here ↦ rw here refl
  | inr later ↦ elim (Bool-cases (has_equals s)) [
    | inl there ↦ rw (later, split_equals-parts s) (rw there refl)
    | inr nowhere ↦ rw (later, split_equals-parts s) (rw nowhere refl)
  ]
]

-- the key and the value of a line, without the white space around them
pub key_of : Bytes → Bytes
key_of line = trim_space (before_equals (trim_space line))

pub value_of : Bytes → Bytes
value_of line = trim_space (behind_equals (trim_space line))

-- a line `key=value`
unfoldable pub tells : Bytes → Bytes → Bool
unfolding key_of
tells line key = has_equals (trim_space line) && str_eq (key_of line) key

module _ {F : Type 0} (numbers : Numbers F) where
  -- The sizes of the blocks of progress that some lines have: at each line `progress=...`, the number
  -- of the last line `total_size=...` before it that has one, and `size` where there is none.
  unfoldable pub block_sizes : List Bytes → ℤ → List ℤ
  unfolding tells value_of
  block_sizes [] size = []
  block_sizes (l ∷ ls) size =
      if tells l (codes "total_size")
      then (elim (numbers.parse_int (value_of l)) [
        | none ↦ block_sizes ls size
        | some n ↦ block_sizes ls n
      ])
      else if tells l (codes "progress")
      then size ∷ block_sizes ls size
      else block_sizes ls size

  -- the largest of some sizes, and at least `last`
  abbrev pub largest : ℕ → List ℤ → ℕ
  largest last [] = last
  largest last (n ∷ ns) = largest (max last (pos_part n)) ns

  abbrev sizes_shown : List (Progress F) → List ℤ
  sizes_shown [] = []
  sizes_shown (p ∷ ps) = p.total_size ∷ sizes_shown ps

  set_key-total_size :
      (val : Bytes) (p : Progress F)
      → (set_key numbers (codes "total_size") val p).total_size
        ≡ or_keep (numbers.parse_int val) p.total_size
  unfolding set_key
  set_key-total_size val p = refl

  set_key-other :
      (key val : Bytes) (p : Progress F)
      → str_eq key (codes "total_size") ≡ false
      → (set_key numbers key val p).total_size ≡ p.total_size
  unfolding set_key
  set_key-other key val p other = ground arith

  parse-none :
      (l : Bytes) (ls : List Bytes) (current : Progress F)
      → split_equals (trim_space l) ≡ none
      → parse_ffmpeg_progress numbers (l ∷ ls) current ≡ parse_ffmpeg_progress numbers ls current
  unfolding parse_ffmpeg_progress
  parse-none l ls current e = rw (e, parse_ffmpeg_progress) refl

  parse-some :
      (l k v : Bytes) (ls : List Bytes) (current : Progress F)
      → split_equals (trim_space l) ≡ some (k, v)
      → let next = set_key numbers (trim_space k) (trim_space v) current in
        parse_ffmpeg_progress numbers (l ∷ ls) current ≡ (
          if str_eq (trim_space k) (codes "progress")
          then next ∷ parse_ffmpeg_progress numbers ls next
          else parse_ffmpeg_progress numbers ls next)
  unfolding parse_ffmpeg_progress
  parse-some l k v ls current e = rw (e, parse_ffmpeg_progress) refl

  -- The parser shows the sizes of the blocks.
  sizes_shown-parse :
      (ls : List Bytes) (current : Progress F)
      → sizes_shown (parse_ffmpeg_progress numbers ls current) ≡ block_sizes ls current.total_size
  unfolding block_sizes tells
  sizes_shown-parse [] current = unfold parse_ffmpeg_progress in refl
  sizes_shown-parse (l ∷ ls) current =
      let split = split_equals-parts (trim_space l) in
      elim (Bool-cases (has_equals (trim_space l))) [
        | inr nowhere ↦
            ap sizes_shown (parse-none l ls current (split ∙ if-false _ _ nowhere))
            ∙ sizes_shown-parse ls current
            ∙ rw nowhere refl
        | inl there ↦
            let k = key_of l in
            let next = set_key numbers k (value_of l) current in
            let step : parse_ffmpeg_progress numbers (l ∷ ls) current ≡ (
                if str_eq k (codes "progress")
                then next ∷ parse_ffmpeg_progress numbers ls next
                else parse_ffmpeg_progress numbers ls next) =
              unfold key_of in
              unfold value_of in
              parse-some l (before_equals (trim_space l)) (behind_equals (trim_space l)) ls current
                (split ∙ if-true _ _ there) in
            let rest = sizes_shown-parse ls next in
            elim (Bool-cases (str_eq k (codes "total_size"))) [
              | inl size ↦
                  let named = str_eq_sound k (codes "total_size") size in
                  let no_block : str_eq k (codes "progress") ≡ false =
                    rw named (unfold str_eq in refl) in
                  let now : next.total_size
                      ≡ or_keep (numbers.parse_int (value_of l)) current.total_size =
                    rw named (set_key-total_size (value_of l) current) in
                  ap sizes_shown (step ∙ if-false _ _ no_block)
                  ∙ rest
                  ∙ ap (block_sizes ls) now
                  ∙ rw (there, size) (kept (numbers.parse_int (value_of l)) ls current.total_size)
              | inr other ↦
                  let same = set_key-other k (value_of l) current other in
                  elim (Bool-cases (str_eq k (codes "progress"))) [
                    | inl block ↦
                        ap sizes_shown (step ∙ if-true _ _ block)
                        ∙ ap (λ ns. next.total_size ∷ ns) rest
                        ∙ ap (λ n. n ∷ block_sizes ls n) same
                        ∙ rw (there, other, block) refl
                    | inr neither ↦
                        ap sizes_shown (step ∙ if-false _ _ neither)
                        ∙ rest
                        ∙ ap (block_sizes ls) same
                        ∙ rw (there, other, neither) refl
                  ]
            ]
      ]
    where
      kept :
          (o : Option ℤ) (ls : List Bytes) (size : ℤ)
          → block_sizes ls (or_keep o size)
            ≡ (elim o as (λ x. List ℤ) [ none ↦ block_sizes ls size | some n ↦ block_sizes ls n ])
      kept none ls size = refl
      kept (some n) ls size = refl

  sum-report_sizes :
      (ps : List (Progress F)) (last : ℕ)
      → last + sum (report_sizes numbers true ps last) ≡ largest last (sizes_shown ps)
  unfolding report_sizes
  sum-report_sizes [] last = omega arith
  sum-report_sizes (p ∷ ps) last =
      let size = pos_part p.total_size in
      elim (Bool-cases (ltb_ℤ (pos last) p.total_size)) [
        | inl more ↦
            let grown : last < size = ground arith in
            let same : size ≡ max last size = omega arith in
            rw more
              (omega (arith, sum-report_sizes ps size) ∙ ap (λ k. largest k (sizes_shown ps)) same)
        | inr less ↦
            let same : last ≡ max last size = ground arith in
            rw less (sum-report_sizes ps last ∙ ap (λ k. largest k (sizes_shown ps)) same)
      ]

  -- ffmpeg was started.
  abbrev pub Started : Course → Type 0
  Started c = (c.found ≡ true) × (c.directory_made ≡ true) × (c.piped ≡ true) × (c.started ≡ true)

  -- FFmpegFetcher.Fetch, for a task with both callbacks and an ffmpeg that is started: the numbers
  -- that it reports add up to the largest size of a block of progress among the lines that it has
  -- read, so that no byte is reported twice. Lines that it does not read, since cmd.Wait closes the
  -- pipe before, do not count. It succeeds exactly where the context is not cancelled and ffmpeg exits
  -- without an error. OnChunkComplete is called once then, and not at all otherwise.
  pub ffmpeg_fetch_lem :
      (c : Course) (t : ChunkTask)
      → t.on_progress ≡ true
      → t.on_chunk_complete ≡ true
      → Started c
      → let o = ffmpeg_fetch numbers c t in
        (sum o.progress ≡ largest 0 (block_sizes c.lines_read (pos 0)))
        × ((o.failure ≡ none) ↔ ((c.context_done ≡ false) × (c.exit_failed ≡ false)))
        × (o.completed ≡ (if c.context_done || c.exit_failed then [] else (t.chunk_id, []) ∷ []))
  unfolding ffmpeg_fetch
  ffmpeg_fetch_lem c t reports completes (found, made, piped, started) =
      let blocks = parse_ffmpeg_progress numbers c.lines_read (no_progress numbers) in
      let all : sum (report_sizes numbers true blocks 0)
          ≡ largest 0 (block_sizes c.lines_read (pos 0)) =
        omega (arith, sum-report_sizes blocks 0)
        ∙ ap (largest 0) (sizes_shown-parse c.lines_read (no_progress numbers)) in
      elim (Bool-cases c.context_done) [
        | inl gone ↦
            rw (found, made, piped, started, gone, reports)
              (all, (λ h. absurd (cc), λ h. absurd (cc (h.0))), refl)
        | inr there ↦ elim (Bool-cases c.exit_failed) [
          | inl failed ↦
              rw (found, made, piped, started, there, failed, reports)
                (all, (λ h. absurd (cc), λ h. absurd (cc (h.1))), refl)
          | inr well ↦
              rw (found, made, piped, started, there, well, reports, completes)
                (all, (λ h. (refl, refl), λ h. refl), refl)
        ]
      ]
