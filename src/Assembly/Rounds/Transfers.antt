-- ===== src/Assembly/Rounds/Transfers.antt =====
-- One round of the loop of Fetch, when the server sends the file: what it stores, and what the
-- server sends next.
use oget.Prelude.{
  ℕ, ◌+◌, ◌-◌, ◌≤◌, ◌<◌, ◌≡◌, refl, not, ◌&&◌, Option, none, some, ◌++◌, arith, ltb, length, get_or,
  inl, inr, ◌⊎◌, Bool-cases, Option-cases, ◌∙◌, sym, ap, subst, length-append, get_or-append,
}
use oget.Prelude.Int.{pos, pos_part, leb_ℤ}
use oget.Prelude.Text.{Bytes}
use oget.File.{write_at, byte-write_at_inside, byte-write_at_outside}
use oget.Reader.{Reader, stream}
use oget.Storage.{Storage, contents, Transfer, read_at_from}
use oget.Storage.Reads.{TransferSpec}
use oget.Storage.Loops.{read_at_from-TransferSpec}
use oget.Task.{ChunkTask}
use oget.Fetch.{Exit, Run, run_after, remaining, is_until_eof, leave}
use oget.Fetch.Round.{remaining_known}
use oget.Fetch.Result.{get_or-prefix, length-prefix}
use oget.Assembly.Rounds.{round}

-- What the server sends next is the file from byte o on.
abbrev pub Ahead : (ℕ → ℕ) → ℕ → Reader → Type 0
Ahead content o body =
    (j : ℕ) → j < length (stream body) → get_or (stream body) j 0 ≡ content (o + j)

-- One transfer of at most `count` bytes to the offset o, of a body that is the file from there on.
module _ (content : ℕ → ℕ) (s : Storage) (body : Reader) (o count : ℕ)
    (ahead : Ahead content o body) where
  abbrev got : Transfer
  got = read_at_from s body o count

  spec : TransferSpec (contents s) o 0 count body got
  spec = read_at_from-TransferSpec s body o count

  few : got.n ≤ count
  few = omega (arith, spec.counted, spec.bounded (omega arith))

  inside : (j : ℕ) → j < got.n → (contents got.storage).byte (o + j) ≡ content (o + j)
  inside j lt =
      let h : j < length spec.got = omega (arith, spec.counted) in
      spec.wrote (o + j)
      ∙ subst (λ z. (write_at (contents s) z spec.got).byte (o + j) ≡ get_or spec.got j 0)
          (omega arith) (byte-write_at_inside (contents s) o spec.got j h)
      ∙ get_or-prefix spec.got _ (stream body) j spec.spelled h
      ∙ ahead j (length-prefix spec.got _ (stream body) j spec.spelled h)

  outside :
      (y : ℕ) → (y < o) ⊎ (o + got.n ≤ y) → (contents got.storage).byte y ≡ (contents s).byte y
  outside y far =
      spec.wrote y
      ∙ byte-write_at_outside (contents s) (o + 0) spec.got y
          (elim far [ inl low ↦ inl (omega arith) | inr high ↦ inr (omega (arith, spec.counted)) ])

  keeps : (y : ℕ) → (contents s).byte y ≡ content y → (contents got.storage).byte y ≡ content y
  keeps y right = elim (Bool-cases (ltb y o)) [
    | inl low ↦ outside y (inl (ground arith)) ∙ right
    | inr high ↦ elim (Bool-cases (ltb y (o + got.n))) [
      | inr past ↦ outside y (inr (ground arith)) ∙ right
      | inl within ↦
          let at : o + (y - o) ≡ y = ground arith in
          subst (λ z. (contents got.storage).byte z ≡ content z) at (inside (y - o) (ground arith))
    ]
  ]

  rest-Ahead : got.error ≡ none → Ahead content (o + got.n) got.reader
  rest-Ahead quiet j lt =
      let all : spec.got ++ stream got.reader ≡ stream body =
        ap (λ (l : Bytes). spec.got ++ (l ++ stream got.reader)) (sym (spec.kept_all (λ y. cc)))
        ∙ spec.spelled in
      let count_all = ap (length {A = ℕ}) all in
      let total = length-append spec.got (stream got.reader) in
      let here : got.n + j < length (stream body) = omega (arith, spec.counted, count_all, total) in
      let tail : get_or (spec.got ++ stream got.reader) (got.n + j) 0
          ≡ get_or (stream got.reader) j 0 =
        get_or-append spec.got _ (got.n + j) 0 ∙ ground (arith, spec.counted) in
      sym tail
      ∙ ap (λ bs. get_or bs (got.n + j) 0) all
      ∙ ahead (got.n + j) here
      ∙ ap content (omega arith)

-- What a round does to the storage and to the body, when the server sends the file.
pub record Effect (content : ℕ → ℕ) (t : ChunkTask) (len : ℕ) (run : Run) (out : Option Exit × Run)
    : Type 0 where
  pub grown : run.written ≤ out.1.written
  pub within : out.1.written ≤ len
  pub keeps :
      (y : ℕ)
      → (contents run.storage).byte y ≡ content y
      → (contents out.1.storage).byte y ≡ content y
  pub added :
      (j : ℕ)
      → run.written + j < out.1.written
      → (contents out.1.storage).byte (t.offset + run.written + j)
        ≡ content (t.offset + run.written + j)
  pub beyond :
      (y : ℕ) → t.offset + len ≤ y → (contents out.1.storage).byte y ≡ (contents run.storage).byte y
  pub next : out.0 ≡ none → Ahead content (t.offset + out.1.written) out.1.body

module _ (content : ℕ → ℕ) (t : ChunkTask) (len : ℕ) (sized : t.length ≡ pos len) (run : Run)
    (fits : run.written ≤ len) (ahead : Ahead content (t.offset + run.written) run.body) where
  abbrev at : ℕ
  at = t.offset + run.written

  abbrev room : ℕ
  room = pos_part (remaining t run.written)

  room_left : room ≡ len - run.written
  room_left = ap pos_part (remaining_known t len run.written sized fits)

  abbrev sent : Transfer
  sent = read_at_from run.storage run.body at room

  behind :
      (o : Option Exit)
      → (o ≡ none → sent.error ≡ none)
      → Effect content t len run (o, run_after t run sent)
  behind o quiet =
      let small = few content run.storage run.body at room ahead in
      record {
        grown = omega arith;
        within = omega (arith, small, room_left);
        keeps = keeps content run.storage run.body at room ahead;
        added = λ j lt. inside content run.storage run.body at room ahead j (omega arith);
        beyond = λ y far.
            outside content run.storage run.body at room ahead y
              (inr (omega (arith, small, room_left)));
        next = λ goes_on.
            subst (λ z. Ahead content z sent.reader) (omega arith)
              (rest-Ahead content run.storage run.body at room ahead (quiet goes_on));
      }

  pub round-Effect : Effect content t len run (round t run)
  unfolding round
  round-Effect =
      elim (Bool-cases (leb_ℤ (remaining t run.written) (pos 0) && not (is_until_eof t))) [
        | inl full ↦ rw full (record {
          grown = omega arith;
          within = fits;
          keeps = λ y right. right;
          added = λ j lt. absurd (omega arith);
          beyond = λ y far. refl;
          next = λ q. absurd (ground arith);
        })
        | inr more ↦ elim (Option-cases sent.error) [
          | inl goes_on ↦ rw (more, goes_on) (behind none (λ y. goes_on))
          | inr (e, ended) ↦ rw (more, ended) (behind (some (leave e)) (λ y. absurd (ground arith)))
        ]
      ]
