-- ===== src/Storage/Loops.antt =====
-- The loops of ReadAtFrom meet their specification, and how they end.
use oget.Prelude.{
  ℕ, zero, suc, ◌+◌, ◌-◌, ◌≤◌, ◌<◌, ◌≡◌, refl, ◌⊎◌, inl, inr, min, false, none, [], arith, ltb, leb,
  length, take, length-take, length-append, take_all, Bool-cases, Option-cases, ap, sym, ◌∙◌,
}
use oget.File.{File}
use oget.Reader.{IoError, eof, Reader, read, stream, measure}
use oget.Storage.{
  Storage, file, mapped, contents, Transfer, read_loop, fill_loop, read_at_from, buffer_size,
  fitting, hide_eof, short,
}
use oget.Storage.Reads.{
  read-ReadSpec, TransferSpec, idle-TransferSpec, last-TransferSpec, step-TransferSpec, put,
}

module _ (room off count : ℕ) where
  read_loop-TransferSpec :
      (k : ℕ) (f : File) (r : Reader) (total : ℕ)
      → TransferSpec f off total count r (read_loop k room off count f r total)
  unfolding read_loop
  read_loop-TransferSpec zero f r total = idle-TransferSpec f off total count r _ refl refl refl
  read_loop-TransferSpec (suc k) f r total = elim (Bool-cases (leb count total)) [
    | inl full ↦ rw full (idle-TransferSpec f off total count r _ refl refl refl)
    | inr more ↦
        let size = min buffer_size (count - total) in
        let o = read size r in
        let s = read-ReadSpec size r (ground arith) in
        let nw = fitting room (off + total) o.got in
        let fits : size + total ≤ count = ground arith in
        let count_nw : total + nw ≡ total + length (take nw o.got) =
          omega (arith, length-take nw o.got) in
        elim (Bool-cases (ltb nw (length o.got))) [
          | inl short ↦
              rw (more, short)
                (last-TransferSpec f off total count size nw r o _ s fits count_nw refl refl
                  (λ d. absurd (d refl)))
          | inr all ↦ elim (Option-cases o.error) [
            | inr (e, ended) ↦
                rw (more, all, ended)
                  (last-TransferSpec f off total count size nw r o _ s fits count_nw refl refl
                    (λ d. ground arith))
            | inl goes_on ↦
                let whole : total + length o.got ≡ total + nw = ground arith in
                rw (more, all, goes_on)
                  (step-TransferSpec f off total count size nw r o _ s fits (ground arith) (
                    rw whole (
                      read_loop-TransferSpec k (put f (off + total) o.got (take nw o.got)) o.reader
                        (total + nw))))
          ]
        ]
  ]

  -- With enough fuel the loop over a plain file returns without an error only where it has all the
  -- bytes, or where the reader has reported io.EOF.
  read_loop_quiet :
      (k : ℕ) (f : File) (r : Reader) (total : ℕ)
      → total ≤ count
      → measure r.pieces < k
      → let t = read_loop k room off count f r total in
        t.error ≡ none → (t.n ≡ count) ⊎ ((t.reader.pieces ≡ []) × (t.reader.last ≡ eof))
  unfolding read_loop
  read_loop_quiet zero f r total h m = absurd (omega arith)
  read_loop_quiet (suc k) f r total h m = elim (Bool-cases (leb count total)) [
    | inl full ↦ rw full (λ q. inl (ground arith))
    | inr more ↦
        let size = min buffer_size (count - total) in
        let o = read size r in
        let s = read-ReadSpec size r (ground arith) in
        let nw = fitting room (off + total) o.got in
        elim (Bool-cases (ltb nw (length o.got))) [
          | inl short ↦ rw (more, short) (λ q. cc)
          | inr all ↦ elim (Option-cases o.error) [
            | inr (e, ended) ↦
                rw (more, all, ended)
                  (λ q.
                    inr ((s.ended e ended).0, s.same_last ∙ sym (s.ended e ended).1 ∙ hidden e q))
            | inl goes_on ↦
                rw (more, all, goes_on)
                  (read_loop_quiet k (put f (off + total) o.got (take nw o.got)) o.reader
                    (total + nw) (omega (arith, s.bounded)) (omega (arith, s.shorter goes_on)))
          ]
        ]
  ]
    where
      hidden : (e : IoError) → hide_eof e ≡ none → e ≡ eof
      hidden e q = ground arith

module _ (len off count : ℕ) where
  fill_loop-TransferSpec :
      (k : ℕ) (f : File) (r : Reader) (total : ℕ)
      → TransferSpec f off total count r (fill_loop k len off count f r total)
  unfolding fill_loop
  fill_loop-TransferSpec zero f r total = idle-TransferSpec f off total count r _ refl refl refl
  fill_loop-TransferSpec (suc k) f r total = elim (Bool-cases (leb count total)) [
    | inl full ↦ rw full (idle-TransferSpec f off total count r _ refl refl refl)
    | inr more ↦
        let size = count - total in
        let o = read size r in
        let s = read-ReadSpec size r (ground arith) in
        let nr = length o.got in
        let fits : size + total ≤ count = ground arith in
        let whole : take nr o.got ≡ o.got = take_all nr o.got (omega arith) in
        let written : put f (off + total) o.got o.got ≡ put f (off + total) o.got (take nr o.got) =
          ap (put f (off + total) o.got) (sym whole) in
        let counted : total + nr ≡ total + length (take nr o.got) =
          ap (λ p. total + length p) (sym whole) in
        elim (Option-cases o.error) [
          | inl goes_on ↦
              rw (more, goes_on)
                (step-TransferSpec f off total count size nr r o _ s fits (omega arith) (
                  rw (← written) (
                    fill_loop-TransferSpec k (put f (off + total) o.got o.got) o.reader
                      (total + nr))))
          | inr (e, ended) ↦ elim (Bool-cases (leb count (total + nr))) [
            | inl enough ↦
                rw (more, ended, enough)
                  (last-TransferSpec f off total count size nr r o _ s fits counted written refl
                    (λ d. omega arith))
            | inr few ↦
                rw (more, ended, few)
                  (last-TransferSpec f off total count size nr r o _ s fits counted written refl
                    (λ d. omega arith))
          ]
        ]
  ]

  -- With enough fuel the loop over a mapped file returns without an error only where it has all
  -- the bytes.
  fill_loop_quiet :
      (k : ℕ) (f : File) (r : Reader) (total : ℕ)
      → total ≤ count
      → measure r.pieces < k
      → let t = fill_loop k len off count f r total in t.error ≡ none → t.n ≡ count
  unfolding fill_loop
  fill_loop_quiet zero f r total h m = absurd (omega arith)
  fill_loop_quiet (suc k) f r total h m = elim (Bool-cases (leb count total)) [
    | inl full ↦ rw full (λ q. ground arith)
    | inr more ↦
        let size = count - total in
        let o = read size r in
        let s = read-ReadSpec size r (ground arith) in
        let nr = length o.got in
        elim (Option-cases o.error) [
          | inl goes_on ↦
              rw (more, goes_on)
                (fill_loop_quiet k (put f (off + total) o.got o.got) o.reader (total + nr)
                  (ground (arith, s.bounded)) (omega (arith, s.shorter goes_on)))
          | inr (e, ended) ↦ elim (Bool-cases (leb count (total + nr))) [
            | inl enough ↦ rw (more, ended, enough) (λ q. ground (arith, s.bounded))
            | inr few ↦ rw (more, ended, few) (λ q. cc)
          ]
        ]
  ]

weaken-TransferSpec :
    {f : File} {off total c d : ℕ} {r : Reader} {t : Transfer}
    → TransferSpec f off total c r t
    → total ≤ c
    → c ≤ d
    → TransferSpec f off total d r t
weaken-TransferSpec s h l = record {
  got = s.got;
  lost = s.lost;
  counted = s.counted;
  bounded = λ _. omega (arith, s.bounded h);
  spelled = s.spelled;
  seen = s.seen;
  same_last = s.same_last;
  same_early = s.same_early;
  wrote = s.wrote;
  kept_all = s.kept_all;
}

-- ReadAtFrom writes at the offset a prefix of what the reader has to give, of at most `count`
-- bytes, returns its length, and consumes no more than that unless the disk is full.
pub read_at_from-TransferSpec :
    (s : Storage) (r : Reader) (off count : ℕ)
    → TransferSpec (contents s) off 0 count r (read_at_from s r off count)
unfolding read_at_from
read_at_from-TransferSpec (file f room) r off count =
    read_loop-TransferSpec room off count (suc (suc (measure r.pieces))) f r 0
read_at_from-TransferSpec (mapped f len) r off count = elim (Bool-cases (leb len off)) [
  | inl past ↦ rw past (idle-TransferSpec f off 0 count r _ refl refl refl)
  | inr inside ↦ rw inside (
      weaken-TransferSpec
        (fill_loop-TransferSpec len off (min count (len - off)) (suc (suc (measure r.pieces))) f r
          0)
        (omega arith) (omega arith))
]

-- A plain file: no error is returned only where `count` bytes came, or the reader is at io.EOF.
pub read_at_from-file_quiet :
    (f : File) (room : ℕ) (r : Reader) (off count : ℕ)
    → let t = read_at_from (file f room) r off count in
      t.error ≡ none → (t.n ≡ count) ⊎ ((t.reader.pieces ≡ []) × (t.reader.last ≡ eof))
unfolding read_at_from
read_at_from-file_quiet f room r off count =
    read_loop_quiet room off count (suc (suc (measure r.pieces))) f r 0 (omega arith) (omega arith)

-- A mapped file that has the range: no error is returned only where `count` bytes came.
pub read_at_from-mapped_quiet :
    (f : File) (len : ℕ) (r : Reader) (off count : ℕ)
    → off + count ≤ len
    → 0 < count
    → let t = read_at_from (mapped f len) r off count in t.error ≡ none → t.n ≡ count
unfolding read_at_from
read_at_from-mapped_quiet f len r off count h pos_count =
    let inside : leb len off ≡ false = ground arith in
    let all : min count (len - off) ≡ count = omega arith in
    rw (inside, all)
      (fill_loop_quiet len off count (suc (suc (measure r.pieces))) f r 0 (omega arith)
        (omega arith))

-- A plain file with room for all that the reader has to give, before io.EOF: no error.
read_loop_to_eof :
    (room off count k : ℕ) (f : File) (r : Reader) (total : ℕ)
    → off + total + length (stream r) ≤ room
    → r.last ≡ eof
    → measure r.pieces < k
    → let t = read_loop k room off count f r total in
      (g : File) × (t.storage ≡ file g room) × (t.error ≡ none)
unfolding read_loop
read_loop_to_eof room off count zero f r total h l m = absurd (omega arith)
read_loop_to_eof room off count (suc k) f r total h l m = elim (Bool-cases (leb count total)) [
  | inl full ↦ rw full (f, refl, refl)
  | inr more ↦
      let size = min buffer_size (count - total) in
      let o = read size r in
      let s = read-ReadSpec size r (ground arith) in
      let nw = fitting room (off + total) o.got in
      let split = length-append o.got (stream o.reader) in
      let joined = ap (length {A = ℕ}) s.spelled in
      let whole : nw ≡ length o.got = omega (arith, split, joined) in
      let all : ltb nw (length o.got) ≡ false = ground arith in
      elim (Option-cases o.error) [
        | inr (e, ended) ↦
            rw (more, all, ended)
              (put f (off + total) o.got (take nw o.got), refl, quiet e ((s.ended e ended).1 ∙ l))
        | inl goes_on ↦
            rw (more, all, goes_on)
              (read_loop_to_eof room off count k (put f (off + total) o.got (take nw o.got))
                o.reader (total + nw) (omega (arith, split, joined)) (s.same_last ∙ l)
                (omega (arith, s.shorter goes_on)))
      ]
]
  where
    quiet : (e : IoError) → e ≡ eof → hide_eof e ≡ none
    quiet e q = rw q

pub read_at_from-file_to_eof :
    (f : File) (room : ℕ) (r : Reader) (off count : ℕ)
    → off + length (stream r) ≤ room
    → r.last ≡ eof
    → let t = read_at_from (file f room) r off count in
      (g : File) × (t.storage ≡ file g room) × (t.error ≡ none)
unfolding read_at_from
read_at_from-file_to_eof f room r off count h l =
    read_loop_to_eof room off count (suc (suc (measure r.pieces))) f r 0 (omega arith) l
      (omega arith)
