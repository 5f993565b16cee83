-- ===== src/Storage/Reads.antt =====
-- What ReadAtFrom does: a prefix of what the reader has to give is written at the offset.
use oget.Prelude.{
  ℕ, zero, suc, ◌+◌, ◌≤◌, ◌<◌, ◌≡◌, ◌≢◌, refl, inl, inr, none, some, List, [], ◌∷◌, ◌++◌, arith,
  leb, if◌then◌else◌, length, take, drop, concat, append_assoc, append-nil, length-append,
  length-take, length-drop, take_all, drop_all, take-append-drop, Bool-cases, ap, sym, ◌∙◌,
}
use oget.Prelude.Text.{Bytes, is_empty}
use native.Mathlib.Nat.{add_assoc}
use oget.File.{File, write_at, Alike, Alike-write_at_nil, Alike-write_at-append}
use oget.Reader.{
  IoError, disk_full, Reader, Read, read, stream, measure, read_pieces, at_end, after,
}
use oget.Storage.{contents, Transfer}

-- What one Read of a buffer of k > 0 bytes does.
pub record ReadSpec (k : ℕ) (r : Reader) (o : Read) : Type 0 where
  pub spelled : o.got ++ stream o.reader ≡ stream r
  pub bounded : length o.got ≤ k
  pub seen : o.reader.seen ≡ r.seen ++ o.got
  pub same_last : o.reader.last ≡ r.last
  pub same_early : o.reader.early ≡ r.early
  pub shorter : o.error ≡ none → measure o.reader.pieces < measure r.pieces
  pub ended : (e : IoError) → o.error ≡ some e → (o.reader.pieces ≡ []) × (e ≡ r.last)

all_of_piece :
    (k : ℕ) (p : Bytes) (ps : List Bytes) (r : Reader)
    → r.pieces ≡ p ∷ ps
    → length p ≤ k
    → ReadSpec k r (record { got = p; error = at_end ps r; reader = after ps p r })
all_of_piece k p ps r e l = record {
  spelled = sym (ap concat e);
  bounded = l;
  seen = refl;
  same_last = refl;
  same_early = refl;
  shorter = λ h. rw e (omega arith);
  ended = ends ps;
}
  where
    ends : (qs : List Bytes) (x : IoError) → at_end qs r ≡ some x → (qs ≡ []) × (x ≡ r.last)
    ends [] x h = ground arith
    ends (q ∷ qs) x h = cc

part_of_piece :
    (k : ℕ) (p : Bytes) (ps : List Bytes) (r : Reader)
    → r.pieces ≡ p ∷ ps
    → 0 < k
    → k < length p
    → ReadSpec k r
        (record { got = take k p; error = none; reader = after (drop k p ∷ ps) (take k p) r })
part_of_piece k p ps r e h l = record {
  spelled =
      sym (append_assoc (take k p) (drop k p) (concat ps))
      ∙ ap (λ t. t ++ concat ps) (take-append-drop k p)
      ∙ sym (ap concat e);
  bounded = omega (arith, length-take k p);
  seen = refl;
  same_last = refl;
  same_early = refl;
  shorter = λ x. rw e (omega (arith, length-drop k p));
  ended = λ x i. cc;
}

read_pieces-ReadSpec :
    (k : ℕ) (ps : List Bytes) (r : Reader)
    → 0 < k
    → r.pieces ≡ ps
    → ReadSpec k r (read_pieces k ps r)
read_pieces-ReadSpec k [] r h e = record {
  spelled = refl;
  bounded = omega arith;
  seen = sym (append-nil r.seen);
  same_last = refl;
  same_early = refl;
  shorter = λ x. cc;
  ended = λ x i. (e, cc);
}
read_pieces-ReadSpec k (p ∷ ps) r h e = elim (Bool-cases (leb (length p) k)) [
  | inl l ↦ rw l (all_of_piece k p ps r e (ground arith))
  | inr l ↦ rw l (part_of_piece k p ps r e h (ground arith))
]

pub read-ReadSpec : (k : ℕ) (r : Reader) → 0 < k → ReadSpec k r (read k r)
unfolding read
read-ReadSpec k r h = read_pieces-ReadSpec k r.pieces r h refl

-- What a read loop that stands at `total` does to the file `f` and the reader `r`: `got` is
-- written behind what is there, and `lost` was read and could not be written.
pub record TransferSpec (f : File) (off total count : ℕ) (r : Reader) (t : Transfer) : Type 0 where
  pub got : Bytes
  pub lost : Bytes
  pub counted : t.n ≡ total + length got
  pub bounded : total ≤ count → total + length got ≤ count
  pub spelled : got ++ (lost ++ stream t.reader) ≡ stream r
  pub seen : t.reader.seen ≡ r.seen ++ (got ++ lost)
  pub same_last : t.reader.last ≡ r.last
  pub same_early : t.reader.early ≡ r.early
  pub wrote : Alike (contents t.storage) (write_at f (off + total) got)
  pub kept_all : t.error ≢ some disk_full → lost ≡ []

-- the file behind one write of the loop
abbrev pub put : File → ℕ → Bytes → Bytes → File
put f x p q = if is_empty p then f else write_at f x q

put-Alike :
    (f : File) (x n : ℕ) (p : Bytes) → Alike (put f x p (take n p)) (write_at f x (take n p))
put-Alike f x zero [] = Alike-write_at_nil f x
put-Alike f x (suc n) [] = Alike-write_at_nil f x
put-Alike f x n (c ∷ p) = λ i. refl

-- Nothing is read.
pub idle-TransferSpec :
    (f : File) (off total count : ℕ) (r : Reader) (t : Transfer)
    → t.n ≡ total
    → contents t.storage ≡ f
    → t.reader ≡ r
    → TransferSpec f off total count r t
idle-TransferSpec f off total count r t e e' e'' = record {
  got = [];
  lost = [];
  counted = omega (arith, e);
  bounded = λ h. omega arith;
  spelled = ap stream e'';
  seen = ap (λ (x : Reader). x.seen) e'' ∙ sym (append-nil r.seen);
  same_last = ap (λ (x : Reader). x.last) e'';
  same_early = ap (λ (x : Reader). x.early) e'';
  wrote = λ i. ap (λ (g : File). g.byte i) e' ∙ Alike-write_at_nil f (off + total) i;
  kept_all = λ h. refl;
}

-- One read is the last: its first n bytes are written.
pub last-TransferSpec :
    (f : File) (off total count k n : ℕ) (r : Reader) (o : Read) (t : Transfer)
    → ReadSpec k r o
    → k + total ≤ count
    → t.n ≡ total + length (take n o.got)
    → contents t.storage ≡ put f (off + total) o.got (take n o.got)
    → t.reader ≡ o.reader
    → (t.error ≢ some disk_full → length o.got ≤ n)
    → TransferSpec f off total count r t
last-TransferSpec f off total count k n r o t s h c e e' d = record {
  got = take n o.got;
  lost = drop n o.got;
  counted = c;
  bounded = λ _. omega (arith, s.bounded, length-take n o.got);
  spelled =
      sym (append_assoc (take n o.got) (drop n o.got) (stream t.reader))
      ∙ cc (take-append-drop n o.got, s.spelled, e');
  seen = cc (s.seen, e', take-append-drop n o.got);
  same_last = cc (s.same_last, e');
  same_early = cc (s.same_early, e');
  wrote = λ i. ap (λ (g : File). g.byte i) e ∙ put-Alike f (off + total) n o.got i;
  kept_all = λ x. drop_all n o.got (d x);
}

-- One read, all of whose bytes are written, before a loop that goes on.
pub step-TransferSpec :
    (f : File) (off total count k n : ℕ) (r : Reader) (o : Read) (t : Transfer)
    → ReadSpec k r o
    → k + total ≤ count
    → length o.got ≤ n
    → TransferSpec
        (put f (off + total) o.got (take n o.got))
        off
        (total + length o.got)
        count
        o.reader
        t
    → TransferSpec f off total count r t
step-TransferSpec f off total count k n r o t s h l next = record {
  got = o.got ++ next.got;
  lost = next.lost;
  counted = omega (arith, next.counted, length-append o.got next.got);
  bounded = λ _. omega (arith, s.bounded, next.bounded, length-append o.got next.got);
  spelled = append_assoc o.got next.got _ ∙ cc (next.spelled, s.spelled);
  seen =
      next.seen
      ∙ ap (λ x. x ++ (next.got ++ next.lost)) s.seen
      ∙ append_assoc r.seen o.got (next.got ++ next.lost)
      ∙ ap (λ x. r.seen ++ x) (sym (append_assoc o.got next.got next.lost));
  same_last = next.same_last ∙ s.same_last;
  same_early = next.same_early ∙ s.same_early;
  wrote =
      Alike-write_at-append f (put f (off + total) o.got (take n o.got)) (contents t.storage)
        (off + total) o.got next.got
        (λ i.
          put-Alike f (off + total) n o.got i
          ∙ ap (λ p. (write_at f (off + total) p).byte i) (take_all n o.got l))
        (rw (add_assoc off total (length o.got)) next.wrote);
  kept_all = next.kept_all;
}
