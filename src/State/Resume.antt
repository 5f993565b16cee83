-- ===== src/State/Resume.antt =====
-- A download that is interrupted and resumed: NewDownloadState, Save, MarkComplete, LoadState.
use oget.Prelude.{
  ℕ, ◌+◌, ◌/◌, ◌^◌, ◌<◌, ◌≤◌, ◌≡◌, refl, ◌⊎◌, Bool, true, false, ◌||◌, none, some, List, [], ◌∷◌,
  arith, ◌==◌, length, ap, sym, ◌∙◌,
}
use oget.Prelude.Int.{pos}
use oget.Prelude.Text.{Bytes}
use oget.File.{slice}
use oget.State.{
  Info, Bitset, DownloadState, Codec, Answers, Outcome, ok, err, Fault, state_header_size,
  mark_complete, is_complete, new_download_state, save, load_state, close, set_bit, ◌>>=◌,
}
use oget.State.Sizes.{chunks, bytes, num_chunks_pos, num_bytes_pos}
use oget.State.Mark.{
  opened, mark_complete-opened, is_complete-mark_complete, bits-set_bit, length-with_bit,
  is_mmap-set_bit, mark_complete_ignored,
}
use oget.State.Stored.{
  IsFaithful, IsStored, IsStored-set_bit, CanSave, save-opened, with_header, IsStored-with_header,
}
use oget.State.Create.{
  CanCreate, CanLoad, info_of, bitset_of, new_download_state_ok, length-bitset_of,
  IsMirrored-bitset_of, size-bitset_of, is_complete-bitset_of, bits-bitset_of, slice-IsMirrored,
  load_state-IsStored, is_mmap-bitset_of,
}

-- MarkComplete for each (time, chunk) in turn
pub mark_all : Bool → DownloadState → List (ℕ × ℕ) → DownloadState
mark_all w s [] = s
mark_all w s ((now, id) ∷ es) = mark_all w (mark_complete w now s id) es

-- whether a chunk is among the marked ones
abbrev pub marked : List (ℕ × ℕ) → ℕ → Bool
marked [] j = false
marked ((now, id) ∷ es) j = id == j || marked es j

-- Every marked chunk has a place in a bitset of k bytes.
abbrev pub HasRoom : List (ℕ × ℕ) → ℕ → Type 0
HasRoom [] k = Unit
HasRoom ((now, id) ∷ es) k = (id / 8 < k) × HasRoom es k

-- The process ends and a later one loads the state file.
pub reopen : Codec → Answers → DownloadState → Outcome DownloadState
reopen codec os s = elim s.bitset [
  | none ↦ err Fault.open_failed
  | some b ↦ load_state codec os b.file
]

module _ (codec : Codec) (kept : Info) (w : Bool) where
  -- What a state is after chunks were marked: still stored, with the bits of the marked chunks.
  record Marked (i : Info) (b : Bitset) (es : List (ℕ × ℕ)) : Type 0 where
    info : Info
    bits : Bitset
    reached : mark_all w (opened i b) es ≡ opened info bits
    stored : IsStored codec kept bits
    answers :
        (j : ℕ) → is_complete (opened info bits) j ≡ (marked es j || is_complete (opened i b) j)

  mark_all-opened :
      (i : Info) (b : Bitset) (es : List (ℕ × ℕ))
      → IsStored codec kept b
      → (b.is_mmap ≡ true) ⊎ (w ≡ true)
      → HasRoom es (length b.bits)
      → Marked i b es
  unfolding mark_all
  mark_all-opened i b [] s m r = record {
    info = i;
    bits = b;
    reached = refl;
    stored = s;
    answers = λ j. refl;
  }
  mark_all-opened i b ((now, id) ∷ es) s m (lt, r) =
      let i' = record i { updated_at = now } in
      let b' = set_bit w b id in
      let rest =
        mark_all-opened i' b' es (IsStored-set_bit w b id lt m s) (rw (is_mmap-set_bit w b id) m)
          (rw (bits-set_bit w b id, length-with_bit b.bits id) r) in
      record {
        info = rest.info;
        bits = rest.bits;
        reached = rw (mark_complete-opened w now i b id lt) rest.reached;
        stored = rest.stored;
        answers = λ j. ground (
          arith,
          rest.answers j,
          mark_complete-opened w now i b id lt,
          is_complete-mark_complete w now i b id j s.mirrored.are_bytes lt,
        );
      }

-- state.ETag = etag; state.LastModified = lastModified
abbrev pub with_validators : Bytes → Bytes → DownloadState → DownloadState
with_validators etag last_modified s = record s {
  info = record s.info { etag = etag; last_modified = last_modified };
}

-- A new state is saved, chunks are marked, the process ends, and the file is loaded again.
unfoldable pub session :
    Codec
    → Answers
    → Answers
    → ℕ
    → Bytes
    → ℕ
    → ℕ
    → Bytes
    → Bytes
    → Bool
    → List (ℕ × ℕ)
    → Outcome DownloadState
session codec os os' now url n c etag last_modified w es = do
  s ← new_download_state os now url (pos n) (pos c) none
  s' ← save codec os (with_validators etag last_modified s)
  reopen codec os' (mark_all w s' es)

abbrev pub saved_info : ℕ → Bytes → ℕ → ℕ → Bytes → Bytes → Info
saved_info now url n c etag last_modified = record (info_of now url n c) {
  etag = etag;
  last_modified = last_modified;
}

or_false : (a : Bool) → (a || false) ≡ a
or_false a = ground arith

-- A download that starts with no state file, saves its state and marks chunks can be resumed: the
-- file loads, with the same metadata (but for the precision of the time), and exactly the marked
-- chunks are complete. The codec is faithful, the calls of the operating system succeed, the
-- metadata fits the header, the sizes are within int64, the marked chunks have a place in the
-- bitset, and either the bitset is mapped or its writes reach the file.
pub session-resumes :
    (codec : Codec) (os os' : Answers) (now : ℕ) (url : Bytes) (n c : ℕ) (etag lm : Bytes)
    (w : Bool) (es : List (ℕ × ℕ)) (d : Bytes)
    → IsFaithful codec
    → CanCreate os
    → CanSave os
    → CanLoad os'
    → (os.mapped ≡ true) ⊎ (w ≡ true)
    → 0 < c
    → n + c + 8 < 2 ^ 63
    → codec.marshal (saved_info now url n c etag lm) ≡ some d
    → length d ≤ state_header_size
    → HasRoom es (bytes n c)
    → (t : DownloadState) × (session codec os os' now url n c etag lm w es ≡ ok t)
      × ((j : ℕ) → is_complete t j ≡ marked es j)
      × (t.info ≡ record (saved_info now url n c etag lm) { updated_at = codec.stored_time now })
unfolding session reopen
session-resumes codec os os' now url n c etag lm w es d f cc' cs cl m hc hn e l r =
    let i = saved_info now url n c etag lm in
    let b = bitset_of os none n c in
    let fresh =
      IsStored-with_header {codec = codec} i b d (chunks n c) (IsMirrored-bitset_of os none n c tt)
        (size-bitset_of os none n c) e l (num_chunks_pos n c hc hn)
        (num_bytes_pos n c hc hn ∙ ap (λ k. some (pos k)) (sym (length-bitset_of os n c none))) in
    let end =
      mark_all-opened codec i w i (with_header b d) es fresh (is_mmap-bitset_of os n c m)
        (rw (length-bitset_of os n c none) r) in
    (
      opened (record i { updated_at = codec.stored_time now })
          (record end.bits { is_mmap = os'.mapped }),
      rw
          (
            new_download_state_ok os now url n c none cc' hc hn,
            save-opened codec os i b d cs e l,
            end.reached,
          )
          (load_state-IsStored codec os' i end.bits f cl end.stored),
      λ j.
          unfold is_complete in
          (end.answers j
            ∙ ap (λ x. marked es j || x) (is_complete-bitset_of os i n c j)
            ∙ or_false (marked es j)),
      refl,
    )

pub mark_all-closed :
    (w : Bool) (s : DownloadState) (es : List (ℕ × ℕ)) → s.bitset ≡ none → mark_all w s es ≡ s
unfolding mark_all
mark_all-closed w s [] e = refl
mark_all-closed w s ((now, id) ∷ es) e =
    let kept = mark_complete_ignored w now s id (λ b h. cc) in rw kept (mark_all-closed w s es e)

-- Once Close has run nothing more is recorded: every later MarkComplete leaves the state as it is,
-- and no chunk is complete.
pub closed_records_nothing :
    (os : Answers) (w : Bool) (s : DownloadState) (es : List (ℕ × ℕ))
    → (mark_all w (close os s).0 es ≡ (close os s).0)
      × ((j : ℕ) → is_complete (close os s).0 j ≡ false)
closed_records_nothing os w s es = (
  mark_all-closed w (close os s).0 es (bitset-close os s),
  λ j. unfold is_complete in ground (arith, bitset-close os s),
)
  where
    bitset-close : (os : Answers) (s : DownloadState) → (close os s).0.bitset ≡ none
    bitset-close os s = unfold close in ground arith

-- The bitset that a restart maps over the file of a stored state has that state's bits.
pub is_complete-restarted :
    (codec : Codec) (os : Answers) (i kept : Info) (b : Bitset) (n c : ℕ)
    → IsStored codec kept b
    → os.mapped ≡ true
    → length b.bits ≡ bytes n c
    → state_header_size + bytes n c ≤ b.file.size
    → (j : ℕ)
    → is_complete (opened i (bitset_of os (some b.file) n c)) j ≡ is_complete (opened kept b) j
unfolding is_complete
is_complete-restarted codec os i kept b n c s m e l j =
    let same =
      bits-bitset_of os b.file n c m l
      ∙ ap (slice b.file state_header_size) (sym e)
      ∙ slice-IsMirrored b s.mirrored in
    rw same

-- Restarting over a state file of the same size with a mapped bitset keeps every finished chunk of
-- the old state, although the new state is for a download that begins anew.
pub restart_keeps_bits :
    (codec : Codec) (os : Answers) (now : ℕ) (url : Bytes) (n c : ℕ) (kept : Info) (b : Bitset)
    → IsStored codec kept b
    → CanCreate os
    → os.mapped ≡ true
    → 0 < c
    → n + c + 8 < 2 ^ 63
    → length b.bits ≡ bytes n c
    → state_header_size + bytes n c ≤ b.file.size
    → (t : DownloadState) × (new_download_state os now url (pos n) (pos c) (some b.file) ≡ ok t)
      × ((j : ℕ) → is_complete t j ≡ is_complete (opened kept b) j)
restart_keeps_bits codec os now url n c kept b s cc' m hc hn e l = (
  opened (info_of now url n c) (bitset_of os (some b.file) n c),
  new_download_state_ok os now url n c (some b.file) cc' hc hn,
  is_complete-restarted codec os _ kept b n c s m e l,
)
