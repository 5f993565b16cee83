-- ===== src/Requester/Probe.antt =====
-- HttpProber.Probe of pkg/oget/requester.go. The HTTP client is an argument, and so are the numbers
-- that strconv and fmt read in the headers.
use oget.Prelude.{
  ◌≡◌, refl, ◌↔◌, ◌⊎◌, inl, inr, Bool, true, false, not, ◌&&◌, ◌||◌, Option, none, some, ◌∷◌, ◌==◌,
  if◌then◌else◌, arith, Bool-cases, Option-cases, ℕ, ◌≢◌, [],
}
use oget.Prelude.Int.{ℤ, pos}
use oget.Prelude.Text.{Bytes, codes, is_empty}
use oget.Requester.{ResourceMetadata}

-- The three requests: HEAD with the range of the first byte, HEAD, and GET.
pub data Request : Type 0 where
  head_range head get : Request

-- `header k` is empty where the header is missing
pub record Reply : Type 0 where
  pub status : ℕ
  pub header : Bytes → Bytes

pub record Numbers : Type 0 where
  -- strconv.ParseInt of a text in base 10, `none` where it returns an error
  pub parse_int : Bytes → Option ℤ
  -- the total that fmt.Sscanf finds in a Content-Range, 0 where it finds none
  pub scan_total : Bytes → ℤ

pub data Probed : Type 0 where
  failed not_found : Probed
  found : ResourceMetadata → Probed

module _ (numbers : Numbers) where
  abbrev content_length : Bytes → ℤ
  content_length attr =
      if is_empty attr then pos 0 else elim (numbers.parse_int attr) [ none ↦ pos 0 | some l ↦ l ]

  -- extractMeta
  unfoldable pub extract_meta : Reply → ResourceMetadata
  extract_meta r = record {
    size = content_length (r.header (codes "Content-Length"));
    etag = r.header (codes "ETag");
    last_modified = r.header (codes "Last-Modified");
  }

  -- what the HEAD with a range finds
  unfoldable pub by_range : Option Reply → Option ResourceMetadata
  unfolding extract_meta
  by_range none = none
  by_range (some r) =
      if r.status == 206 && not (is_empty (r.header (codes "Content-Range")))
      then some
          (record (extract_meta r) { size = numbers.scan_total (r.header (codes "Content-Range")) })
      else none

  -- what the HEAD finds
  unfoldable pub by_head : Option Reply → Option ResourceMetadata
  unfolding extract_meta
  by_head none = none
  by_head (some r) = if r.status == 200 then some (extract_meta r) else none

  -- what the GET finds; an answer with another status still allows a download of unknown length
  unfoldable pub by_get : Option Reply → Probed
  unfolding extract_meta
  by_get none = failed
  by_get (some r) =
      if r.status == 200 || r.status == 206
      then found (extract_meta r)
      else if r.status == 404
      then not_found
      else found (record { size = pos 0; etag = []; last_modified = [] })

  -- Probe, where `client` gives the answers; `none` where a request cannot be made or gets no answer
  unfoldable pub http_probe : (Request → Option Reply) → Probed
  unfolding by_range by_head by_get
  http_probe client = elim (by_range (client head_range)) [
    | some m ↦ found m
    | none ↦ elim (by_head (client head)) [ some m ↦ found m | none ↦ by_get (client get) ]
  ]

  -- whether Probe returns an error
  abbrev pub is_refused : Probed → Bool
  is_refused (found m) = false
  is_refused failed = true
  is_refused not_found = true

  -- Nothing usable came from the HEAD with a range.
  abbrev pub NoRange : Option Reply → Type 0
  NoRange none = Unit
  NoRange (some r) = (r.status ≢ 206) ⊎ (r.header (codes "Content-Range") ≡ [])

  abbrev pub NoHead : Option Reply → Type 0
  NoHead none = Unit
  NoHead (some r) = r.status ≢ 200

  abbrev pub NoGet : Option Reply → Type 0
  NoGet none = Unit
  NoGet (some r) = r.status ≡ 404

  is_empty_nil : (s : Bytes) → (is_empty s ≡ true) ↔ (s ≡ [])
  is_empty_nil [] = (λ h. refl, λ h. refl)
  is_empty_nil (c ∷ s) = (λ h. absurd (cc), λ h. absurd (cc))

  by_range-NoRange : (o : Option Reply) → (by_range o ≡ none) ↔ NoRange o
  unfolding by_range
  by_range-NoRange none = (λ h. tt, λ h. refl)
  by_range-NoRange (some r) = elim (Bool-cases (r.status == 206)) [
    | inr other ↦ (λ h. inl (ground arith), λ h. rw other refl)
    | inl partial ↦ elim (Bool-cases (is_empty (r.header (codes "Content-Range")))) [
      | inl e ↦ (λ h. inr ((is_empty_nil _).0 e), λ h. rw (partial, e) refl)
      | inr e ↦ (
        λ h. absurd (ground arith),
        λ h. absurd (elim h [ inl n ↦ n (ground arith) | inr z ↦ cc ((is_empty_nil _).1 z, e) ]),
      )
    ]
  ]

  by_head-NoHead : (o : Option Reply) → (by_head o ≡ none) ↔ NoHead o
  unfolding by_head
  by_head-NoHead none = (λ h. tt, λ h. refl)
  by_head-NoHead (some r) = elim (Bool-cases (r.status == 200)) [
    | inr other ↦ (λ h. ground arith, λ h. rw other refl)
    | inl fine ↦ (λ h. absurd (ground arith), λ h. absurd (h (ground arith)))
  ]

  by_get_refused : (o : Option Reply) → (is_refused (by_get o) ≡ true) ↔ NoGet o
  unfolding by_get
  by_get_refused none = (λ h. tt, λ h. refl)
  by_get_refused (some r) = ground arith

  probe_by_range :
      (client : Request → Option Reply) (m : ResourceMetadata)
      → by_range (client head_range) ≡ some m
      → http_probe client ≡ found m
  unfolding http_probe
  probe_by_range client m e = rw (e, http_probe) refl

  probe_by_head :
      (client : Request → Option Reply) (m : ResourceMetadata)
      → by_range (client head_range) ≡ none
      → by_head (client head) ≡ some m
      → http_probe client ≡ found m
  unfolding http_probe
  probe_by_head client m e f = rw (e, http_probe) (rw f refl)

  probe_by_get :
      (client : Request → Option Reply)
      → by_range (client head_range) ≡ none
      → by_head (client head) ≡ none
      → http_probe client ≡ by_get (client get)
  unfolding http_probe
  probe_by_get client e f = rw (e, http_probe) (rw f refl)

  -- HttpProber.Probe returns an error exactly where no request helps: the HEAD with a range has no
  -- answer, or one without the status 206 or without a Content-Range; the HEAD has no answer, or one
  -- without the status 200; and the GET has no answer, or one with the status 404. Any other answer
  -- to the GET, an error of the server too, is no error.
  pub http_probe_refused :
      (client : Request → Option Reply)
      → (is_refused (http_probe client) ≡ true)
        ↔ (NoRange (client head_range) × NoHead (client head) × NoGet (client get))
  http_probe_refused client = elim (Option-cases (by_range (client head_range))) [
    | inr (m, e) ↦
        rw (probe_by_range client m e)
          (λ h. absurd (cc), λ h. absurd (cc ((by_range-NoRange (client head_range)).1 h.0, e)))
    | inl e ↦
        let no_range = (by_range-NoRange (client head_range)).0 e in
        elim (Option-cases (by_head (client head))) [
          | inr (m, f) ↦
              rw (probe_by_head client m e f)
                (λ h. absurd (cc), λ h. absurd (cc ((by_head-NoHead (client head)).1 h.1, f)))
          | inl f ↦
              let no_head = (by_head-NoHead (client head)).0 f in
              let last = by_get_refused (client get) in
              rw (probe_by_get client e f) (λ h. (no_range, no_head, last.0 h), λ h. last.1 h.2)
        ]
  ]
