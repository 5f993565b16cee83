-- ===== src/Resource/Dispatch.antt =====
-- Every task goes to the fetcher that GetFetcher chooses, whatever is in the cache.
use oget.Prelude.{
  ◌≡◌, refl, false, none, some, ◌∷◌, arith, Bool-cases, Option-cases, inl, inr, sym, ap, ◌∙◌,
}
use oget.Prelude.Text.{Bytes, codes, str_eq_iff, to_lower}
use oget.Url.{Url, Library}
use oget.Resource.{
  Protocol, http, is_torrent_resource, is_video_stream_resource, by_scheme, get_prober, get_fetcher,
  Cache, load, load_or_store, scheme_of, dispatch,
}

-- Each cached fetcher is the one for its scheme.
abbrev pub IsSound : Cache → Type 0
IsSound m = (k : Bytes) (v : Protocol) → load k m ≡ some v → v ≡ by_scheme k

IsSound-cons : (m : Cache) (k : Bytes) → IsSound m → IsSound ((k, by_scheme k) ∷ m)
unfolding load
IsSound-cons m k s j v h = ground (arith, str_eq_iff k j, s j v)

scheme_of-none :
    (lib : Library) (url : Bytes) → lib.parse url ≡ none → scheme_of lib url ≡ codes "http"
unfolding scheme_of
scheme_of-none lib url e = rw (e, scheme_of)

scheme_of-some :
    (lib : Library) (url : Bytes) (u : Url)
    → lib.parse url ≡ some u
    → scheme_of lib url ≡ to_lower u.scheme
unfolding scheme_of
scheme_of-some lib url u e = rw (e, scheme_of)

load_or_store-none :
    (k : Bytes) (v : Protocol) (m : Cache) → load k m ≡ none → load_or_store k v m ≡ (v, (k, v) ∷ m)
unfolding load_or_store
load_or_store-none k v m e = rw (e, load_or_store)

by_scheme-http : by_scheme (codes "http") ≡ http
unfolding by_scheme
by_scheme-http = refl

-- The choice for what is neither a torrent nor a stream.
get_fetcher-by_scheme :
    (lib : Library) (url : Bytes)
    → is_torrent_resource lib url ≡ false
    → is_video_stream_resource lib url ≡ false
    → get_fetcher lib url ≡ by_scheme (scheme_of lib url)
unfolding get_fetcher
get_fetcher-by_scheme lib url t v = elim (Option-cases (lib.parse url)) [
  | inl e ↦ rw (t, v, e) (sym (ap by_scheme (scheme_of-none lib url e) ∙ by_scheme-http))
  | inr (u, e) ↦ rw (t, v, e) (sym (ap by_scheme (scheme_of-some lib url u e)))
]

scheme_cached :
    (lib : Library) (cache : Cache) (url : Bytes)
    → IsSound cache
    → is_torrent_resource lib url ≡ false
    → is_video_stream_resource lib url ≡ false
    → ((dispatch lib cache url).0 ≡ get_fetcher lib url) × IsSound (dispatch lib cache url).1
unfolding dispatch
scheme_cached lib cache url s t v =
    let chosen = get_fetcher-by_scheme lib url t v in
    elim (Option-cases (load (scheme_of lib url) cache)) [
      | inl e ↦
          rw (t, v, e, load_or_store-none (scheme_of lib url) (get_fetcher lib url) cache e)
            (refl, rw chosen (IsSound-cons cache (scheme_of lib url) s))
      | inr (f, e) ↦ rw (t, v, e) (s (scheme_of lib url) f e ∙ sym chosen, s)
    ]

-- From a cache that keeps for each scheme the fetcher of the scheme, DispatchFetcher gives a task to the fetcher that GetFetcher would make for its
-- URL, and leaves such a cache.
pub dispatch-get_fetcher :
    (lib : Library) (cache : Cache) (url : Bytes)
    → IsSound cache
    → ((dispatch lib cache url).0 ≡ get_fetcher lib url) × IsSound (dispatch lib cache url).1
unfolding dispatch get_fetcher
dispatch-get_fetcher lib cache url s = elim (Bool-cases (is_torrent_resource lib url)) [
  | inl t ↦ rw t (refl, s)
  | inr t ↦ elim (Bool-cases (is_video_stream_resource lib url)) [
    | inl v ↦ rw (t, v) (refl, s)
    | inr v ↦ scheme_cached lib cache url s t v
  ]
]

-- A task is fetched by the same protocol that probed its resource.
pub get_fetcher-get_prober :
    (lib : Library) (resource : Bytes) → get_fetcher lib resource ≡ get_prober lib resource
unfolding get_fetcher get_prober
get_fetcher-get_prober lib resource = refl
