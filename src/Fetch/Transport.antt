-- ===== src/Fetch/Transport.antt =====
-- NewHttpFetcher and hybridRoundTripper of pkg/oget/fetcher.go: over which protocols and proxies a
-- request goes. http.ProxyFromEnvironment is an argument, a function of the scheme and the host.

use oget.Prelude.{Bool, true, false, not, ◌||◌, Option, none, some, List, [], ◌∷◌, if◌then◌else◌}
use oget.Prelude.Text.{Bytes, codes, str_eq, is_empty}
use oget.Url.{Url, Library}

-- http.Transport.Proxy: none, one for all requests, or http.ProxyFromEnvironment
pub data ProxyChoice : Type 0 where
  no_proxy from_environment : ProxyChoice
  fixed : Bytes → ProxyChoice

-- hybridRoundTripper: the proxy of h12, and whether there is an h3
pub record Transport : Type 0 where
  pub proxy : ProxyChoice
  pub has_h3 : Bool

-- A way on which a request is sent: by HTTP/3, without a proxy, or by h12 and perhaps a proxy.
pub data Route : Type 0 where
  by_h3 : Route
  by_h12 : Option Bytes → Route

module _ (lib : Library) (environment : Bytes → Bytes → Option Bytes) where
  -- proxyURLStr, for ProxyURL of the configuration
  unfoldable pub proxy_string : Bytes → Bytes
  proxy_string configured =
      if is_empty configured
      then elim (environment (codes "http") []) [ none ↦ [] | some u ↦ u ]
      else configured

  transport_for : Bytes → Transport
  transport_for p =
      if not (is_empty p)
      then elim (lib.parse p) [
        | some u ↦ record { proxy = fixed p; has_h3 = false }
        | none ↦ record { proxy = no_proxy; has_h3 = true }
      ]
      else record { proxy = from_environment; has_h3 = true }

  -- NewHttpFetcher
  unfoldable pub new_http_fetcher : Bytes → Transport
  unfolding proxy_string transport_for
  new_http_fetcher configured = transport_for (proxy_string configured)

  abbrev pub proxy_of : ProxyChoice → Bytes → Bytes → Option Bytes
  proxy_of no_proxy scheme host = none
  proxy_of from_environment scheme host = environment scheme host
  proxy_of (fixed p) scheme host = some p

  -- RoundTrip: the ways that are tried, where `h3_answers` is whether the first one succeeds
  unfoldable pub round_trip : Transport → Bytes → Bytes → Bool → List Route
  unfolding str_eq
  round_trip t scheme host h3_answers =
      let last = by_h12 (proxy_of t.proxy scheme host) in
      if not (str_eq scheme (codes "https")) || not t.has_h3
      then last ∷ []
      else if h3_answers
      then by_h3 ∷ []
      else by_h3 ∷ last ∷ []
