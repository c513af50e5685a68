-- ===== src/Config/Endpoint.antt =====
-- Where the telemetry goes, and which setting decides.
use maping.Base.{
  ◌≡◌, refl, ◌⊎◌, inl, inr, true, false, ◌&&◌, Option, none, some, List, [], ◌∷◌, ◌++◌, Bool-cases,
  arith,
}
use maping.Base.Bytes.{Bytes, codes, is_empty}
use maping.Base.Text.{join, split_on, cons_first, has_suffix_lem, same_bytes, same_bytes→eq}
use maping.Token.{Base64}
use maping.Config.{
  Url, Process, Change, default_endpoint, zero_config, apply_all, last_two, registrable_domain,
  trusted_key_origin_domain, valid_origin, trusts_any, under_domain, is_under_domain, is_web_url,
  usable_origin, or_default, origin_is_trusted, resolve_endpoint, resolve_config,
}

-- url.Parse of the default endpoint.
pub record ParsesDefault (os : Process) : Type 0 where
  pub parsed :
      os.parse_url default_endpoint
      ≡ some (record {
        scheme = codes "https";
        host = codes "www.mapi-ng.com";
        hostname = codes "www.mapi-ng.com";
      })

-- The domain itself, or a name that ends in a dot and the domain.
pub Under : Bytes → Bytes → Type 0
Under domain host = (host ≡ domain) ⊎ (p : Bytes) × (host ≡ p ++ 46 ∷ domain)

-- A web address on a host of the hosted service.
pub IsHosted : Process → Bytes → Type 0
IsHosted os endpoint =
    (u : Url) × (os.parse_url endpoint ≡ some u)
    × ((u.scheme ≡ codes "http") ⊎ (u.scheme ≡ codes "https"))
    × (is_empty u.host ≡ false)
    × Under (codes "mapi-ng.com") u.hostname

under_domain-Under : (domain host : Bytes) → under_domain domain host ≡ true → Under domain host
unfolding under_domain Under
under_domain-Under domain host h = elim (Bool-cases (same_bytes host domain)) [
  | inl e ↦ inl (same_bytes→eq host domain e)
  | inr e ↦ inr (has_suffix_lem host (46 ∷ domain) (rw e at h))
]

module _ (os : Process) where
  hosted_domain : ParsesDefault os → trusted_key_origin_domain os ≡ codes "mapi-ng.com"
  unfolding trusted_key_origin_domain registrable_domain last_two split_on cons_first join
  hosted_domain h = rw (h.parsed, trusted_key_origin_domain, registrable_domain) refl

  default-IsHosted : ParsesDefault os → IsHosted os default_endpoint
  unfolding IsHosted Under
  default-IsHosted h = (_, h.parsed, inr refl, refl, inr (codes "www", refl))

  web_url_lem :
      (u : Url)
      → is_web_url (some u) ≡ true
      → ((u.scheme ≡ codes "http") ⊎ (u.scheme ≡ codes "https")) × (is_empty u.host ≡ false)
  unfolding is_web_url
  web_url_lem u h = elim (Bool-cases (same_bytes u.scheme (codes "http"))) [
    | inl e ↦ (inl (same_bytes→eq u.scheme (codes "http") e), ground arith)
    | inr e ↦ (inr (same_bytes→eq u.scheme (codes "https") (ground arith)), ground arith)
  ]

  origin-IsHosted :
      (origin : Bytes) (parsed : Option Url)
      → os.parse_url origin ≡ parsed
      → is_web_url parsed ≡ true
      → is_under_domain (codes "mapi-ng.com") parsed ≡ true
      → IsHosted os origin
  unfolding IsHosted is_under_domain is_web_url
  origin-IsHosted origin none e v t = cc v
  origin-IsHosted origin (some u) e v t =
      let (scheme, host) = web_url_lem u v in
      (u, e, scheme, host, under_domain-Under (codes "mapi-ng.com") u.hostname t)

  trusted_origin :
      (origin : Bytes)
      → ParsesDefault os
      → trusts_any os ≡ false
      → (valid_origin os origin && origin_is_trusted os origin) ≡ true
      → IsHosted os origin
  unfolding valid_origin origin_is_trusted
  trusted_origin origin d n h = elim (Bool-cases (is_empty origin)) [
    | inl e ↦ let h' : false ≡ true = rw e at h in cc h'
    | inr e ↦
        let h' : (is_web_url (os.parse_url origin)
              && is_under_domain (trusted_key_origin_domain os) (os.parse_url origin))
            ≡ true =
          rw (e, n) at h in
        origin-IsHosted origin (os.parse_url origin) refl (ground arith)
          (rw⁻¹ (hosted_domain d) (ground arith))
  ]

  usable-IsHosted :
      (found : Option (Bytes × Bytes))
      → ParsesDefault os
      → trusts_any os ≡ false
      → IsHosted os (or_default os (usable_origin os found))
  unfolding or_default usable_origin
  usable-IsHosted none d n = default-IsHosted d
  usable-IsHosted (some (origin, secret)) d n =
      elim (Bool-cases (valid_origin os origin && origin_is_trusted os origin)) [
        | inl e ↦ rw e (trusted_origin origin d n e)
        | inr e ↦ rw e (default-IsHosted d)
      ]

  -- Whatever the ingest key embeds, without an endpoint from an option or the environment and
  -- without the operator's opt-in the endpoint is an http or https address with a host, and its
  -- name is mapi-ng.com or ends in .mapi-ng.com, if the default endpoint parses as such a one.
  pub resolve_config-IsHosted :
      (b64 : Base64) (opts : List Change)
      → ParsesDefault os
      → (apply_all opts zero_config).endpoint ≡ []
      → os.getenv (codes "MAPING_ENDPOINT") ≡ []
      → trusts_any os ≡ false
      → IsHosted os (resolve_config os b64 opts).endpoint
  unfolding resolve_config resolve_endpoint
  resolve_config-IsHosted b64 opts d o e n = rw (o, e) (usable-IsHosted _ d n)
