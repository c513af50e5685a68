-- ===== src/Config/Tests.antt =====
-- A process with a few settings.
use Prim.Native.String.{String}
use maping.Base.{
  ℕ, ◌≡◌, refl, false, none, some, [], ◌∷◌, ◌*◌, ◌^◌, length, if◌then◌else◌, ◌≤◌, arith,
}
use maping.Base.Bytes.{Bytes, codes, bytes_discrete}
use maping.Base.Int.{pos, negsuc}
use maping.Base.Text.{same_bytes}
use maping.Token.{encode, decode}
use maping.Token.Toy.{toy}
use maping.Config.{
  Url, Process, default_endpoint, zero_config, apply_all, with_key, with_service, trusts_any,
  resolve_config, derive_flush_window, seconds_window, to_int64, vcs_revision, host_name,
  usable_origin, or_default,
}
use maping.Config.Endpoint.{ParsesDefault, IsHosted, resolve_config-IsHosted}
use maping.Config.Window.{FirstSet, IsWindow, derive_flush_window-IsWindow, resolve_config_lem}

abbrev on_host : Bytes → Bytes → Url
on_host scheme host = record { scheme = scheme; host = host; hostname = host }

-- Seconds are read as the length of the text.
abbrev plain : Process
plain = record {
  getenv = λ name. if same_bytes name (codes "MAPING_FLUSH_SECONDS") then codes "xxx" else [];
  program = codes "shop";
  hostname = some (codes "node");
  build_settings = none;
  parse_url = λ s.
      if same_bytes s (codes "https://www.mapi-ng.com")
      then some (on_host (codes "https") (codes "www.mapi-ng.com"))
      else some (on_host (codes "http") s);
  atoi = λ s. some (pos (length s));
  fold_flag = λ s. s;
}

plain_parses : ParsesDefault plain
unfolding default_endpoint same_bytes bytes_discrete
plain_parses = record { parsed = refl }

plain_endpoint : plain.getenv (codes "MAPING_ENDPOINT") ≡ []
unfolding same_bytes bytes_discrete
plain_endpoint = refl

plain_flag : trusts_any plain ≡ false
unfolding trusts_any same_bytes bytes_discrete
plain_flag = refl

-- A key that embeds an origin outside the hosted service.
abbrev foreign : Bytes
foreign = encode toy (codes "http://example.org") (codes "s")

no_option : (apply_all (with_key foreign ∷ []) zero_config).endpoint ≡ []
unfolding apply_all with_key zero_config
no_option = refl

resolve_config-IsHosted_example :
    IsHosted plain (resolve_config plain toy (with_key foreign ∷ [])).endpoint
resolve_config-IsHosted_example =
    resolve_config-IsHosted plain toy (with_key foreign ∷ []) plain_parses no_option plain_endpoint
      plain_flag

plain_seconds :
    (n : ℕ)
    → plain.atoi (plain.getenv (codes "MAPING_FLUSH_SECONDS")) ≡ some (pos n)
    → n ≤ 9223372036
unfolding same_bytes bytes_discrete
plain_seconds n h = grind arith

derive_flush_window-IsWindow_example : IsWindow (derive_flush_window plain)
derive_flush_window-IsWindow_example = derive_flush_window-IsWindow plain plain_seconds

three_seconds : derive_flush_window plain ≡ pos (3 * 10 ^ 9)
unfolding derive_flush_window seconds_window to_int64 same_bytes bytes_discrete
three_seconds = refl

-- One second more than an int64 of nanoseconds holds: the window is negative.
too_long : seconds_window (some (pos 9223372037)) ≡ negsuc 9223372036709551615
unfolding seconds_window to_int64
too_long = refl

resolve_config_lem_example :
    let opts = with_service (codes "cart") ∷ [] in
    let o = apply_all opts zero_config in
    let c = resolve_config plain toy opts in
    let env : String → Bytes = λ name. plain.getenv (codes name) in
    FirstSet
      (o.endpoint
        ∷ env "MAPING_ENDPOINT"
        ∷ or_default plain (usable_origin plain (decode toy c.key))
        ∷ [])
      c.endpoint
    × FirstSet (o.key ∷ env "MAPING_KEY" ∷ []) c.key
    × FirstSet
        (o.service ∷ env "MAPING_SERVICE" ∷ env "OTEL_SERVICE_NAME" ∷ plain.program ∷ [])
        c.service
    × FirstSet
        (o.instance_id ∷ env "MAPING_INSTANCE" ∷ env "HOSTNAME" ∷ host_name plain.hostname ∷ [])
        c.instance_id
    × FirstSet (o.deploy_version ∷ env "MAPING_DEPLOY_VERSION" ∷ []) c.deploy_version
    × FirstSet (o.deploy_id ∷ env "MAPING_DEPLOY_ID" ∷ vcs_revision plain ∷ []) c.deploy_id
    × FirstSet (o.environment ∷ env "MAPING_ENVIRONMENT" ∷ []) c.environment
    × FirstSet (o.region ∷ env "MAPING_REGION" ∷ []) c.region
resolve_config_lem_example = resolve_config_lem plain toy (with_service (codes "cart") ∷ [])
