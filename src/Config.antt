-- ===== src/Config.antt =====
-- client/config.go: the configuration of a recorder, from options, the environment and defaults.
-- The process around it is a parameter: its environment, build info and host name, net/url's Parse
-- and strconv's Atoi.
pub mod Endpoint
pub mod Window
mod Tests
use maping.Base.{
  ℕ, ◌-◌, ◌*◌, ◌%◌, ◌^◌, Bool, true, false, not, ◌&&◌, ◌||◌, Option, none, some, List, [], ◌∷◌,
  ◌++◌, length, drop, ltb, if◌then◌else◌,
}
use maping.Base.Bytes.{Bytes, codes, is_empty}
use maping.Base.Int.{ℤ, pos, negsuc, ltb_ℤ}
use maping.Base.Text.{join, split_on, has_suffix, same_bytes}
use maping.Token.{Base64, decode}

-- What is read of a *url.URL.
pub record Url : Type 0 where
  pub scheme : Bytes
  pub host : Bytes
  pub hostname : Bytes

-- `fold_flag` is ToLower after TrimSpace; `program` is filepath.Base of the first argument;
-- `build_settings` is none without build info.
pub record Process : Type 0 where
  pub getenv : Bytes → Bytes
  pub program : Bytes
  pub hostname : Option Bytes
  pub build_settings : Option (List (Bytes × Bytes))
  pub parse_url : Bytes → Option Url
  pub atoi : Bytes → Option ℤ
  pub fold_flag : Bytes → Bytes

pub record Config : Type 0 where
  pub key : Bytes
  pub endpoint : Bytes
  pub service : Bytes
  pub instance_id : Bytes
  pub flush_window : ℤ
  pub deploy_version : Bytes
  pub deploy_id : Bytes
  pub environment : Bytes
  pub region : Bytes

unfoldable pub default_endpoint : Bytes
default_endpoint = codes "https://www.mapi-ng.com"

-- Durations are in nanoseconds.
unfoldable pub default_flush_window : ℤ
default_flush_window = pos (10 * 10 ^ 9)

abbrev pub Change : Type 0
Change = Config → Config

unfoldable pub with_key : Bytes → Change
with_key key c = record c { key = key }

unfoldable pub with_endpoint : Bytes → Change
with_endpoint endpoint c = record c { endpoint = endpoint }

unfoldable pub with_service : Bytes → Change
with_service service c = record c { service = service }

unfoldable pub with_instance : Bytes → Change
with_instance name c = record c { instance_id = name }

unfoldable pub with_flush_window : ℤ → Change
with_flush_window d c = record c { flush_window = d }

unfoldable pub with_deploy_version : Bytes → Change
with_deploy_version v c = record c { deploy_version = v }

unfoldable pub with_deploy_id : Bytes → Change
with_deploy_id id c = record c { deploy_id = id }

unfoldable pub with_environment : Bytes → Change
with_environment env c = record c { environment = env }

unfoldable pub with_region : Bytes → Change
with_region region c = record c { region = region }

unfoldable pub zero_config : Config
zero_config = record {
  key = [];
  endpoint = [];
  service = [];
  instance_id = [];
  flush_window = pos 0;
  deploy_version = [];
  deploy_id = [];
  environment = [];
  region = [];
}

unfoldable pub apply_all : List Change → Config → Config
apply_all [] c = c
apply_all (opt ∷ opts) c = apply_all opts (opt c)

unfoldable pub first_non_empty : List Bytes → Bytes
first_non_empty [] = []
first_non_empty (v ∷ vs) = let rest = first_non_empty vs in if is_empty v then rest else v

-- An option's value, or what stands without it.
unfoldable pub override_by : Bytes → Bytes → Bytes
override_by value otherwise = if is_empty value then otherwise else value

-- int64 of a product of positive numbers, which wraps.
unfoldable pub to_int64 : ℕ → ℤ
to_int64 n = let m = n % 2 ^ 64 in if ltb m (2 ^ 63) then pos m else negsuc (2 ^ 64 - 1 - m)

unfoldable pub find_revision : List (Bytes × Bytes) → Bytes
find_revision [] = []
find_revision ((key, value) ∷ settings) =
    let rest = find_revision settings in
    if same_bytes key (codes "vcs.revision") then value else rest

unfoldable pub last_two : List Bytes → List Bytes
last_two labels = drop (length labels - 2) labels

unfoldable pub seconds_window : Option ℤ → ℤ
seconds_window none = default_flush_window
seconds_window (some (negsuc n)) = default_flush_window
seconds_window (some (pos n)) = if ltb 0 n then to_int64 (n * 10 ^ 9) else default_flush_window

unfoldable pub under_domain : Bytes → Bytes → Bool
under_domain domain host = same_bytes host domain || has_suffix host (46 ∷ domain)

unfoldable pub is_under_domain : Bytes → Option Url → Bool
is_under_domain domain none = false
is_under_domain domain (some u) = under_domain domain u.hostname

unfoldable pub is_web_url : Option Url → Bool
is_web_url none = false
is_web_url (some u) =
    (same_bytes u.scheme (codes "http") || same_bytes u.scheme (codes "https"))
    && not (is_empty u.host)

-- The host's own name, or "unknown".
unfoldable pub host_name : Option Bytes → Bytes
host_name none = codes "unknown"
host_name (some h) = h

module _ (os : Process) where
  open os use {getenv, program, build_settings, parse_url, atoi, fold_flag}

  unfoldable pub registrable_domain : Bytes → Bytes
  registrable_domain endpoint = elim (parse_url endpoint) [
    | none ↦ []
    | some u ↦
        let labels = split_on 46 u.hostname in
        if ltb (length labels) 2 then u.hostname else join (last_two labels) (codes ".")
  ]

  unfoldable pub trusted_key_origin_domain : Bytes
  trusted_key_origin_domain = registrable_domain default_endpoint

  unfoldable pub valid_origin : Bytes → Bool
  valid_origin origin = if is_empty origin then false else is_web_url (parse_url origin)

  -- The operator's opt-in.
  unfoldable pub trusts_any : Bool
  trusts_any =
      let flag = fold_flag (getenv (codes "MAPING_TRUST_KEY_ORIGIN")) in
      same_bytes flag (codes "1") || same_bytes flag (codes "true") || same_bytes flag (codes "yes")

  unfoldable pub origin_is_trusted : Bytes → Bool
  origin_is_trusted origin =
      if trusts_any then true else is_under_domain trusted_key_origin_domain (parse_url origin)

  unfoldable pub derive_service : Bytes
  derive_service =
      first_non_empty
        (getenv (codes "MAPING_SERVICE") ∷ getenv (codes "OTEL_SERVICE_NAME") ∷ program ∷ [])

  unfoldable pub derive_instance : Bytes
  derive_instance =
      let v = first_non_empty (getenv (codes "MAPING_INSTANCE") ∷ getenv (codes "HOSTNAME") ∷ []) in
      if not (is_empty v) then v else host_name os.hostname

  unfoldable pub vcs_revision : Bytes
  vcs_revision = elim build_settings [ none ↦ [] | some settings ↦ find_revision settings ]

  unfoldable pub derive_deploy_id : Bytes
  derive_deploy_id =
      let v = getenv (codes "MAPING_DEPLOY_ID") in if not (is_empty v) then v else vcs_revision

  unfoldable pub derive_flush_window : ℤ
  derive_flush_window =
      let raw = getenv (codes "MAPING_FLUSH_SECONDS") in
      if is_empty raw then default_flush_window else seconds_window (atoi raw)

  -- The origin that a key embeds, where it is used.
  unfoldable pub usable_origin : Option (Bytes × Bytes) → Option Bytes
  usable_origin none = none
  usable_origin (some (origin, secret)) =
      if valid_origin origin && origin_is_trusted origin then some origin else none

  unfoldable pub or_default : Option Bytes → Bytes
  or_default none = default_endpoint
  or_default (some origin) = origin

  module _ (b64 : Base64) where
    unfoldable pub resolve_endpoint : Bytes → Bytes → Bytes → Bytes
    resolve_endpoint opt_endpoint env_endpoint key =
        if not (is_empty opt_endpoint)
        then opt_endpoint
        else if not (is_empty env_endpoint)
        then env_endpoint
        else or_default (usable_origin (decode b64 key))

    unfoldable pub resolve_config : List Change → Config
    resolve_config opts =
        let o = apply_all opts zero_config in
        let key = override_by o.key (getenv (codes "MAPING_KEY")) in
        record {
          key = key;
          endpoint = resolve_endpoint o.endpoint (getenv (codes "MAPING_ENDPOINT")) key;
          service = override_by o.service derive_service;
          instance_id = override_by o.instance_id derive_instance;
          flush_window =
              if ltb_ℤ (pos 0) o.flush_window then o.flush_window else derive_flush_window;
          deploy_version = override_by o.deploy_version (getenv (codes "MAPING_DEPLOY_VERSION"));
          deploy_id = override_by o.deploy_id derive_deploy_id;
          environment = override_by o.environment (getenv (codes "MAPING_ENVIRONMENT"));
          region = override_by o.region (getenv (codes "MAPING_REGION"));
        }
