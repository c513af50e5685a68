-- ===== src/Config/Window.antt =====
-- The flush window, and the order in which the settings are looked at.
use Prim.Native.String.{String}
use maping.Base.{
  ap, ◌∙◌, ℕ, ◌*◌, ◌^◌, ◌≤◌, ◌<◌, ◌≡◌, ◌≢◌, ◌⊎◌, refl, inl, inr, not, Option, none, some, List, [],
  ◌∷◌, Bool-cases, ltb, if◌then◌else◌, arith,
}
use maping.Base.Bytes.{Bytes, codes, is_empty}
use maping.Base.Int.{ℤ, pos, negsuc}
use maping.Token.{Base64, decode}
use maping.Config.{
  Process, Change, zero_config, apply_all, first_non_empty, override_by, to_int64, seconds_window,
  default_flush_window, derive_flush_window, derive_service, derive_instance, derive_deploy_id,
  vcs_revision, host_name, resolve_config, resolve_endpoint, or_default, usable_origin,
}

-- A duration of at least a second that is still an int64.
pub IsWindow : ℤ → Type 0
IsWindow d = (m : ℕ) × (d ≡ pos m) × (10 ^ 9 ≤ m) × (m < 2 ^ 63)

default-IsWindow : IsWindow default_flush_window
unfolding IsWindow default_flush_window
default-IsWindow = (_, refl, omega arith, omega arith)

to_int64_small : (n : ℕ) → n < 2 ^ 63 → to_int64 n ≡ pos n
unfolding to_int64
to_int64_small n h = ground arith

sized : (k : ℕ) → 0 < k → k ≤ 9223372036 → IsWindow (to_int64 (k * 10 ^ 9))
unfolding IsWindow
sized k a b = (k * 10 ^ 9, to_int64_small (k * 10 ^ 9) (omega arith), omega arith, omega arith)

seconds_window-IsWindow :
    (secs : Option ℤ)
    → ((n : ℕ) → secs ≡ some (pos n) → n ≤ 9223372036)
    → IsWindow (seconds_window secs)
unfolding seconds_window
seconds_window-IsWindow none h = default-IsWindow
seconds_window-IsWindow (some (negsuc n)) h = default-IsWindow
seconds_window-IsWindow (some (pos n)) h = elim (Bool-cases (ltb 0 n)) [
  | inl e ↦ rw e (sized n (ground arith) (h n refl))
  | inr e ↦ rw e default-IsWindow
]

-- The flush window from the environment is at least a second and an int64, also where the variable
-- is missing, not a number or not positive, if the number in it is at most 9223372036.
pub derive_flush_window-IsWindow :
    (os : Process)
    → ((n : ℕ) → os.atoi (os.getenv (codes "MAPING_FLUSH_SECONDS")) ≡ some (pos n) → n ≤ 9223372036)
    → IsWindow (derive_flush_window os)
unfolding derive_flush_window
derive_flush_window-IsWindow os h =
    elim (Bool-cases (is_empty (os.getenv (codes "MAPING_FLUSH_SECONDS")))) [
      | inl e ↦ rw e default-IsWindow
      | inr e ↦ rw e (seconds_window-IsWindow _ h)
    ]

first_last : (v : Bytes) → first_non_empty (v ∷ []) ≡ v
unfolding first_non_empty
first_last [] = refl
first_last (c ∷ v) = refl

override_first :
    (v : Bytes) (vs : List Bytes) → override_by v (first_non_empty vs) ≡ first_non_empty (v ∷ vs)
unfolding override_by first_non_empty
override_first v vs = refl

override_last : (v w : Bytes) → override_by v w ≡ first_non_empty (v ∷ w ∷ [])
unfolding override_by first_non_empty
override_last v [] = refl
override_last v (c ∷ w) = refl

-- The first of two, and then a third, is the first of three.
then_third :
    (a b c : Bytes)
    → (if not (is_empty (first_non_empty (a ∷ b ∷ []))) then first_non_empty (a ∷ b ∷ []) else c)
      ≡ first_non_empty (a ∷ b ∷ c ∷ [])
unfolding first_non_empty
then_third [] [] [] = refl
then_third [] [] (x ∷ c) = refl
then_third [] (x ∷ b) c = refl
then_third (x ∷ a) b c = refl

then_second : (a b : Bytes) → (if not (is_empty a) then a else b) ≡ first_non_empty (a ∷ b ∷ [])
unfolding first_non_empty
then_second [] [] = refl
then_second [] (x ∷ b) = refl
then_second (x ∷ a) b = refl

endpoint_first :
    (a b c : Bytes)
    → (if not (is_empty a) then a else if not (is_empty b) then b else c)
      ≡ first_non_empty (a ∷ b ∷ c ∷ [])
unfolding first_non_empty
endpoint_first [] [] [] = refl
endpoint_first [] [] (x ∷ c) = refl
endpoint_first [] (x ∷ b) c = refl
endpoint_first (x ∷ a) b c = refl

-- The settings, by the search that the code makes.
by_first :
    (os : Process) (b64 : Base64) (opts : List Change)
    → let o = apply_all opts zero_config in
      let c = resolve_config os b64 opts in
      let env : String → Bytes = λ name. os.getenv (codes name) in
      (c.endpoint
        ≡ first_non_empty (
            o.endpoint
            ∷ env "MAPING_ENDPOINT"
            ∷ or_default os (usable_origin os (decode b64 c.key))
            ∷ []))
      × (c.key ≡ first_non_empty (o.key ∷ env "MAPING_KEY" ∷ []))
      × (c.service
          ≡ first_non_empty
              (o.service ∷ env "MAPING_SERVICE" ∷ env "OTEL_SERVICE_NAME" ∷ os.program ∷ []))
      × (c.instance_id
          ≡ first_non_empty
              (o.instance_id ∷ env "MAPING_INSTANCE" ∷ env "HOSTNAME" ∷ host_name os.hostname ∷ []))
      × (c.deploy_version ≡ first_non_empty (o.deploy_version ∷ env "MAPING_DEPLOY_VERSION" ∷ []))
      × (c.deploy_id
          ≡ first_non_empty (o.deploy_id ∷ env "MAPING_DEPLOY_ID" ∷ vcs_revision os ∷ []))
      × (c.environment ≡ first_non_empty (o.environment ∷ env "MAPING_ENVIRONMENT" ∷ []))
      × (c.region ≡ first_non_empty (o.region ∷ env "MAPING_REGION" ∷ []))
unfolding resolve_config resolve_endpoint derive_service derive_instance derive_deploy_id
by_first os b64 opts =
    let o = apply_all opts zero_config in
    let env : String → Bytes = λ name. os.getenv (codes name) in
    (
      endpoint_first o.endpoint _ _,
      override_last o.key _,
      override_first o.service _,
      ap (override_by o.instance_id) (then_third _ _ _) ∙ override_first o.instance_id _,
      override_last o.deploy_version _,
      ap (override_by o.deploy_id) (then_second _ _) ∙ override_first o.deploy_id _,
      override_last o.environment _,
      override_last o.region _,
    )

-- The value is the first of the list that is not empty, and empty if all of them are.
pub FirstSet : List Bytes → Bytes → Type 0
FirstSet [] v = v ≡ []
FirstSet (x ∷ xs) v = ((x ≢ []) × (v ≡ x)) ⊎ ((x ≡ []) × FirstSet xs v)

first_non_empty-FirstSet : (vs : List Bytes) → FirstSet vs (first_non_empty vs)
unfolding first_non_empty FirstSet
first_non_empty-FirstSet [] = refl
first_non_empty-FirstSet ([] ∷ vs) = inr (refl, first_non_empty-FirstSet vs)
first_non_empty-FirstSet ((c ∷ v) ∷ vs) = inl (λ e. cc e, refl)

as_first : {v : Bytes} (vs : List Bytes) → v ≡ first_non_empty vs → FirstSet vs v
as_first vs e = rw e (first_non_empty-FirstSet vs)

-- Each setting that is text is the first of its sources that is not empty: the option; then the
-- variables of the environment in their order; then, for the service, the instance and the deploy
-- id, what the process itself tells, and for the endpoint the origin in the key that won, where it
-- is valid and trusted, and else the hosted service.
pub resolve_config_lem :
    (os : Process) (b64 : Base64) (opts : List Change)
    → let o = apply_all opts zero_config in
      let c = resolve_config os b64 opts in
      let env : String → Bytes = λ name. os.getenv (codes name) in
      FirstSet
        (o.endpoint
          ∷ env "MAPING_ENDPOINT"
          ∷ or_default os (usable_origin os (decode b64 c.key))
          ∷ [])
        c.endpoint
      × FirstSet (o.key ∷ env "MAPING_KEY" ∷ []) c.key
      × FirstSet
          (o.service ∷ env "MAPING_SERVICE" ∷ env "OTEL_SERVICE_NAME" ∷ os.program ∷ [])
          c.service
      × FirstSet
          (o.instance_id ∷ env "MAPING_INSTANCE" ∷ env "HOSTNAME" ∷ host_name os.hostname ∷ [])
          c.instance_id
      × FirstSet (o.deploy_version ∷ env "MAPING_DEPLOY_VERSION" ∷ []) c.deploy_version
      × FirstSet (o.deploy_id ∷ env "MAPING_DEPLOY_ID" ∷ vcs_revision os ∷ []) c.deploy_id
      × FirstSet (o.environment ∷ env "MAPING_ENVIRONMENT" ∷ []) c.environment
      × FirstSet (o.region ∷ env "MAPING_REGION" ∷ []) c.region
resolve_config_lem os b64 opts =
    let (endpoint, key, service, name, version, id, environment, region) = by_first os b64 opts in
    (
      as_first _ endpoint,
      as_first _ key,
      as_first _ service,
      as_first _ name,
      as_first _ version,
      as_first _ id,
      as_first _ environment,
      as_first _ region,
    )
