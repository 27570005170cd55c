-- ===== src/Observability/Validation.antt =====
-- pkg/observability/validation.go, but for the budgets of benchmarks, which are floats. A wrapped error is
-- what it says. `lower` and `fold` are Go's lower case of a character and the class of characters that
-- strings.EqualFold takes for equal.
pub mod Blocking
use devkit_go.Prelude.{
  ℕ, ◌==◌, leb, ◌≡◌, ◌↔◌, ◌⊎◌, refl, ap₂, arith, Bool, true, false, not, ◌&&◌, ◌||◌, Option, none,
  some, List, [], ◌∷◌, ◌++◌, if◌then◌else◌, map, Result, ok, err, panic, All,
}
use devkit_go.Prelude.Int.{ℤ, pos, ltb_ℤ}
use devkit_go.Prelude.Text.{Text, codes, text_eq, text_eq_refl, trim_space}

pub data ValidationError : Type 0 where
  name_required version_required environment_required negative_timeout empty_step : ValidationError
  invalid_header cardinality_violation : Text → ValidationError

abbrev pub is_blank : Text → Bool
is_blank [] = true
is_blank (c ∷ s) = false

pub record ServiceDescriptor : Type 0 where
  pub name : Text
  pub version : Text
  pub environment : Text

unfoldable pub new_service_descriptor :
    Text → Text → Text → Result ValidationError ServiceDescriptor
new_service_descriptor name version environment =
    if is_blank (trim_space name)
    then err name_required
    else if is_blank (trim_space version)
    then err version_required
    else if is_blank (trim_space environment)
    then err environment_required
    else ok (record {
      name = trim_space name;
      version = trim_space version;
      environment = trim_space environment;
    })

pub record PropagationHeaders : Type 0 where
  pub request_id_header : Text
  pub correlation_id_header : Text

abbrev pub default_propagation_headers : PropagationHeaders
default_propagation_headers = record {
  request_id_header = codes "x-request-id";
  correlation_id_header = codes "correlation-id";
}

-- Of the bytes of a name; a character that is not of ASCII has bytes that are refused.
unfoldable pub is_alphanumeric : ℕ → Bool
is_alphanumeric c =
    (leb b'a' c && leb c b'z') || (leb b'A' c && leb c b'Z') || (leb b'0' c && leb c b'9')

abbrev pub mem_char : ℕ → Text → Bool
mem_char c [] = false
mem_char c (d ∷ s) = c == d || mem_char c s

abbrev pub is_header_char : ℕ → Bool
is_header_char c = is_alphanumeric c || mem_char c (codes "!#$%&'*+-.^_`|~")

unfoldable pub all_header_chars : Text → Bool
all_header_chars [] = true
all_header_chars (c ∷ s) = is_header_char c && all_header_chars s

unfoldable pub is_valid_header_name : Text → Bool
is_valid_header_name name = not (is_blank name) && all_header_chars name

pub record ShutdownPolicy : Type 0 where
  pub timeout : ℤ
  pub flush_order : List Text

abbrev pub default_shutdown_policy : ShutdownPolicy
default_shutdown_policy = record {
  timeout = pos 15000000000;
  flush_order = codes "tracer_provider" ∷ codes "meter_provider" ∷ codes "logger_provider" ∷ [];
}

-- The steps trimmed; none may be empty.
unfoldable pub normalize_steps : List Text → Option (List Text)
normalize_steps [] = some []
normalize_steps (step ∷ steps) =
    let rest = normalize_steps steps in
    if is_blank (trim_space step)
    then none
    else elim rest [ none ↦ none | some order ↦ some (trim_space step ∷ order) ]

abbrev pub policy_with : ℤ → List Text → ShutdownPolicy
policy_with timeout order = record {
  timeout = if ltb_ℤ (pos 0) timeout then timeout else default_shutdown_policy.timeout;
  flush_order = order;
}

unfoldable pub new_shutdown_policy : ℤ → List Text → Result ValidationError ShutdownPolicy
new_shutdown_policy timeout [] =
    if ltb_ℤ timeout (pos 0)
    then err negative_timeout
    else ok (policy_with timeout default_shutdown_policy.flush_order)
new_shutdown_policy timeout (step ∷ steps) =
    if ltb_ℤ timeout (pos 0) then err negative_timeout else elim (normalize_steps (step ∷ steps)) [
      | none ↦ err empty_step
      | some order ↦ ok (policy_with timeout order)
    ]

abbrev pub high_cardinality_labels : List Text
high_cardinality_labels =
    codes "user_id"
    ∷ codes "session_id"
    ∷ codes "trace_id"
    ∷ codes "span_id"
    ∷ codes "request_id"
    ∷ codes "transaction_id"
    ∷ codes "correlation_id"
    ∷ codes "ip_address"
    ∷ codes "email"
    ∷ codes "phone"
    ∷ codes "uuid"
    ∷ codes "guid"
    ∷ []

-- The set of blocked labels is a list.
pub record CardinalityValidator : Type 0 where
  pub blocked_labels : List Text
  pub enabled : Bool

unfoldable pub new_cardinality_validator : Bool → CardinalityValidator
new_cardinality_validator enabled = record {
  blocked_labels = high_cardinality_labels;
  enabled = enabled;
}

module _ (lower fold : ℕ → ℕ) where
  abbrev pub to_lower : Text → Text
  to_lower s = map lower s

  unfoldable pub normalize_header_name : Text → Text
  normalize_header_name name = to_lower (trim_space name)

  -- A header that is not given keeps its default.
  unfoldable pub new_header : Text → Text → Result ValidationError Text
  new_header name fallback =
      let normalized = normalize_header_name name in
      if is_blank normalized
      then ok fallback
      else if is_valid_header_name normalized
      then ok normalized
      else err (invalid_header (trim_space name))

  unfoldable pub new_propagation_headers : Text → Text → Result ValidationError PropagationHeaders
  new_propagation_headers request_id correlation_id =
      elim (new_header request_id default_propagation_headers.request_id_header) [
        | err e ↦ err e
        | panic ↦ panic
        | ok r ↦
            elim (new_header correlation_id default_propagation_headers.correlation_id_header) [
              | err e ↦ err e
              | panic ↦ panic
              | ok c ↦ ok (record { request_id_header = r; correlation_id_header = c })
            ]
      ]

  unfoldable pub new_with_custom_labels : Bool → List Text → CardinalityValidator
  new_with_custom_labels enabled custom = record {
    blocked_labels = high_cardinality_labels ++ map to_lower custom;
    enabled = enabled;
  }

  unfoldable pub equal_fold : Text → Text → Bool
  equal_fold s t = text_eq (map fold s) (map fold t)

  unfoldable pub any_blocks : Text → List Text → Bool
  any_blocks label [] = false
  any_blocks label (blocked ∷ labels) = equal_fold label blocked || any_blocks label labels

  unfoldable pub is_blocked : CardinalityValidator → Text → Bool
  is_blocked v label = any_blocks label v.blocked_labels

  unfoldable pub validate_keys : List Text → List Text → Option ValidationError
  validate_keys blocked [] = none
  validate_keys blocked (key ∷ keys) =
      let rest = validate_keys blocked keys in
      if any_blocks key blocked then some (cardinality_violation key) else rest

  -- Of fields only the keys matter.
  unfoldable pub validate : CardinalityValidator → List Text → Option ValidationError
  validate v keys = if v.enabled then validate_keys v.blocked_labels keys else none

  unfoldable pub add_blocked_label : Text → CardinalityValidator → CardinalityValidator
  add_blocked_label label v = record v { blocked_labels = to_lower label ∷ v.blocked_labels }

  unfoldable pub without_label : Text → List Text → List Text
  without_label label [] = []
  without_label label (l ∷ labels) =
      let rest = without_label label labels in if text_eq label l then rest else l ∷ rest

  unfoldable pub remove_blocked_label : Text → CardinalityValidator → CardinalityValidator
  remove_blocked_label label v = record v {
    blocked_labels = without_label (to_lower label) v.blocked_labels;
  }
