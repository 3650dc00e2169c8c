-- ===== src/Governance.antt =====
-- Redaction of sensitive fields and dataset policies (crates/domain/src/governance.rs;
-- `sanitize_json` of crates/security/src/audit.rs). A JSON value is serde_json's `Value`: a number
-- is kept as its text, and an object is the list of its fields.
pub mod Redaction
pub mod Clean
mod Tests
use seven_network_manager.Base.{
  Bool, List, [], any, false, if◌then◌else◌, is_empty, map, not, true, ℕ, ◌&&◌, ◌==◌, ◌||◌, ◌∷◌,
}
use seven_network_manager.Base.Result.{Result, fail_if, ◌>>=◌, ◌>>◌}
use seven_network_manager.Base.Text.{Text, codes, contains, text_eq, to_ascii_lowercase, trim}

abbrev pub sensitive : List Text
sensitive =
    codes "password"
    ∷ codes "secret"
    ∷ codes "token"
    ∷ codes "community"
    ∷ codes "private_key"
    ∷ codes "refresh_token"
    ∷ codes "authorization"
    ∷ codes "cookie"
    ∷ []

abbrev pub redacted : Text
redacted = codes "[REDACTED]"

-- `sensitive.iter().any(…)` of the lower-case key.
unfoldable pub is_sensitive : Text → Bool
is_sensitive key =
    let lower = map to_ascii_lowercase key in any (λ needle. contains lower needle) sensitive

unfoldable pub redact_value : Text → Text → Text
redact_value key value = if is_sensitive key then redacted else value

mutual
  pub data Value : Type 0 where
    null : Value
    boolean : Bool → Value
    number : Text → Value
    string : Text → Value
    array : Values → Value
    object : Fields → Value

  pub data Values : Type 0 where
    nil : Values
    cons : Value → Values → Values

  pub data Fields : Type 0 where
    end : Fields
    field : Text → Value → Fields → Fields

-- The marker that `sanitize_json` asks for.
abbrev pub sentinel : Text
sentinel = codes "SNM-SENTINEL"

-- `marker == "[REDACTED]"`
unfoldable pub is_marked : Text → Bool
unfolding redact_value
is_marked key = text_eq (redact_value key sentinel) redacted

unfoldable mutual
  unfolding is_marked

  pub sanitize_json : Value → Value
  sanitize_json (object fields) = object (sanitize_fields fields)
  sanitize_json (array values) = array (sanitize_values values)
  sanitize_json null = null
  sanitize_json (boolean b) = boolean b
  sanitize_json (number n) = number n
  sanitize_json (string s) = string s

  pub sanitize_values : Values → Values
  sanitize_values nil = nil
  sanitize_values (cons v vs) = cons (sanitize_json v) (sanitize_values vs)

  pub sanitize_fields : Fields → Fields
  sanitize_fields end = end
  sanitize_fields (field key value rest) =
      field key (if is_marked key then string redacted else sanitize_json value)
        (sanitize_fields rest)

pub data DataClass : Type 0 where
  public internal confidential secret : DataClass

pub data PurgeStrategy : Type 0 where
  delete anonymize archive_then_delete append_only_policy : PurgeStrategy

abbrev pub is_append_only : PurgeStrategy → Bool
is_append_only append_only_policy = true
is_append_only _ = false

pub record DatasetPolicy : Type 0 where
  pub dataset : Text
  pub owner : Text
  pub purpose : Text
  pub class : DataClass
  pub retention_days : ℕ
  pub purge_strategy : PurgeStrategy
  pub legal_hold_supported : Bool

-- The two messages of `validate`.
pub data PolicyError : Type 0 where
  names_required retention_required : PolicyError

unfoldable pub validate_policy : DatasetPolicy → Result PolicyError (Unit {0})
validate_policy p = do
  fail_if (is_empty (trim p.dataset) || is_empty (trim p.owner) || is_empty (trim p.purpose))
      names_required
  fail_if (p.retention_days == 0 && not (is_append_only p.purge_strategy)) retention_required
