-- ===== src/Governance/Tests.antt =====
-- Runs and instances of redaction.
use seven_network_manager.Base.{refl, ◌↔◌, ◌≡◌}
use seven_network_manager.Base.Text.{codes, contains, text_eq, to_ascii_lowercase}
use seven_network_manager.Governance.{
  Value, array, cons, end, field, is_sensitive, nil, object, redact_value, redacted, sanitize_json,
  string,
}
use seven_network_manager.Governance.Clean.{IsClean, sanitize_json-IsClean}

-- `sentinel_secret_is_redacted`
redactions :
    (redact_value (codes "snmp_community") (codes "x") ≡ redacted)
    × (redact_value (codes "display_name") (codes "x") ≡ codes "x")
    × (redact_value (codes "Set-Cookie") (codes "x") ≡ redacted)
unfolding redact_value is_sensitive contains to_ascii_lowercase
redactions = (refl, refl, refl)

abbrev login_event : Value
login_event = object (
    field (codes "user") (string (codes "admin")) (
      field (codes "inner")
        (array (cons (object (field (codes "Password") (string (codes "hunter2")) end)) nil)) end))

sanitize_login :
    sanitize_json login_event
    ≡ object (
        field (codes "user") (string (codes "admin")) (
          field
            (codes "inner")
            (array (cons (object (field (codes "Password") (string redacted) end)) nil))
            end))
unfolding sanitize_json is_sensitive contains to_ascii_lowercase text_eq
sanitize_login = refl

sanitize_json-IsClean_example :
    IsClean (sanitize_json login_event)
    × ((sanitize_json login_event ≡ login_event) ↔ IsClean login_event)
sanitize_json-IsClean_example = sanitize_json-IsClean login_event
