-- ===== src/Governance/Clean.antt =====
-- `sanitize_json` against a description of clean values.
use seven_network_manager.Base.{Bool-cases, ap, if◌then◌else◌, inl, inr, refl, subst, sym, ◌↔◌, ◌≡◌}
use seven_network_manager.Base.Text.{Text}
use seven_network_manager.Governance.{
  Fields, Value, Values, array, boolean, cons, end, field, is_marked, is_sensitive, nil, null,
  number, object, redacted, sanitize_fields, sanitize_json, sanitize_values, string,
}
use seven_network_manager.Governance.Redaction.{is_marked-eq}

-- Every field with a sensitive key, at any depth, holds the redaction mark and nothing else.
abbrev mutual
  pub IsClean : Value → Type 0
  IsClean null = Unit
  IsClean (boolean b) = Unit
  IsClean (number n) = Unit
  IsClean (string s) = Unit
  IsClean (array vs) = AreClean vs
  IsClean (object fs) = HasCleanFields fs

  pub AreClean : Values → Type 0
  AreClean nil = Unit
  AreClean (cons v vs) = IsClean v × AreClean vs

  pub HasCleanFields : Fields → Type 0
  HasCleanFields end = Unit
  HasCleanFields (field key v rest) =
      (if is_sensitive key then v ≡ string redacted else IsClean v) × HasCleanFields rest

field-IsClean :
    (key : Text) (v : Value)
    → IsClean (sanitize_json v)
    → (if is_sensitive key
        then (if is_marked key then string redacted else sanitize_json v) ≡ string redacted
        else IsClean (if is_marked key then string redacted else sanitize_json v))
field-IsClean key v h =
    rw (is_marked-eq key)
      (elim (Bool-cases (is_sensitive key)) [ inl e ↦ rw e refl | inr e ↦ rw e h ])

mutual
  unfolding sanitize_json

  IsClean-value : (v : Value) → IsClean (sanitize_json v)
  IsClean-value null = tt
  IsClean-value (boolean b) = tt
  IsClean-value (number n) = tt
  IsClean-value (string s) = tt
  IsClean-value (array vs) = clean_values vs
  IsClean-value (object fs) = clean_fields fs

  clean_values : (vs : Values) → AreClean (sanitize_values vs)
  clean_values nil = tt
  clean_values (cons v vs) = (IsClean-value v, clean_values vs)

  clean_fields : (fs : Fields) → HasCleanFields (sanitize_fields fs)
  clean_fields end = tt
  clean_fields (field key v rest) = (field-IsClean key v (IsClean-value v), clean_fields rest)

field_kept :
    (key : Text) (v w : Value)
    → (IsClean v → w ≡ v)
    → (if is_sensitive key then v ≡ string redacted else IsClean v)
    → (if is_marked key then string redacted else w) ≡ v
field_kept key v w ih h = rw (is_marked-eq key) (elim (Bool-cases (is_sensitive key)) [
  | inl e ↦ rw e (sym (rw e at h))
  | inr e ↦ rw e (ih (rw e at h))
])

mutual
  unfolding sanitize_json

  kept_value : (v : Value) → IsClean v → sanitize_json v ≡ v
  kept_value null h = refl
  kept_value (boolean b) h = refl
  kept_value (number n) h = refl
  kept_value (string s) h = refl
  kept_value (array vs) h = ap array (kept_values vs h)
  kept_value (object fs) h = ap object (kept_fields fs h)

  kept_values : (vs : Values) → AreClean vs → sanitize_values vs ≡ vs
  kept_values nil h = refl
  kept_values (cons v vs) h = cc (kept_value v h.0, kept_values vs h.1)

  kept_fields : (fs : Fields) → HasCleanFields fs → sanitize_fields fs ≡ fs
  kept_fields end h = refl
  kept_fields (field key v rest) h =
      cc (field_kept key v (sanitize_json v) (λ c. kept_value v c) h.0, kept_fields rest h.1)

-- After sanitizing, every field with a sensitive key holds only the redaction mark, at any depth;
-- and a value is changed by sanitizing exactly if it was not clean.
pub sanitize_json-IsClean :
    (v : Value) → IsClean (sanitize_json v) × ((sanitize_json v ≡ v) ↔ IsClean v)
sanitize_json-IsClean v =
    (IsClean-value v, (λ e. subst IsClean e (IsClean-value v), λ c. kept_value v c))

-- Sanitizing twice is sanitizing once.
pub sanitize_json_idem : (v : Value) → sanitize_json (sanitize_json v) ≡ sanitize_json v
sanitize_json_idem v = kept_value (sanitize_json v) (IsClean-value v)
