-- ===== src/Governance/Redaction.antt =====
-- When a key counts as sensitive, and what is shown for it.
use seven_network_manager.Base.{Bool-cases, false, inl, inr, refl, ◌≡◌}
use seven_network_manager.Base.Text.{Text, text_eq, text_eq_refl}
use seven_network_manager.Governance.{is_marked, is_sensitive, redacted, sentinel}

sentinel_is_not_redacted : text_eq sentinel redacted ≡ false
unfolding text_eq
sentinel_is_not_redacted = refl

-- The test on the marker is the test on the key: the sentinel is not itself the marker.
pub is_marked-eq : (key : Text) → is_marked key ≡ is_sensitive key
unfolding is_marked
is_marked-eq key = elim (Bool-cases (is_sensitive key)) [
  | inl e ↦ rw e (text_eq_refl redacted)
  | inr e ↦ rw e sentinel_is_not_redacted
]
