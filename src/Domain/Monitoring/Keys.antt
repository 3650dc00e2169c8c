-- ===== src/Domain/Monitoring/Keys.antt =====
-- Which fingerprints have the same key.

use seven_network_manager.Base.{Option, [], ap, arith, none, refl, some, sym, ◌++◌, ◌∷◌, ◌≡◌, ◌≢◌}
use seven_network_manager.Base.Text.{Text, codes}
use seven_network_manager.Base.Split.{Lacks}
use seven_network_manager.Domain.Monitoring.{AlertFingerprint, colon, or_dash, stable_key}

first_part :
    (a b c d : Text)
    → Lacks colon a
    → Lacks colon b
    → a ++ colon ∷ c ≡ b ++ colon ∷ d
    → (a ≡ b) × (c ≡ d)
first_part [] [] c d la lb e = (refl, cc)
first_part [] (y ∷ b) c d la lb e = absurd (ground (arith, lb.0))
first_part (x ∷ a) [] c d la lb e = absurd (ground (arith, la.0))
first_part (x ∷ a) (y ∷ b) c d la lb e =
    let (head, tail) = parts e in let (same, rest) = first_part a b c d la.1 lb.1 tail in (cc, rest)
  where
    parts :
        x ∷ (a ++ colon ∷ c) ≡ y ∷ (b ++ colon ∷ d) → (x ≡ y) × (a ++ colon ∷ c ≡ b ++ colon ∷ d)
    parts e = (cc, cc)

-- No part has a colon, and no optional part is a dash.
pub record IsPlain (f : AlertFingerprint) : Type 0 where
  pub organization_plain : Lacks colon f.organization
  pub site_plain : Lacks colon (or_dash f.site)
  pub resource_plain : Lacks colon f.resource
  pub rule_plain : Lacks colon f.rule
  pub site_named : f.site ≢ some (codes "-")
  pub dimension_named : f.dimension ≢ some (codes "-")

or_dash-eq :
    (a b : Option Text)
    → a ≢ some (codes "-")
    → b ≢ some (codes "-")
    → or_dash a ≡ or_dash b
    → a ≡ b
or_dash-eq none none h k e = refl
or_dash-eq none (some b) h k e = absurd (k (ap some (sym e)))
or_dash-eq (some a) none h k e = absurd (h (ap some e))
or_dash-eq (some a) (some b) h k e = ap some e

-- Two fingerprints without colons in the organisation, the site, the resource and the rule, and
-- without a site or a dimension that is a mere dash, have the same key only if they are the same.
pub stable_key-injective :
    (f g : AlertFingerprint) → IsPlain f → IsPlain g → stable_key f ≡ stable_key g → f ≡ g
unfolding stable_key
stable_key-injective f g p q e =
    let (org, e1) =
      first_part f.organization g.organization _ _ p.organization_plain q.organization_plain e in
    let (site, e2) =
      first_part (or_dash f.site) (or_dash g.site) _ _ p.site_plain q.site_plain e1 in
    let (resource, e3) =
      first_part f.resource g.resource _ _ p.resource_plain q.resource_plain e2 in
    let (rule, dimension) = first_part f.rule g.rule _ _ p.rule_plain q.rule_plain e3 in
    let same_site = or_dash-eq f.site g.site p.site_named q.site_named site in
    let same_dimension =
      or_dash-eq f.dimension g.dimension p.dimension_named q.dimension_named dimension in
    cc
