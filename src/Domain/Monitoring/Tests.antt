-- ===== src/Domain/Monitoring/Tests.antt =====
-- Runs and instances of the alert keys.

use seven_network_manager.Base.{ap, arith, length, none, refl, some, ◌≡◌}
use seven_network_manager.Base.Text.{Text, codes}
use seven_network_manager.Domain.Monitoring.{AlertFingerprint, stable_key}
use seven_network_manager.Domain.Monitoring.Keys.{IsPlain, stable_key-injective}
use mathlib.Core.Option.{some-injective}

abbrev link_down : AlertFingerprint
link_down = record {
  organization = codes "org";
  site = none;
  resource = codes "sw1";
  rule = codes "link";
  dimension = some (codes "eth0");
}

len_differs : {a b : Text} → some a ≡ some b → length a ≡ length b
len_differs e = ap length (some-injective _ _ e)

link_down-IsPlain : IsPlain link_down
link_down-IsPlain = record {
  organization_plain = (refl, (refl, (refl, tt)));
  site_plain = (refl, tt);
  resource_plain = (refl, (refl, (refl, tt)));
  rule_plain = (refl, (refl, (refl, (refl, tt))));
  site_named = λ e. cc;
  dimension_named = λ e. ground (arith, len_differs e);
}

stable_key-injective_example : link_down ≡ link_down
stable_key-injective_example =
    stable_key-injective link_down link_down link_down-IsPlain link_down-IsPlain refl

-- Two fingerprints with one key.
one_key :
    stable_key (record link_down { resource = codes "a:b"; rule = codes "c" })
    ≡ stable_key (record link_down { resource = codes "a"; rule = codes "b:c" })
unfolding stable_key
one_key = refl
