-- ===== src/Rbac/Tests.antt =====
-- Runs and instances of authorisation.

use seven_network_manager.Base.{
  Bool, Option, [], false, refl, some, true, ℕ, ◌↔◌, ◌∷◌, ◌≡◌, ◌≢◌, ◌⊎◌,
}
use seven_network_manager.Base.Result.{err, ok}
use seven_network_manager.Base.Text.{codes, is_ascii_digit, is_ascii_lowercase, len}
use seven_network_manager.Rbac.{
  AuthorizationContext, AuthorizationRequest, authorize, authorize_approval, denied,
  invalid_permission, parse,
}
use seven_network_manager.Rbac.Decision.{Covered, authorize_approval_iff, authorize_iff}

parses :
    (parse (codes "devices.view") ≡ ok (codes "devices.view"))
    × (parse (codes "Devices.view") ≡ err invalid_permission)
    × (parse (codes "devices") ≡ err invalid_permission)
unfolding parse len is_ascii_lowercase is_ascii_digit
parses = (refl, refl, refl)

-- `site_grant_cannot_escalate_to_sibling_site`
abbrev site_context : AuthorizationContext
site_context = record {
  actor_id = 1;
  session_id = 2;
  grants =
      record {
        permission = codes "vlans.write";
        scope = record { organization_id = 10; site_id = some 20 };
      }
      ∷ [];
}

abbrev at_site : Option ℕ → AuthorizationRequest
at_site site = record {
  permission = codes "vlans.write";
  scope = record { organization_id = 10; site_id = site };
}

authorize_iff_example :
    ((authorize site_context (at_site (some 20)) ≡ ok tt)
      ↔ Covered (at_site (some 20)) site_context.grants)
    × ((authorize site_context (at_site (some 20)) ≡ err denied)
        ↔ (¬ Covered (at_site (some 20)) site_context.grants))
authorize_iff_example = authorize_iff site_context (at_site (some 20))

authorize_approval_iff_example :
    (authorize_approval site_context (at_site (some 20)) 1 true ≡ ok tt) ↔ (
      Covered (at_site (some 20)) site_context.grants
      × ((◌≡◌ {A = Bool} true false) ⊎ (◌≢◌ {A = ℕ} 1 1)))
authorize_approval_iff_example = authorize_approval_iff site_context (at_site (some 20)) 1 true
