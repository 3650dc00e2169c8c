-- ===== src/Rbac/Decision.antt =====
-- Authorisation against a description of the grants that cover a request.
use mathlib.Core.List.{Memᴰ}
use seven_network_manager.Base.{
  All, Bool, Bool-cases, List, [], any, arith, false, inl, inr, none, option_eq_iff, refl, some,
  subst, sym, true, ℕ, ◌↔◌, ◌∷◌, ◌≡◌, ◌≢◌, ◌⊎◌,
}
use seven_network_manager.Base.Result.{err, ok}
use seven_network_manager.Base.Text.{text_eq_iff}
use seven_network_manager.Rbac.{
  AuthorizationContext, AuthorizationRequest, PermissionGrant, authorize, authorize_approval,
  denied, grant_covers, scope_contains,
}

-- The grant names the permission, in the organisation of the request, for all its sites or for
-- the very site that is asked for.
pub record Covers (q : AuthorizationRequest) (g : PermissionGrant) : Type 0 where
  pub same_permission : g.permission ≡ q.permission
  pub same_organization : g.scope.organization_id ≡ q.scope.organization_id
  pub site_covered : (g.scope.site_id ≡ none) ⊎ (g.scope.site_id ≡ q.scope.site_id)

grant_covers_iff :
    (q : AuthorizationRequest) (g : PermissionGrant) → (grant_covers q g ≡ true) ↔ Covers q g
unfolding scope_contains
grant_covers_iff q g = (
  λ h.
      ground (
        arith,
        text_eq_iff g.permission q.permission,
        option_eq_iff g.scope.site_id q.scope.site_id,
      ),
  λ c.
      ground (
        arith,
        text_eq_iff g.permission q.permission,
        option_eq_iff g.scope.site_id q.scope.site_id,
      ),
)

-- Some grant of the context covers the request.
abbrev pub Covered : AuthorizationRequest → List PermissionGrant → Type 0
Covered q grants = (g : PermissionGrant) × Memᴰ g grants × Covers q g

Covered-any :
    (q : AuthorizationRequest) (grants : List PermissionGrant)
    → any (grant_covers q) grants ≡ true
    → Covered q grants
Covered-any q [] h = cc
Covered-any q (g ∷ grants) h = elim (Bool-cases (grant_covers q g)) [
  | inl e ↦ (g, Memᴰ.head refl, (grant_covers_iff q g).0 e)
  | inr e ↦ later (Covered-any q grants (rw e at h))
]
  where
    later : Covered q grants → Covered q (g ∷ grants)
    later (f, m, c) = (f, Memᴰ.tail m, c)

any_of_mem :
    (q : AuthorizationRequest) (g : PermissionGrant) (grants : List PermissionGrant)
    → Memᴰ g grants
    → grant_covers q g ≡ true
    → any (grant_covers q) grants ≡ true
any_of_mem q g [] m c = elim m [ ]
any_of_mem q g (f ∷ grants) (Memᴰ.head p) c = rw (subst (λ x. grant_covers q x ≡ true) p c) refl
any_of_mem q g (f ∷ grants) (Memᴰ.tail m) c = ground (arith, any_of_mem q g grants m c)

any_grant_iff :
    (q : AuthorizationRequest) (grants : List PermissionGrant)
    → (any (grant_covers q) grants ≡ true) ↔ Covered q grants
any_grant_iff q grants =
    (Covered-any q grants, λ (g, m, c). any_of_mem q g grants m ((grant_covers_iff q g).1 c))

-- A request is authorised exactly if some grant covers it, and denied otherwise.
pub authorize_iff :
    (c : AuthorizationContext) (q : AuthorizationRequest)
    → ((authorize c q ≡ ok tt) ↔ Covered q c.grants)
      × ((authorize c q ≡ err denied) ↔ (¬ Covered q c.grants))
unfolding authorize
authorize_iff c q = elim (Bool-cases (any (grant_covers q) c.grants)) [
  | inl e ↦ (
    (λ h. (any_grant_iff q c.grants).0 e, λ h. rw e refl),
    (λ h. absurd (clash e h), λ h. absurd (h ((any_grant_iff q c.grants).0 e))),
  )
  | inr e ↦ ((λ h. absurd (clash' e h), λ h. absurd (miss e h)), (λ h. miss e, λ h. rw e refl))
]
  where
    clash : any (grant_covers q) c.grants ≡ true → authorize c q ≡ err denied → ⊥
    clash e h = let h' = (rw e at h) in cc

    clash' : any (grant_covers q) c.grants ≡ false → authorize c q ≡ ok tt → ⊥
    clash' e h = let h' = (rw e at h) in cc

    miss : any (grant_covers q) c.grants ≡ false → ¬ Covered q c.grants
    miss e h = let t = (any_grant_iff q c.grants).1 h in cc

-- An approval goes through exactly if some grant covers it and, where duties are to be separated,
-- the approver is not the requester.
pub authorize_approval_iff :
    (c : AuthorizationContext) (q : AuthorizationRequest) (requested_by : ℕ) (separate : Bool)
    → (authorize_approval c q requested_by separate ≡ ok tt)
      ↔ (Covered q c.grants × ((separate ≡ false) ⊎ (c.actor_id ≢ requested_by)))
unfolding authorize_approval
authorize_approval_iff c q r s = (
  λ h. ((authorize_iff c q).0.0 (ground arith), split h),
  λ h. ground (arith, (authorize_iff c q).0.1 h.0, h.1),
)
  where
    split : authorize_approval c q r s ≡ ok tt → (s ≡ false) ⊎ (c.actor_id ≢ r)
    split h = elim (Bool-cases s) [ inl e ↦ inr (λ same. ground arith) | inr e ↦ inl e ]

-- The grant is for one site of one organisation.
abbrev pub IsSiteGrant : ℕ → ℕ → PermissionGrant → Type 0
IsSiteGrant org site g = (g.scope.organization_id ≡ org) × (g.scope.site_id ≡ some site)

grant_of_mem :
    (org site : ℕ) (g : PermissionGrant) (grants : List PermissionGrant)
    → All (IsSiteGrant org site) grants
    → Memᴰ g grants
    → IsSiteGrant org site g
grant_of_mem org site g [] h m = elim m [ ]
grant_of_mem org site g (f ∷ grants) h (Memᴰ.head p) = subst (IsSiteGrant org site) (sym p) h.0
grant_of_mem org site g (f ∷ grants) h (Memᴰ.tail m) = grant_of_mem org site g grants h.1 m

-- Where every grant is for one site of one organisation, a request in another organisation, for
-- another site, or for the organisation as a whole is denied.
pub site_isolation :
    (c : AuthorizationContext) (q : AuthorizationRequest) (org site : ℕ)
    → All (IsSiteGrant org site) c.grants
    → (q.scope.organization_id ≢ org) ⊎ (q.scope.site_id ≢ some site)
    → authorize c q ≡ err denied
site_isolation c q org site h apart =
    (authorize_iff c q).1.1 (λ (g, m, v). clash g (grant_of_mem org site g c.grants h m) v)
  where
    clash : (g : PermissionGrant) → IsSiteGrant org site g → Covers q g → ⊥
    clash g only v = ground arith
