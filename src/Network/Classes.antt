-- ===== src/Network/Classes.antt =====
-- How the two network policies compare, and what a valid request guarantees.

use seven_network_manager.Base.{
  Bool-cases, arith, false, inl, inr, true, ◌*◌, ◌<◌, ◌^◌, ◌↔◌, ◌≡◌, ◌≤◌, ◌⊎◌,
}
use seven_network_manager.Base.Result.{ok}
use seven_network_manager.Network.{
  IpAddr, NetworkPolicy, TcpConnectRequest, allows, allows_local, is_link_local, is_loopback,
  is_multicast, is_private, is_unicast_link_local, is_unique_local, is_unspecified, lacks_scope,
  timeout, v4, v6, validate_request,
}

local_policy :
    (a : IpAddr) → allows_local a ≡ true → (is_unspecified a ≡ false) × (is_multicast a ≡ false)
unfolding allows_local is_private is_loopback is_link_local is_unicast_link_local is_unique_local
    is_unspecified is_multicast
local_policy (v4 n) h = (ground arith, ground arith)
local_policy (v6 n) h = (ground arith, ground arith)

-- The ranges that the default policy reaches: 10.0.0.0/8, 172.16.0.0/12, 192.168.0.0/16,
-- 127.0.0.0/8 and 169.254.0.0/16; ::1, fe80::/10 and fc00::/7.
abbrev pub IsLocal : IpAddr → Type 0
IsLocal (v4 n) =
    ((0x0A000000 ≤ n) × (n ≤ 0x0AFFFFFF))
    ⊎ ((0xAC100000 ≤ n) × (n ≤ 0xAC1FFFFF))
    ⊎ ((0xC0A80000 ≤ n) × (n ≤ 0xC0A8FFFF))
    ⊎ ((0x7F000000 ≤ n) × (n ≤ 0x7FFFFFFF))
    ⊎ ((0xA9FE0000 ≤ n) × (n ≤ 0xA9FEFFFF))
IsLocal (v6 n) =
    (n ≡ 1)
    ⊎ ((0x3FA * 2 ^ 118 ≤ n) × (n < 0x3FB * 2 ^ 118))
    ⊎ ((0x7E * 2 ^ 121 ≤ n) × (n < 0x7F * 2 ^ 121))

IsLocal-to : (a : IpAddr) → allows_local a ≡ true → IsLocal a
unfolding allows_local is_private is_loopback is_link_local is_unicast_link_local is_unique_local
IsLocal-to (v4 n) h = ground arith
IsLocal-to (v6 n) h = ground arith

local_from : (a : IpAddr) → IsLocal a → allows_local a ≡ true
unfolding allows_local is_private is_loopback is_link_local is_unicast_link_local is_unique_local
local_from (v4 n) h = ground arith
local_from (v6 n) h = ground arith

-- A policy that does not allow public targets reaches exactly the private, loopback, link-local
-- and unique-local ranges.
pub allows_iff_IsLocal :
    (p : NetworkPolicy) (a : IpAddr)
    → p.allow_public_targets ≡ false
    → (allows p a ≡ true) ↔ IsLocal a
unfolding allows
allows_iff_IsLocal p a e = rw e (IsLocal-to a, local_from a)

-- Whatever the policy, an address that it allows is neither unspecified nor multicast, and it is
-- allowed too once public targets are.
pub allows_sane :
    (p : NetworkPolicy) (a : IpAddr)
    → allows p a ≡ true
    → (is_unspecified a ≡ false)
      × (is_multicast a ≡ false)
      × (allows (record p { allow_public_targets = true }) a ≡ true)
unfolding allows
allows_sane p a h = elim (Bool-cases p.allow_public_targets) [
  | inl e ↦ ground arith
  | inr e ↦ ground (arith, local_policy a)
]

-- What a valid request guarantees.
pub record IsScoped (r : TcpConnectRequest) : Type 0 where
  pub specified : is_unspecified r.target.address ≡ false
  pub unicast : is_multicast r.target.address ≡ false
  pub link_local_scoped : lacks_scope r.target.address r.target.interface_scope ≡ false
  pub port_positive : 0 < r.port
  pub same_organization : r.target.organization_id ≡ r.context.organization_id
  pub same_site : r.target.site_id ≡ r.context.site_id
  pub same_routing_domain : r.target.routing_domain_id ≡ r.context.routing_domain_id

pub validate_request-IsScoped : (r : TcpConnectRequest) → validate_request r ≡ ok tt → IsScoped r
unfolding validate_request
validate_request-IsScoped r h = ground arith

pub IsScoped-validate_request : (r : TcpConnectRequest) → IsScoped r → validate_request r ≡ ok tt
unfolding validate_request
IsScoped-validate_request r h = ground (
  arith, h.specified, h.unicast, h.port_positive, h.same_organization, h.same_site,
  h.same_routing_domain,
)

pub timeout_bounds : (r : TcpConnectRequest) → (100 ≤ timeout r) × (timeout r ≤ 30_000)
unfolding timeout
timeout_bounds r = ground arith
