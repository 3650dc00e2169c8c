-- ===== src/Network.antt =====
-- Addresses and execution targets (crates/domain/src/lib.rs, crates/domain/src/ipam.rs). An IPv4
-- address is its 32-bit number, an IPv6 address its 128-bit number; the classes are those of
-- `std::net`.
pub mod Classes
mod Tests
use seven_network_manager.Base.{
  Bool, Option, clamp, false, if◌then◌else◌, is_empty, none, not, some, true, ℕ, ◌&&◌, ◌/◌, ◌<◌,
  ◌==◌, ◌^◌, ◌||◌,
}
use seven_network_manager.Base.Result.{Result, fail_if, ◌>>=◌, ◌>>◌}
use seven_network_manager.Base.Text.{Text}

pub data IpAddr : Type 0 where
  v4 : ℕ → IpAddr
  v6 : ℕ → IpAddr

-- The numbers that stand for an address.
abbrev pub IsAddress : IpAddr → Type 0
IsAddress (v4 n) = n < 2 ^ 32
IsAddress (v6 n) = n < 2 ^ 128

-- The first octet and the first two octets of an IPv4 address.
abbrev pub octet : ℕ → ℕ
octet n = n / 2 ^ 24

abbrev pub octet_pair : ℕ → ℕ
octet_pair n = n / 2 ^ 16

-- `segments()[0]` of an IPv6 address.
abbrev pub segment : ℕ → ℕ
segment n = n / 2 ^ 112

-- `Ipv4Addr::is_private`: 10.0.0.0/8, 172.16.0.0/12 and 192.168.0.0/16.
unfoldable pub is_private : ℕ → Bool
is_private n = octet n == 10 || n / 2 ^ 20 == 0xAC1 || octet_pair n == 0xC0A8

-- 127.0.0.0/8 and ::1
unfoldable pub is_loopback : IpAddr → Bool
is_loopback (v4 n) = octet n == 127
is_loopback (v6 n) = n == 1

-- 169.254.0.0/16
unfoldable pub is_link_local : ℕ → Bool
is_link_local n = octet_pair n == 0xA9FE

-- fe80::/10: the first ten bits.
unfoldable pub is_unicast_link_local : ℕ → Bool
is_unicast_link_local n = n / 2 ^ 118 == 0x3FA

-- `(segments()[0] & 0xfe00) == 0xfc00`: the first seven bits.
unfoldable pub is_unique_local : ℕ → Bool
is_unique_local n = segment n / 2 ^ 9 == 0x7E

unfoldable pub is_unspecified : IpAddr → Bool
is_unspecified (v4 n) = n == 0
is_unspecified (v6 n) = n == 0

-- 224.0.0.0/4 and ff00::/8
unfoldable pub is_multicast : IpAddr → Bool
is_multicast (v4 n) = n / 2 ^ 28 == 0xE
is_multicast (v6 n) = n / 2 ^ 120 == 0xFF

pub record ScopedIpTarget : Type 0 where
  pub organization_id : ℕ
  pub site_id : ℕ
  pub routing_domain_id : ℕ
  pub address : IpAddr
  pub interface_scope : Option Text

pub data DomainError : Type 0 where
  invalid_routing_domain_name : DomainError
  invalid_target_address : IpAddr → DomainError
  missing_ipv6_link_local_scope : DomainError
  invalid_port : DomainError
  execution_scope_mismatch : DomainError
  unsupported_capability : Text → DomainError

-- `as_deref().unwrap_or("").is_empty()`
abbrev pub scope_is_empty : Option Text → Bool
scope_is_empty none = true
scope_is_empty (some s) = is_empty s

-- `if let IpAddr::V6(ip)` and the test in it
abbrev pub lacks_scope : IpAddr → Option Text → Bool
lacks_scope (v4 n) scope = false
lacks_scope (v6 n) scope = is_unicast_link_local n && scope_is_empty scope

unfoldable pub validate_target : ScopedIpTarget → Result DomainError (Unit {0})
validate_target t = do
  fail_if (is_unspecified t.address || is_multicast t.address) (invalid_target_address t.address)
  fail_if (lacks_scope t.address t.interface_scope) missing_ipv6_link_local_scope

pub record ExecutionContext : Type 0 where
  pub organization_id : ℕ
  pub site_id : ℕ
  pub routing_domain_id : ℕ
  pub actor_id : ℕ
  pub correlation_id : ℕ
  pub action_id : ℕ
  pub idempotency_key : Option Text

pub record TcpConnectRequest : Type 0 where
  pub context : ExecutionContext
  pub target : ScopedIpTarget
  pub port : ℕ
  pub timeout_ms : ℕ

-- `TcpConnectRequest::timeout`, in milliseconds.
unfoldable pub timeout : TcpConnectRequest → ℕ
timeout r = clamp r.timeout_ms 100 30_000

-- The three comparisons of the target's scope with the context's.
abbrev pub same_scope : ScopedIpTarget → ExecutionContext → Bool
same_scope t c =
    t.organization_id == c.organization_id
    && t.site_id == c.site_id
    && t.routing_domain_id == c.routing_domain_id

unfoldable pub validate_request : TcpConnectRequest → Result DomainError (Unit {0})
unfolding validate_target
validate_request r = do
  validate_target r.target
  fail_if (r.port == 0) invalid_port
  fail_if (not (same_scope r.target r.context)) execution_scope_mismatch

-- `NetworkPolicy` of crates/executor-core/src/lib.rs.
pub record NetworkPolicy : Type 0 where
  pub allow_public_targets : Bool

-- The `match address` of `allows`.
unfoldable pub allows_local : IpAddr → Bool
allows_local (v4 n) = is_private n || is_loopback (v4 n) || is_link_local n
allows_local (v6 n) = is_loopback (v6 n) || is_unicast_link_local n || is_unique_local n

unfoldable pub allows : NetworkPolicy → IpAddr → Bool
unfolding allows_local
allows p address =
    if p.allow_public_targets
    then not (is_unspecified address) && not (is_multicast address)
    else allows_local address
