-- ===== src/Executor/Guards.antt =====
-- When `tcp_connect` touches the network, and what it reports.

-- The report on an attempt: a success with the latency, in 64 bits, and no error code, for an
-- attempt that connected, and a failure with an error code and no latency for all others.

use seven_network_manager.Base.{
  List, arith, false, inl, inr, min, none, refl, some, true, ◌-◌, ◌^◌, ◌↔◌, ◌∷◌, ◌≡◌, ◌≢◌, ◌≤◌, ◌⊎◌,
}
use seven_network_manager.Base.Result.{Result-cases, err, ok}
use seven_network_manager.Base.Text.{Text, codes}
use seven_network_manager.Network.{
  NetworkPolicy, TcpConnectRequest, allows, timeout, validate_request,
}
use seven_network_manager.Network.Classes.{
  IsScoped, IsScoped-validate_request, timeout_bounds, validate_request-IsScoped,
}
use seven_network_manager.Executor.{
  Attempt, Connection, ErrorKind, ExecutionStatus, ExecutorError, TcpConnectResult, admit,
  connect_within, connected, connection_refused, elapsed, error_code_of, host_unreachable,
  invalid_request, network_unreachable, other, permission_denied, refused, response, target_denied,
  tcp_connect,
}

abbrev pub Reports : Attempt → TcpConnectResult → Type 0
Reports (connected ms) r =
    (r.status ≡ ExecutionStatus.succeeded)
    × (r.latency_ms ≡ some (min ms (2 ^ 64 - 1)))
    × (r.error_code ≡ none)
Reports (refused kind) r =
    (r.status ≡ ExecutionStatus.failed)
    × (r.latency_ms ≡ none)
    × ((code : Text) × (r.error_code ≡ some code) × (code ≢ codes "timeout"))
Reports elapsed r =
    (r.status ≡ ExecutionStatus.failed)
    × (r.latency_ms ≡ none)
    × (r.error_code ≡ some (codes "timeout"))

error_code-timeout : (kind : ErrorKind) → error_code_of kind ≢ codes "timeout"
error_code-timeout connection_refused e = cc
error_code-timeout permission_denied e = cc
error_code-timeout network_unreachable e = cc
error_code-timeout host_unreachable e = cc
error_code-timeout other e = cc

response-Reports : (a : Attempt) → Reports a (response a)
unfolding response
response-Reports (connected ms) = (refl, ground arith, refl)
response-Reports (refused kind) = (refl, refl, (error_code_of kind, refl, error_code-timeout kind))
response-Reports elapsed = (refl, refl, refl)

-- The connection that a request asks for.
abbrev pub asked : TcpConnectRequest → Connection
asked r = record { address = r.target.address; port = r.port; limit_ms = timeout r }

module _ (policy : NetworkPolicy) (r : TcpConnectRequest) where
  -- The request is within its scope, and the policy permits its address.
  abbrev pub IsPermitted : Type 0
  IsPermitted = IsScoped r × (allows policy r.target.address ≡ true)

  scoped : validate_request r ≡ ok tt → IsScoped r
  scoped h = validate_request-IsScoped r h

  valid : IsScoped r → validate_request r ≡ ok tt
  valid p = IsScoped-validate_request r p

  admit_iff : (admit policy r ≡ ok tt) ↔ IsPermitted
  unfolding admit
  admit_iff = (λ h. (scoped (ground arith), ground arith), λ (p, a). ground (arith, valid p, a))

  admit-cases :
      (IsPermitted × (admit policy r ≡ ok tt))
      ⊎ ((¬ IsPermitted) × ((e : ExecutorError) × (admit policy r ≡ err e)))
  admit-cases = elim (Result-cases (admit policy r)) [
    | inl (_, h) ↦ inl (admit_iff.0 h, h)
    | inr (e, h) ↦ inr (λ p. clash e h (admit_iff.1 p), (e, h))
  ]
    where
      clash : (e : ExecutorError) → admit policy r ≡ err e → admit policy r ≡ ok tt → ⊥
      clash e h k = let q = (rw h at k) in cc

  tcp_connect-ok :
      (network : List Connection → Connection → Attempt) (opened : List Connection)
      → admit policy r ≡ ok tt
      → tcp_connect network policy r opened
        ≡ (ok (response (network opened (asked r))), asked r ∷ opened)
  unfolding tcp_connect connect_within
  tcp_connect-ok network opened h = ground arith

  tcp_connect-err :
      (network : List Connection → Connection → Attempt) (opened : List Connection)
      (e : ExecutorError)
      → admit policy r ≡ err e
      → tcp_connect network policy r opened ≡ (err e, opened)
  unfolding tcp_connect
  tcp_connect-err network opened e h = ground arith

  module _ (network : List Connection → Connection → Attempt) (opened : List Connection) where
    -- Exactly one of two things happens. The request is valid (its address is neither unspecified
    -- nor multicast and, if it is link-local in IPv6, comes with its interface, its port is
    -- positive, its target lies in the scope of the context) and the policy allows its address:
    -- then exactly one connection is opened, to that address and port and under a limit of between
    -- 100 ms and 30 s, and the result reports how it ended. Or one of these conditions does not
    -- hold: then no connection is opened and the result is an error.
    pub tcp_connect_guarded :
        (IsPermitted
          × ((100 ≤ (asked r).limit_ms) × ((asked r).limit_ms ≤ 30_000))
          × ((report : TcpConnectResult) × (tcp_connect network policy r opened
                ≡ (ok report, asked r ∷ opened))
              × Reports (network opened (asked r)) report))
        ⊎ ((¬ IsPermitted)
            × ((e : ExecutorError) × (tcp_connect network policy r opened ≡ (err e, opened))))
    tcp_connect_guarded = elim admit-cases [
      | inl (p, h) ↦ inl (
        p,
        timeout_bounds r,
        (
          response (network opened (asked r)),
          tcp_connect-ok network opened h,
          response-Reports (network opened (asked r)),
        ),
      )
      | inr (n, (e, h)) ↦ inr (n, (e, tcp_connect-err network opened e h))
    ]

    -- A target that the policy denies is never contacted: a valid request to it is answered with
    -- `target_denied`, an invalid one with what is invalid, and no connection is opened.
    pub tcp_connect_denied :
        allows policy r.target.address ≡ false
        → tcp_connect network policy r opened ≡ (
          elim (validate_request r) [ ok _ ↦ err target_denied | err e ↦ err (invalid_request e) ],
          opened,
        )
    unfolding tcp_connect admit
    tcp_connect_denied d = ground arith
