-- ===== src/Executor.antt =====
-- The execution core (crates/executor-core/src/lib.rs). The connections that it opens are kept as
-- a list, the last one first; what each of them ends in, after those before it, is a parameter.
pub mod Guards
mod Tests
use seven_network_manager.Base.{List, Option, if◌then◌else◌, ltb, none, not, some, ℕ, ◌-◌, ◌^◌, ◌∷◌}
use seven_network_manager.Base.Result.{Result, err, fail_if, map_err, ok, ◌>>=◌, ◌>>◌}
use seven_network_manager.Base.Text.{Text, codes}
use seven_network_manager.Network.{
  DomainError, IpAddr, NetworkPolicy, TcpConnectRequest, allows, timeout, validate_request,
}

pub data ExecutionStatus : Type 0 where
  succeeded failed partial unknown cancelled unsupported not_applicable : ExecutionStatus

-- `std::io::ErrorKind`, as far as it is told apart.
pub data ErrorKind : Type 0 where
  connection_refused permission_denied network_unreachable host_unreachable other : ErrorKind

-- The three cases of `timeout(…, TcpStream::connect(socket)).await`; a connection comes with the
-- milliseconds that it took.
pub data Attempt : Type 0 where
  connected : ℕ → Attempt
  refused : ErrorKind → Attempt
  elapsed : Attempt

pub record TcpConnectResult : Type 0 where
  pub status : ExecutionStatus
  pub latency_ms : Option ℕ
  pub error_code : Option Text

pub data ExecutorError : Type 0 where
  invalid_request : DomainError → ExecutorError
  target_denied : ExecutorError

abbrev pub error_code_of : ErrorKind → Text
error_code_of connection_refused = codes "connection_refused"
error_code_of permission_denied = codes "permission_denied"
error_code_of network_unreachable = codes "network_unreachable"
error_code_of host_unreachable = codes "host_unreachable"
error_code_of other = codes "transport_error"

-- `as_millis().try_into().unwrap_or(u64::MAX)`
abbrev pub to_u64 : ℕ → ℕ
to_u64 n = if ltb n (2 ^ 64) then n else 2 ^ 64 - 1

-- The `match result` of `tcp_connect`.
unfoldable pub response : Attempt → TcpConnectResult
response (connected ms) = record {
  status = ExecutionStatus.succeeded;
  latency_ms = some (to_u64 ms);
  error_code = none;
}
response (refused kind) = record {
  status = ExecutionStatus.failed;
  latency_ms = none;
  error_code = some (error_code_of kind);
}
response elapsed = record {
  status = ExecutionStatus.failed;
  latency_ms = none;
  error_code = some (codes "timeout");
}

-- A connection that was opened: where to, and the time limit in milliseconds that it was under.
pub record Connection : Type 0 where
  pub address : IpAddr
  pub port : ℕ
  pub limit_ms : ℕ

-- `timeout(limit, TcpStream::connect((address, port))).await`
unfoldable pub connect_within :
    (List Connection → Connection → Attempt)
    → IpAddr
    → ℕ
    → ℕ
    → List Connection
    → Attempt × List Connection
connect_within network address port limit_ms opened =
    let c : Connection = record { address = address; port = port; limit_ms = limit_ms } in
    (network opened c, c ∷ opened)

-- The early returns of `tcp_connect`.
unfoldable pub admit : NetworkPolicy → TcpConnectRequest → Result ExecutorError (Unit {0})
admit policy request = do
  map_err invalid_request (validate_request request)
  fail_if (not (allows policy request.target.address)) target_denied

-- The result, and the connections that have been opened by then.
unfoldable pub tcp_connect :
    (List Connection → Connection → Attempt)
    → NetworkPolicy
    → TcpConnectRequest
    → List Connection
    → Result ExecutorError TcpConnectResult × List Connection
tcp_connect network policy request opened = elim (admit policy request) [
  | err e ↦ (err e, opened)
  | ok _ ↦
      (let result =
          connect_within network request.target.address request.port (timeout request) opened in
        (ok (response result.0), result.1))
]
