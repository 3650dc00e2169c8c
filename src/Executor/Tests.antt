-- ===== src/Executor/Tests.antt =====
-- Runs and instances of the execution core.

use seven_network_manager.Base.{List, [], false, none, refl, some, ◌∷◌, ◌≡◌, ◌≤◌, ◌⊎◌}
use seven_network_manager.Base.Result.{err, ok}
use seven_network_manager.Network.{
  NetworkPolicy, TcpConnectRequest, allows, allows_local, is_link_local, is_loopback, is_multicast,
  is_private, is_unspecified, timeout, v4, validate_request,
}
use seven_network_manager.Executor.{
  Attempt, Connection, ExecutionStatus, ExecutorError, TcpConnectResult, admit, connect_within,
  connected, response, target_denied, tcp_connect,
}
use seven_network_manager.Executor.Guards.{IsPermitted, Reports, asked, tcp_connect_guarded}

abbrev probe_request : TcpConnectRequest
probe_request = record {
  context = record {
    organization_id = 1;
    site_id = 2;
    routing_domain_id = 3;
    actor_id = 4;
    correlation_id = 5;
    action_id = 6;
    idempotency_key = none;
  };
  target = record {
    organization_id = 1;
    site_id = 2;
    routing_domain_id = 3;
    address = v4 0x0A000001;
    interface_scope = none;
  };
  port = 22;
  timeout_ms = 5;
}

abbrev default_policy : NetworkPolicy
default_policy = record { allow_public_targets = false }

-- A network on which every host answers after 12 ms.
abbrev answering : List Connection → Connection → Attempt
answering opened c = connected 12

probe_succeeds : tcp_connect answering default_policy probe_request [] ≡ (
  ok (record { status = ExecutionStatus.succeeded; latency_ms = some 12; error_code = none }),
  record { address = v4 0x0A000001; port = 22; limit_ms = 100 } ∷ [],
)
unfolding tcp_connect admit connect_within response validate_request is_unspecified is_multicast
    allows is_private timeout
probe_succeeds = refl

tcp_connect_guarded_example :
    (IsPermitted default_policy probe_request
      × ((100 ≤ timeout probe_request) × (timeout probe_request ≤ 30_000))
      × ((report : TcpConnectResult) × (tcp_connect answering default_policy probe_request []
            ≡ (ok report, asked probe_request ∷ []))
          × Reports (connected 12) report))
    ⊎ ((¬ IsPermitted default_policy probe_request)
        × ((e : ExecutorError) × (tcp_connect answering default_policy probe_request []
              ≡ (err e, []))))
tcp_connect_guarded_example = tcp_connect_guarded default_policy probe_request answering []

abbrev public_request : TcpConnectRequest
public_request = record probe_request {
  target = record probe_request.target { address = v4 0x08080808 };
}

probe_denied : tcp_connect answering default_policy public_request [] ≡ (err target_denied, [])
unfolding tcp_connect admit validate_request is_unspecified is_multicast allows allows_local
    is_private is_loopback is_link_local
probe_denied = refl
