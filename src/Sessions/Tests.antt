-- ===== src/Sessions/Tests.antt =====
-- Runs and instances of the session rules.

use seven_network_manager.Base.Int.{saturate, saturating_add, saturating_sub, ◌+ℤ◌, ◌-ℤ◌}
use seven_network_manager.Base.Text.{
  codes, drop_end_while, drop_while, is_ascii_digit, is_ascii_lowercase, is_whitespace, len,
  text_eq, trim,
}
use seven_network_manager.Base.Result.{Result, err, ok}
use seven_network_manager.Base.{ap, arith, false, none, refl, some, ◌↔◌, ◌≡◌, ◌≢◌, ◌⊎◌}
use seven_network_manager.Base.Split.{split, split_once}
use seven_network_manager.Accounts.{distinct_ordered, permissions_for_user}
use seven_network_manager.Passwords.{verify_password}
use seven_network_manager.Token.{
  decode_access_token, decode_parts, encode_access_token, issue_opaque_token, opaque_token_matches,
  validate_claim_lifetime,
}
use seven_network_manager.Token.Toy.{toy_laws}
use seven_network_manager.Sessions.Tables.{
  AuthError, Tables, insert_refresh_token, insert_session, invalid_credentials,
  refresh_reuse_detected, revoke_family, revoke_session, revoke_token, update_rows, use_session,
}
use seven_network_manager.Sessions.Service.{
  IssuedSession, LoginRequest, RefreshRow, find_refresh, issue_access_token, issue_tokens,
  load_login_user, touch_user, verified_user,
}
use seven_network_manager.Sessions.Login.{authenticate_access, login, open_session, start_session}
use seven_network_manager.Sessions.Refresh.{
  logout, next_token, refresh, refresh_found, rotate_token,
}
use seven_network_manager.Sessions.Cookies.{HeaderMap, cookie_value, csrf_valid, find_cookie}
use seven_network_manager.Sessions.Families.{Step, logged_in, refreshed}
use seven_network_manager.Sessions.Live.{
  IsSessions, Reachable, Reachable-IsSessions, start, then_step,
}
use seven_network_manager.Sessions.Access.{IsAccepted, authenticate_access_iff}
use seven_network_manager.Sessions.Replay.{Steps, done, then_steps}
use seven_network_manager.Sessions.Refusal.{
  logout-authenticate_access, refresh-reused, reuse-authenticate_access,
}
use seven_network_manager.Sessions.RoundTrip.{login-authenticate_access}
use seven_network_manager.Sessions.Machine.{SpecStep, family_state}
use seven_network_manager.Sessions.Refinement.{Step-SpecStep}
use seven_network_manager.Sessions.Verified.{IsVerified, login-IsVerified}
use seven_network_manager.Sessions.Sample.{
  at, drawn, empty, first_row, issued_at, one_session, people, refresh_token, request, rotated_once,
  service,
}

first_login :
    login service (drawn 1) (at 1_000) request empty ≡ (ok (issued_at 1 1 1_000), one_session)
unfolding login start_session verified_user load_login_user verify_password issue_tokens
    issue_opaque_token open_session insert_session insert_refresh_token touch_user update_rows
    issue_access_token encode_access_token validate_claim_lifetime saturating_sub saturate ◌-ℤ◌
    text_eq len trim drop_while drop_end_while is_whitespace permissions_for_user distinct_ordered
    is_ascii_lowercase is_ascii_digit refresh refresh_found rotate_token revoke_family
first_login = refl

first_refresh :
    refresh service (drawn 2) (at 1_100) (refresh_token 1).secret one_session
    ≡ (ok (issued_at 1 2 1_100), rotated_once)
unfolding login start_session verified_user load_login_user verify_password issue_tokens
    issue_opaque_token open_session insert_session insert_refresh_token touch_user update_rows
    issue_access_token encode_access_token validate_claim_lifetime saturating_sub saturate ◌-ℤ◌
    text_eq len trim drop_while drop_end_while is_whitespace permissions_for_user distinct_ordered
    is_ascii_lowercase is_ascii_digit refresh refresh_found rotate_token revoke_family
first_refresh = refl

-- The tables after the exchanged token came back.
abbrev reused : Tables
reused = (refresh service (drawn 3) (at 1_200) (refresh_token 1).secret rotated_once).1

-- The tables after another login.
abbrev other_session : Tables
other_session = (login service (drawn 4) (at 1_300) request reused).1

to_other_session : Steps service reused other_session
to_other_session =
    then_steps reused other_session other_session (logged_in (drawn 4) (at 1_300) request refl)
      (done other_session)

other_accepted :
    authenticate_access service (at 1_310) (issued_at 4 4 1_300).access_token other_session
    ≡ ok (issued_at 4 4 1_300).identity
unfolding login start_session verified_user load_login_user verify_password issue_tokens
    issue_opaque_token open_session insert_session insert_refresh_token touch_user update_rows
    issue_access_token encode_access_token decode_access_token decode_parts split
    validate_claim_lifetime saturating_sub saturating_add saturate ◌-ℤ◌ ◌+ℤ◌ text_eq len trim
    drop_while drop_end_while is_whitespace permissions_for_user distinct_ordered is_ascii_lowercase
    is_ascii_digit refresh refresh_found rotate_token revoke_family logout authenticate_access
other_accepted = refl

abbrev second_row : RefreshRow
second_row = record {
  refresh_token = revoke_token (at 1_200) (next_token 2 first_row (refresh_token 2));
  session =
      revoke_session (at 1_200)
        (use_session (refresh_token 2).hash (refresh_token 2).prefix (at 1_100) first_row.session);
}

second_found : find_refresh (refresh_token 2).hash other_session ≡ some second_row
unfolding login start_session verified_user load_login_user verify_password issue_tokens
    issue_opaque_token open_session insert_session insert_refresh_token touch_user update_rows
    issue_access_token encode_access_token decode_access_token decode_parts split
    validate_claim_lifetime saturating_sub saturating_add saturate ◌-ℤ◌ ◌+ℤ◌ text_eq len trim
    drop_while drop_end_while is_whitespace permissions_for_user distinct_ordered is_ascii_lowercase
    is_ascii_digit refresh refresh_found rotate_token revoke_family logout authenticate_access
second_found = refl

refresh-reused_example :
    ((refresh service (drawn 3) (at 1_200) (refresh_token 1).secret rotated_once).0
      ≡ err refresh_reuse_detected)
    × ((refresh service (drawn 5) (at 1_400) (refresh_token 2).secret other_session).0
        ≡ err refresh_reuse_detected)
refresh-reused_example =
    refresh-reused service (drawn 2) (drawn 3) (drawn 5) (at 1_100) (at 1_200) (at 1_400)
      (refresh_token 1).secret (refresh_token 2).secret one_session rotated_once rotated_once
      other_session (issued_at 1 2 1_100) second_row first_refresh (done rotated_once)
      to_other_session second_found refl

reuse-authenticate_access_example :
    (issued_at 4 4 1_300).identity.session_id ≢ (issued_at 1 2 1_100).identity.session_id
reuse-authenticate_access_example =
    reuse-authenticate_access service (drawn 2) (drawn 3) (at 1_100) (at 1_200) (at 1_310)
      (refresh_token 1).secret (issued_at 4 4 1_300).access_token one_session rotated_once
      rotated_once other_session (issued_at 1 2 1_100) (issued_at 4 4 1_300).identity first_refresh
      (done rotated_once) to_other_session other_accepted

-- The tables after a logout, and after another login.
abbrev logged_out_tables : Tables
logged_out_tables = (logout service (at 1_050) (refresh_token 1).secret one_session).1

abbrev after_logout : Tables
after_logout = (login service (drawn 4) (at 1_300) request logged_out_tables).1

after_logout_accepted :
    authenticate_access service (at 1_310) (issued_at 4 4 1_300).access_token after_logout
    ≡ ok (issued_at 4 4 1_300).identity
unfolding login start_session verified_user load_login_user verify_password issue_tokens
    issue_opaque_token open_session insert_session insert_refresh_token touch_user update_rows
    issue_access_token encode_access_token decode_access_token decode_parts split
    validate_claim_lifetime saturating_sub saturating_add saturate ◌-ℤ◌ ◌+ℤ◌ text_eq len trim
    drop_while drop_end_while is_whitespace permissions_for_user distinct_ordered is_ascii_lowercase
    is_ascii_digit refresh refresh_found rotate_token revoke_family logout authenticate_access
after_logout_accepted = refl

first_found : find_refresh (refresh_token 1).hash one_session ≡ some first_row
unfolding login start_session verified_user load_login_user verify_password issue_tokens
    issue_opaque_token open_session insert_session insert_refresh_token touch_user update_rows
    issue_access_token encode_access_token decode_access_token decode_parts split
    validate_claim_lifetime saturating_sub saturating_add saturate ◌-ℤ◌ ◌+ℤ◌ text_eq len trim
    drop_while drop_end_while is_whitespace permissions_for_user distinct_ordered is_ascii_lowercase
    is_ascii_digit refresh refresh_found rotate_token revoke_family logout authenticate_access
first_found = refl

logout-authenticate_access_example :
    ((logout service (at 1_050) (refresh_token 1).secret one_session).0 ≡ ok tt)
    × ((issued_at 4 4 1_300).identity.session_id ≢ first_row.refresh_token.session_id)
logout-authenticate_access_example =
    logout-authenticate_access service (at 1_050) (at 1_310) (refresh_token 1).secret
      (issued_at 4 4 1_300).access_token first_row one_session after_logout
      (issued_at 4 4 1_300).identity first_found
      (then_steps logged_out_tables after_logout after_logout
        (logged_in (drawn 4) (at 1_300) request refl) (done after_logout))
      after_logout_accepted

first_step : Step service empty one_session
first_step =
    logged_in (drawn 1) (at 1_000) request
      (ap (λ (r : Result AuthError IssuedSession × Tables). r.1) first_login)

second_step : Step service one_session rotated_once
second_step =
    refreshed (drawn 2) (at 1_100) (refresh_token 1).secret
      (ap (λ (r : Result AuthError IssuedSession × Tables). r.1) first_refresh)

reached : Reachable service people one_session
reached = then_step empty start first_step

Reachable-IsSessions_example : IsSessions rotated_once
Reachable-IsSessions_example =
    Reachable-IsSessions service people (then_step one_session reached second_step)

Step-SpecStep_example : SpecStep (family_state one_session) (family_state rotated_once)
Step-SpecStep_example = Step-SpecStep service people one_session rotated_once reached second_step

authenticate_access_iff_example :
    (authenticate_access service (at 1_310) (issued_at 4 4 1_300).access_token other_session
      ≡ ok (issued_at 4 4 1_300).identity)
    ↔ IsAccepted service
        (at 1_310)
        (issued_at 4 4 1_300).access_token
        other_session
        (issued_at 4 4 1_300).identity
authenticate_access_iff_example =
    authenticate_access_iff service (at 1_310) (issued_at 4 4 1_300).access_token other_session
      (issued_at 4 4 1_300).identity

login-authenticate_access_example :
    authenticate_access service (at 1_599) (issued_at 1 1 1_000).access_token one_session
    ≡ ok (issued_at 1 1 1_000).identity
unfolding len
login-authenticate_access_example =
    login-authenticate_access service (drawn 1) (at 1_000) (at 1_599) request empty one_session
      (issued_at 1 1 1_000) toy_laws first_login (omega arith) (omega arith) (omega arith)
      (omega arith)

abbrev wrong : LoginRequest
wrong = record { organization_slug = codes "acme"; email = codes "a@b"; password = codes "guess" }

login-IsVerified_example :
    (IsVerified service wrong empty.directory
      × ((login service (drawn 1) (at 1_000) wrong empty).0 ≢ err invalid_credentials))
    ⊎ ((¬ IsVerified service wrong empty.directory)
        × (login service (drawn 1) (at 1_000) wrong empty ≡ (err invalid_credentials, empty)))
login-IsVerified_example = login-IsVerified service (drawn 1) (at 1_000) wrong empty

abbrev forged : HeaderMap
forged = record {
  cookie = some (codes "a=1; snm_refresh=x=y; snm_csrf=z");
  csrf = some (codes "w");
  authorization = none;
}

forged_cookie : cookie_value forged (codes "snm_refresh") ≡ some (codes "x=y")
unfolding cookie_value find_cookie split_once split trim drop_while drop_end_while is_whitespace
    text_eq
forged_cookie = refl

forged_csrf : csrf_valid service forged (codes "snm_csrf") ≡ false
unfolding cookie_value find_cookie split_once split trim drop_while drop_end_while is_whitespace
    text_eq csrf_valid opaque_token_matches
forged_csrf = refl
