-- ===== src/ServiceAccounts/Shut.antt =====
-- No call lets a disabled service account in again.

use seven_network_manager.Base.Text.{Text}
use seven_network_manager.Base.Result.{ok}
use seven_network_manager.Base.{
  ==_iff, Bool-cases, List, Option, [], any, arith, false, inl, inr, refl, subst, sym, true, ℕ, ◌∙◌,
  ◌≡◌, ◌≢◌,
}
use seven_network_manager.Accounts.{Collation, Directory}
use seven_network_manager.Token.{TokenCrypto}
use seven_network_manager.Sessions.Tables.{update_rows}
use seven_network_manager.Sessions.Rows.{any-update_rows}
use seven_network_manager.ServiceAccounts.Store.{
  IssuedServiceAccountCredential, Networks, NewServiceAccountCredential, ServiceAccountSummary,
  ServicePrincipal, ServiceTables, accepts_credentials, disable, disable_account, has_account_id,
  is_disablable, issue_credential,
}
use seven_network_manager.ServiceAccounts.Tokens.{authenticate_service}
use seven_network_manager.ServiceAccounts.Admission.{authenticate_service-IsEntitled}
use seven_network_manager.ServiceAccounts.Disabled.{
  AccountChange, Distinct, IsDisabled, Step, Step-AccountChange, any-none, any-update_rows-none,
  as_before, disable-Distinct, disabled_rows, enabled_as, one_disabled, one_more,
}

AccountChange-IsDisabled :
    (id : ℕ) (db db' : ServiceTables)
    → AccountChange db.accounts db'.accounts
    → IsDisabled id db
    → IsDisabled id db'
AccountChange-IsDisabled id db db' (as_before e) h = (rw e h.0, rw e h.1)
AccountChange-IsDisabled id db db' (one_more a c e) h = (
  rw e (ground (arith, h.0)),
  rw e (elim (Bool-cases (has_account_id id a)) [
    | inr other ↦ ground (arith, h.1)
    | inl own ↦
        let taken =
          subst (λ (i : ℕ). any (has_account_id i) db.accounts ≡ false) ((==_iff a.id id).0 own)
            c in
        absurd (ground (arith, taken, h.0))
  ]),
)
AccountChange-IsDisabled id db db' (one_disabled p e) h = (
  rw (e, any-update_rows p (has_account_id id) disable db.accounts (λ r. refl)) h.0,
  rw e (any-update_rows-none p (enabled_as id) disable db.accounts (λ r k. ground arith) h.1),
)

AccountChange-Distinct :
    (rows rows' : List ServiceAccountSummary)
    → AccountChange rows rows'
    → Distinct rows
    → Distinct rows'
AccountChange-Distinct rows rows' (as_before e) d = subst Distinct (sym e) d
AccountChange-Distinct rows rows' (one_more a c e) d = subst Distinct (sym e) (c, d)
AccountChange-Distinct rows rows' (one_disabled p e) d =
    subst Distinct (sym e) (disable-Distinct p rows d)

module _ (x : TokenCrypto) (n : Networks) (collation : Collation) where
  pub data Reachable (d : Directory) : ServiceTables → Type 0 where
    start : Reachable d (record { directory = d; accounts = []; credentials = [] })
    then_step :
        (db : ServiceTables) {db' : ServiceTables}
        → Reachable d db
        → Step x n collation db db'
        → Reachable d db'

  pub data Steps : ServiceTables → ServiceTables → Type 0 where
    done : (db : ServiceTables) → Steps db db
    then_steps :
        (db db' db'' : ServiceTables) → Step x n collation db db' → Steps db' db'' → Steps db db''

  Reachable-Distinct : (d : Directory) {db : ServiceTables} → Reachable d db → Distinct db.accounts
  Reachable-Distinct d start = tt
  Reachable-Distinct d {db = db'} (then_step db r t) =
      AccountChange-Distinct db.accounts db'.accounts (Step-AccountChange x n collation db db' t)
        (Reachable-Distinct d r)

  Steps-IsDisabled :
      (id : ℕ) (db db' : ServiceTables) → Steps db db' → IsDisabled id db → IsDisabled id db'
  Steps-IsDisabled id db db' (done _) h = h
  Steps-IsDisabled id db db' (then_steps _ mid _ t more) h =
      Steps-IsDisabled id mid db' more
        (AccountChange-IsDisabled id db mid (Step-AccountChange x n collation db mid t) h)

  disable_account-IsDisabled :
      (now organization_id id : ℕ) (db db' : ServiceTables)
      → Distinct db.accounts
      → disable_account now organization_id id db ≡ (true, db')
      → IsDisabled id db'
  unfolding disable_account
  disable_account-IsDisabled now organization_id id db db' d h =
      elim (Bool-cases (any (is_disablable organization_id id) db.accounts)) [
        | inr e ↦ absurd (ground arith)
        | inl e ↦
            let made : update_rows (is_disablable organization_id id) disable db.accounts
                ≡ db'.accounts =
              ground arith in
            (there made e, rw (sym made) (disabled_rows organization_id id db.accounts d e))
      ]
    where
      there :
          update_rows (is_disablable organization_id id) disable db.accounts ≡ db'.accounts
          → any (is_disablable organization_id id) db.accounts ≡ true
          → any (has_account_id id) db'.accounts ≡ true
      there made e = elim (Bool-cases (any (has_account_id id) db.accounts)) [
        | inl q ↦
            rw
              (
                sym made,
                any-update_rows (is_disablable organization_id id) (has_account_id id) disable
                    db.accounts (λ r. refl),
              )
              q
        | inr q ↦ absurd (
            ground (
              arith,
              any-none (is_disablable organization_id id) (has_account_id id) db.accounts
                  (λ r k. ground arith) q,
            ))
      ]

  authenticate-IsDisabled :
      (id now : ℕ) (bytes : Option Text) (source_ip : Text) (db db' : ServiceTables)
      (p : ServicePrincipal)
      → IsDisabled id db
      → authenticate_service x n collation now bytes source_ip db ≡ (ok p, db')
      → p.service_account_id ≢ id
  authenticate-IsDisabled id now bytes source_ip db db' p h e own =
      let v = (authenticate_service-IsEntitled x n collation now bytes source_ip db db' p e).4 in
      let shut =
        subst (λ (i : ℕ). any (enabled_as i) db.accounts ≡ false) (sym (sym v.account_is ∙ own))
          h.1 in
      ground (arith, v.owned, shut)

  issue_credential-IsDisabled :
      (id credential_id organization_id : ℕ) (random : Text) (input : NewServiceAccountCredential)
      (db : ServiceTables) (r : IssuedServiceAccountCredential × ServiceTables)
      → IsDisabled id db
      → issue_credential x n credential_id random organization_id id input db ≢ ok r
  unfolding issue_credential
  issue_credential-IsDisabled id credential_id organization_id random input db r h e =
      let refused =
        any-none (accepts_credentials organization_id id) (enabled_as id) db.accounts
          (λ a k. ground arith) h.1 in
      ground arith

  -- Once a service account of a reachable table was disabled, no token authenticates as this account,
  -- whatever calls come between.
  pub disabled-authenticate_service :
      (d : Directory) (now later organization_id id : ℕ) (db db1 db2 db3 : ServiceTables)
      (bytes : Option Text) (source_ip : Text) (p : ServicePrincipal)
      → Reachable d db
      → disable_account now organization_id id db ≡ (true, db1)
      → Steps db1 db2
      → authenticate_service x n collation later bytes source_ip db2 ≡ (ok p, db3)
      → p.service_account_id ≢ id
  disabled-authenticate_service d now later organization_id id db db1 db2 db3 bytes source_ip p
        reached h between accepted =
      authenticate-IsDisabled id later bytes source_ip db2 db3 p
        (Steps-IsDisabled id db1 db2 between (
          disable_account-IsDisabled now organization_id id db db1 (Reachable-Distinct d reached)
            h))
        accepted

  -- Nor does the account get another credential.
  pub disabled-issue_credential :
      (d : Directory) (now organization_id id credential_id owner_organization : ℕ)
      (db db1 db2 : ServiceTables) (random : Text) (input : NewServiceAccountCredential)
      (r : IssuedServiceAccountCredential × ServiceTables)
      → Reachable d db
      → disable_account now organization_id id db ≡ (true, db1)
      → Steps db1 db2
      → issue_credential x n credential_id random owner_organization id input db2 ≢ ok r
  disabled-issue_credential d now organization_id id credential_id owner_organization db db1 db2
        random input r reached h between =
      issue_credential-IsDisabled id credential_id owner_organization random input db2 r (
        Steps-IsDisabled id db1 db2 between (
          disable_account-IsDisabled now organization_id id db db1 (Reachable-Distinct d reached)
            h))
