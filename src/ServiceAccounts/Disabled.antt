-- ===== src/ServiceAccounts/Disabled.antt =====
-- A disabled service account stays shut.

use seven_network_manager.Base.Text.{Text, trim}
use seven_network_manager.Base.Result.{Result, Result-cases, ok}
use seven_network_manager.Base.{
  ==_iff, Bool, Bool-cases, List, Option, [], any, arith, false, inl, inr, refl, subst, true, ℕ,
  ◌&&◌, ◌∷◌, ◌≡◌,
}
use seven_network_manager.Accounts.{Collation}
use seven_network_manager.Token.{TokenCrypto}
use seven_network_manager.Sessions.Tables.{update_rows}
use seven_network_manager.Sessions.Rows.{any-update_rows, updated}
use seven_network_manager.ServiceAccounts.Inputs.{IdentityStoreError}
use seven_network_manager.ServiceAccounts.Store.{
  IssuedServiceAccountCredential, Networks, NewServiceAccountCredential, ServiceAccountSummary,
  ServicePrincipal, ServiceTables, create_account, disable, disable_account, has_account_id,
  is_disablable, is_enabled, issue_credential, new_account, revoke_credential,
}
use seven_network_manager.ServiceAccounts.Tokens.{authenticate_service, bind_role, find_credential}

-- The ids are a primary key.
abbrev pub Distinct : List ServiceAccountSummary → Type 0
Distinct [] = Unit
Distinct (a ∷ rows) = (any (has_account_id a.id) rows ≡ false) × Distinct rows

abbrev pub enabled_as : ℕ → ServiceAccountSummary → Bool
enabled_as id a = has_account_id id a && is_enabled a.status

-- The account is there, and is disabled.
abbrev pub IsDisabled : ℕ → ServiceTables → Type 0
IsDisabled id db =
    (any (has_account_id id) db.accounts ≡ true) × (any (enabled_as id) db.accounts ≡ false)

pub any-none :
    {A : Type 0} (p q : A → Bool) (rows : List A)
    → ((r : A) → p r ≡ true → q r ≡ true)
    → any q rows ≡ false
    → any p rows ≡ false
any-none p q [] k h = refl
any-none p q (r ∷ rows) k h = ground (arith, k r, any-none p q rows k)

pub any-update_rows-none :
    {A : Type 0} (p q : A → Bool) (f : A → A) (rows : List A)
    → ((r : A) → q (f r) ≡ true → q r ≡ true)
    → any q rows ≡ false
    → any q (update_rows p f rows) ≡ false
unfolding update_rows
any-update_rows-none p q f [] k h = refl
any-update_rows-none p q f (r ∷ rows) k h = ground (arith, k r, any-update_rows-none p q f rows k)

pub disable-Distinct :
    (p : ServiceAccountSummary → Bool) (rows : List ServiceAccountSummary)
    → Distinct rows
    → Distinct (update_rows p disable rows)
unfolding update_rows
disable-Distinct p [] d = tt
disable-Distinct p (a ∷ rows) d = (
  rw (any-update_rows p (has_account_id (updated p disable a).id) disable rows (λ r. refl))
      (elim (Bool-cases (p a)) [ inl e ↦ rw e d.0 | inr e ↦ rw e d.0 ]),
  disable-Distinct p rows d.1,
)

pub disabled_rows :
    (organization_id id : ℕ) (rows : List ServiceAccountSummary)
    → Distinct rows
    → any (is_disablable organization_id id) rows ≡ true
    → any (enabled_as id) (update_rows (is_disablable organization_id id) disable rows) ≡ false
unfolding update_rows
disabled_rows organization_id id [] d h = cc
disabled_rows organization_id id (a ∷ rows) d h = elim (Bool-cases (has_account_id id a)) [
  | inr other ↦ ground (arith, disabled_rows organization_id id rows d.1)
  | inl own ↦
      let later =
        subst (λ (i : ℕ). any (has_account_id i) rows ≡ false) ((==_iff a.id id).0 own) d.0 in
      let unable =
        any-none (is_disablable organization_id id) (has_account_id id) rows (λ r e. ground arith)
          later in
      let shut = any-none (enabled_as id) (has_account_id id) rows (λ r e. ground arith) later in
      ground (
        arith,
        any-update_rows-none (is_disablable organization_id id) (enabled_as id) disable rows
            (λ r e. ground arith) shut,
      )
]

-- A call of one of the methods that change the tables.
pub data Step (x : TokenCrypto) (n : Networks) (collation : Collation) (db db' : ServiceTables)
    : Type 0 where
  created :
      (id organization_id : ℕ) (name : Text) (a : ServiceAccountSummary)
      → create_account id organization_id name db ≡ ok (a, db')
      → Step x n collation db db'
  disabled :
      (now organization_id id : ℕ) (done : Bool)
      → disable_account now organization_id id db ≡ (done, db')
      → Step x n collation db db'
  issued :
      (id : ℕ) (random : Text) (organization_id account_id : ℕ)
      (input : NewServiceAccountCredential) (c : IssuedServiceAccountCredential)
      → issue_credential x n id random organization_id account_id input db ≡ ok (c, db')
      → Step x n collation db db'
  revoked :
      (now organization_id account_id id : ℕ) (done : Bool)
      → revoke_credential now organization_id account_id id db ≡ (done, db')
      → Step x n collation db db'
  authenticated :
      (now : ℕ) (bytes : Option Text) (source_ip : Text)
      (r : Result IdentityStoreError ServicePrincipal)
      → authenticate_service x n collation now bytes source_ip db ≡ (r, db')
      → Step x n collation db db'
  bound :
      (organization_id account_id role_id : ℕ) (site_id : Option ℕ)
      → bind_role organization_id account_id role_id site_id db ≡ ok db'
      → Step x n collation db db'

-- What a call does to the accounts: nothing, a new one, or one disabled.
pub data AccountChange (rows rows' : List ServiceAccountSummary) : Type 0 where
  as_before : rows' ≡ rows → AccountChange rows rows'
  one_more :
      (a : ServiceAccountSummary)
      → any (has_account_id a.id) rows ≡ false
      → rows' ≡ a ∷ rows
      → AccountChange rows rows'
  one_disabled :
      (p : ServiceAccountSummary → Bool)
      → rows' ≡ update_rows p disable rows
      → AccountChange rows rows'

module _ (x : TokenCrypto) (n : Networks) (collation : Collation) (db db' : ServiceTables) where
  pub Step-AccountChange : Step x n collation db db' → AccountChange db.accounts db'.accounts
  unfolding create_account disable_account issue_credential revoke_credential authenticate_service
      bind_role
  Step-AccountChange (created id o name a e) =
      one_more (new_account id o (trim name)) (ground arith) (ground arith)
  Step-AccountChange (disabled now o id done e) =
      elim (Bool-cases (any (is_disablable o id) db.accounts)) [
        | inl h ↦ one_disabled (is_disablable o id) (ground arith)
        | inr h ↦ as_before (ground arith)
      ]
  Step-AccountChange (issued id r o i input c e) = as_before (ground arith)
  Step-AccountChange (revoked now o i id done e) = as_before (ground arith)
  Step-AccountChange (authenticated now b ip r e) =
      elim (Result-cases (find_credential x n collation now b ip db)) [
        | inl (c, h) ↦ as_before (ground arith)
        | inr (c, h) ↦ as_before (ground arith)
      ]
  Step-AccountChange (bound o i role site e) = as_before (ground arith)
