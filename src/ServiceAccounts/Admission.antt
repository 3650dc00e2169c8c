-- ===== src/ServiceAccounts/Admission.antt =====
-- Whom `authenticate` of the service accounts lets in, and what it gives.

use seven_network_manager.Base.Text.{Text, codes, len, starts_with, text_eq, text_eq-eq}
use seven_network_manager.Base.Result.{Result-cases, ok}
use seven_network_manager.Base.{
  Bool-cases, List, Option, [], any, ap, arith, inl, inr, keep, length, none, refl, some, subst,
  sym, take, true, ℕ, ◌&&◌, ◌==◌, ◌||◌, ◌∙◌, ◌∷◌, ◌≡◌, ◌≤◌,
}
use seven_network_manager.Base.Members.{Has, Has-keep}
use seven_network_manager.Accounts.{Collation, codes_of_bindings, distinct_ordered, insert_ordered}
use seven_network_manager.Token.{TokenCrypto, opaque_token_matches}
use seven_network_manager.ServiceAccounts.Store.{
  CredentialRow, Networks, ServiceAccountSummary, ServicePrincipal, ServiceTables,
  visible_prefix_length,
}
use seven_network_manager.ServiceAccounts.Tokens.{
  authenticate_service, bound_to_service, find_credential, from_network, is_owner, is_usable, lasts,
  match_row, principal_of, token_of,
}
use seven_network_manager.ServiceAccounts.Permissions.{
  IsSorted, has_text, has_text-intersect_permissions, intersect_permissions-IsSorted,
}

has_text-insert_ordered :
    (c : Collation) (t u : Text) (us : List Text)
    → has_text t (insert_ordered c u us) ≡ (text_eq t u || has_text t us)
unfolding insert_ordered
has_text-insert_ordered c t u [] = refl
has_text-insert_ordered c t u (v ∷ us) = elim (Bool-cases (text_eq u v)) [
  | inl e ↦ rw e (
      subst
        (λ (w : Text).
          (text_eq t v || has_text t us) ≡ (text_eq t w || (text_eq t v || has_text t us)))
        (sym (text_eq-eq u v e)) (ground arith))
  | inr e ↦ rw e (ground (arith, has_text-insert_ordered c t u us))
]

pub has_text-distinct_ordered :
    (c : Collation) (t : Text) (ts : List Text) → has_text t (distinct_ordered c ts) ≡ has_text t ts
unfolding distinct_ordered
has_text-distinct_ordered c t [] = refl
has_text-distinct_ordered c t (u ∷ us) =
    has_text-insert_ordered c t u (distinct_ordered c us)
    ∙ ap (λ b. text_eq t u || b) (has_text-distinct_ordered c t us)

module _ (x : TokenCrypto) where
  match_row-Has :
      (token : Text) (rows : List CredentialRow) (c : CredentialRow)
      → match_row x token rows ≡ ok c
      → Has c rows × (opaque_token_matches x token c.token_hash ≡ true)
  unfolding match_row
  match_row-Has token [] c h = cc
  match_row-Has token (r ∷ rows) c h = elim (Bool-cases (length r.token_hash == 32)) [
    | inr e ↦ absurd (ground arith)
    | inl e ↦ elim (Bool-cases (opaque_token_matches x token r.token_hash)) [
      | inl m ↦
          let same : r ≡ c = ground arith in
          (
            inl same,
            subst (λ (u : CredentialRow). opaque_token_matches x token u.token_hash ≡ true) same m,
          )
      | inr m ↦ let (k, t) = match_row-Has token rows c (ground arith) in (inr k, t)
    ]
  ]

usable_parts :
    (n : Networks) (now : ℕ) (source_ip prefix : Text) (accounts : List ServiceAccountSummary)
    (c : CredentialRow)
    → is_usable n now source_ip prefix accounts c ≡ true
    → (text_eq c.token_prefix prefix ≡ true)
      × (any (is_owner c) accounts ≡ true)
      × (c.revoked_at ≡ none)
      × (lasts now c.expires_at ≡ true)
      × (from_network n source_ip c.allowed_cidrs ≡ true)
usable_parts n now source_ip prefix accounts c h =
    (ground arith, ground arith, ground arith, ground arith, ground arith)

module _ (x : TokenCrypto) (n : Networks) (collation : Collation) where
  -- The credential that a token was admitted by.
  pub record IsEntitled (now : ℕ) (token source_ip : Text) (db : ServiceTables)
      (p : ServicePrincipal) : Type 0 where
    pub row : CredentialRow
    pub row_there : Has row db.credentials
    pub matches : opaque_token_matches x token row.token_hash ≡ true
    pub visible : text_eq row.token_prefix (take visible_prefix_length token) ≡ true
    pub owned : any (is_owner row) db.accounts ≡ true
    pub unrevoked : row.revoked_at ≡ none
    pub unexpired : lasts now row.expires_at ≡ true
    pub from_allowed : from_network n source_ip row.allowed_cidrs ≡ true
    pub credential_is : p.credential_id ≡ row.id
    pub account_is : p.service_account_id ≡ row.service_account_id
    pub permissions_are :
        (t : Text)
        → has_text t p.effective_permissions ≡ (
            has_text t row.scopes
            && has_text t (
                codes_of_bindings
                  (bound_to_service p.organization_id p.service_account_id)
                  db.directory
                  db.directory.role_bindings))
    pub permissions_sorted : IsSorted p.effective_permissions

  pub find_credential-Has :
      (now : ℕ) (bytes : Option Text) (source_ip : Text) (db : ServiceTables) (c : CredentialRow)
      → find_credential x n collation now bytes source_ip db ≡ ok c
      → (token : Text) × (bytes ≡ some token)
        × (starts_with token (codes "snm_sa_") ≡ true)
        × (len token ≤ 256)
        × Has c db.credentials
        × (opaque_token_matches x token c.token_hash ≡ true)
        × (is_usable n now source_ip (take visible_prefix_length token) db.accounts c ≡ true)
  unfolding find_credential token_of
  find_credential-Has now none source_ip db c h = cc
  find_credential-Has now (some token) source_ip db c h =
      let found =
        match_row-Has x token
          (keep (is_usable n now source_ip (take visible_prefix_length token) db.accounts)
            db.credentials)
          c (ground arith) in
      let (there, usable) = Has-keep _ db.credentials c found.0 in
      (token, refl, ground arith, ground arith, there, found.1, usable)

  -- A request with a service token is let in only by a token of at most 256 bytes that starts with
  -- `snm_sa_` and matches the hash of an unrevoked, unexpired credential of an active account, from an
  -- allowed network; it acts for this account with exactly the permissions that are among the
  -- credential's scopes and among those that the account's roles give, in order and without repetition.
  pub authenticate_service-IsEntitled :
      (now : ℕ) (bytes : Option Text) (source_ip : Text) (db db' : ServiceTables)
      (p : ServicePrincipal)
      → authenticate_service x n collation now bytes source_ip db ≡ (ok p, db')
      → (token : Text) × (bytes ≡ some token)
        × (starts_with token (codes "snm_sa_") ≡ true)
        × (len token ≤ 256)
        × IsEntitled now token source_ip db p
  unfolding authenticate_service
  authenticate_service-IsEntitled now bytes source_ip db db' p h =
      elim (Result-cases (find_credential x n collation now bytes source_ip db)) [
        | inr (e, k) ↦ absurd (ground arith)
        | inl (c, k) ↦
            let v = find_credential-Has now bytes source_ip db c k in
            let u =
              usable_parts n now source_ip (take visible_prefix_length v.0) db.accounts c v.6 in
            let same : principal_of x n collation db c ≡ p = ground arith in
            (
              v.0,
              v.1,
              v.2,
              v.3,
              subst (IsEntitled now v.0 source_ip db) same (record {
                row = c;
                row_there = v.4;
                matches = v.5;
                visible = u.0;
                owned = u.1;
                unrevoked = u.2;
                unexpired = u.3;
                from_allowed = u.4;
                credential_is = refl;
                account_is = refl;
                permissions_are = λ t.
                    has_text-intersect_permissions t c.scopes _
                    ∙ ap (λ b. has_text t c.scopes && b) (has_text-distinct_ordered collation t _);
                permissions_sorted = intersect_permissions-IsSorted c.scopes _;
              }),
            )
      ]
