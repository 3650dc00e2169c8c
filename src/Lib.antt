-- ===== src/Lib.antt =====
-- Seven Network Manager: the core of its Rust program.
--
-- The program manages network devices of several organisations. What is modelled is the code that
-- decides, and the code that keeps state in PostgreSQL:
--
--   Base           helpers that all parts share: texts, byte lengths, results, dictionaries, ℤ
--   Domain         the rules of crates/domain/src: Change (change_control.rs: plans, approvals, the
--                  summary of a change), Lifecycle, Identifier and Device (inventory.rs), Trial
--                  (trial.rs), Monitoring (monitoring.rs)
--   Governance     crates/domain/src/governance.rs, and `sanitize_json` of
--                  crates/security/src/audit.rs
--   Network        targets and requests (crates/domain/src/lib.rs) and `NetworkPolicy` of
--                  crates/executor-core/src/lib.rs
--   Executor       `tcp_connect` of crates/executor-core/src/lib.rs
--   Rbac           crates/security/src/rbac.rs
--   Token          crates/security/src/token.rs: access tokens and opaque tokens
--   Passwords      crates/security/src/password.rs
--   Totp           crates/security/src/totp.rs: one-time passwords and recovery codes
--   Audit          crates/security/src/audit.rs: events and their seals
--   AuditStore     crates/audit-store/src/lib.rs: the chains of hashes in `audit_events`
--   Outbox         crates/platform-events/src/lib.rs: Table (the tables), Claim, Marks, Dispatch
--   Vault          crates/security/src/vault.rs: the ring of keys and envelope encryption
--   Credentials    crates/security-store/src/lib.rs: profiles and their encrypted secrets
--   Accounts       the tables of organisations, users and roles, as the queries of the next three
--                  parts read them
--   Sessions       apps/backend/src/auth.rs: Tables, Service, Bootstrap, Login and Refresh
--                  (`AuthService`), Cookies and Http (the handlers)
--   Authorization  apps/backend/src/authorization.rs: principals and site permissions
--   ServiceAccounts
--                  crates/identity-store/src/lib.rs: Inputs, Store and Tokens
--
-- The audit store seals its events by Audit, which sanitizes them by Governance; the credential
-- store encrypts by Vault; the executor asks Network; Sessions, Authorization and ServiceAccounts
-- issue and read tokens by Token. A function of the model has the name of its Rust function, in the
-- module of its file; where two would clash, a word is added (`authenticate_service`,
-- `login_handler`).
--
-- A method on a table is a function from the table to a result with the table it leaves: an error
-- rolls the transaction back, so the table comes back with a success only. A sequence of calls by
-- any number of workers is a sequence of such steps; a row that another transaction has locked is
-- passed over as the parameter of `claim` says. The constraints of migrations/ on which a method
-- relies are part of that method.
--
-- Texts are lists of code points and byte strings lists of bytes; `len` is the length in UTF-8.
-- UUIDs are numbers that are only compared. Unsigned integers are ℕ and signed ones ℤ, with
-- saturation written out where the code saturates and the limits tested where the code tests them.
-- No definition needs fuel: every loop runs along a list.
--
-- Parameters are what the code takes from other crates: AES-256-GCM, SHA-256, HMAC, Base64, the JSON
-- codec of the claims and of the audit events, the random bytes, the parser of an IP address, the
-- TCP connection, the printing of a UUID, Argon2, the collation and the network types of the
-- database, the ids that a call draws. The laws that a theorem needs of them are records
-- (`AuditLaws`, `TokenLaws`, `VaultLaws`), and the Tests of each part meet them by a toy codec. That a
-- stored audit event can be read back from its JSON is not such a law: serde_json refuses values that
-- are nested too deeply, so the theorem that needs it asks it of the rows of the chain.
--
-- Not modelled: the HTTP layer of apps/backend but for the session handlers, the reading of its
-- settings, the inventory store, the models of providers, discovery and addresses, the site runtime's
-- server, observability, the frontend and the scripts. Time-outs, the loss of a connection and the
-- isolation of concurrent transactions beyond the locks above are not modelled either; the database
-- and the program have one clock.
pub mod ServiceAccounts
pub mod Authorization
pub mod Sessions
pub mod Accounts
pub mod Passwords
pub mod Base
pub mod Domain
pub mod Network
pub mod Executor
pub mod Governance
pub mod Rbac
pub mod Token
pub mod Totp
pub mod Audit
pub mod AuditStore
pub mod Outbox
pub mod Vault
pub mod Credentials
