-- ===== src/AuditStore/Append.antt =====
-- The audit log as the program writes it: every chain verifies.

use seven_network_manager.Base.{
  All, Bool, List, [], ap, arith, length, none, refl, subst, sym, ℕ, ◌+◌, ◌∙◌, ◌∷◌, ◌≡◌,
}
use seven_network_manager.Base.Text.{Text}
use seven_network_manager.Base.Result.{ok}
use seven_network_manager.Audit.{AuditCodec, AuditEventDraft}
use seven_network_manager.Audit.Seals.{AuditLaws}
use seven_network_manager.AuditStore.{
  AuditRow, append_in_tx, chain_links, chain_of, sort_links, valid, verify_organization_chain,
}
use seven_network_manager.AuditStore.Loop.{AreLinked, verify_links-AreLinked}
use seven_network_manager.AuditStore.Chain.{IsChain, append-Appended}
use seven_network_manager.AuditStore.Growth.{
  IsReadable, new-IsChain, new_length, old-IsReadable, own-IsReadable,
}

module _ (x : AuditCodec) (laws : AuditLaws x) (is_ip : Text → Bool) where
  -- Where the chain of an organisation verifies, an accepted append for any organisation leaves a
  -- chain of it that verifies, as long as the payloads of that chain can be read back.
  pub append-IsChain :
      (org id : ℕ) (d : AuditEventDraft) (rows : List AuditRow) {i : ℕ} {rows' : List AuditRow}
      → IsChain x org rows
      → append_in_tx x is_ip id d rows ≡ ok (i, rows')
      → All (IsReadable x) (chain_of org rows')
      → IsChain x org rows'
  append-IsChain org id d rows {i} {rows'} h e readable =
      let (a, _) = append-Appended x is_ip id d rows rows' e in
      subst (IsChain x org) (sym a.inserted) (
        new-IsChain x laws is_ip a org h
          (subst (λ t. All (IsReadable x) (chain_of org t)) a.inserted readable))

  append-IsReadable :
      (org id : ℕ) (d : AuditEventDraft) (rows : List AuditRow) {i : ℕ} {rows' : List AuditRow}
      → append_in_tx x is_ip id d rows ≡ ok (i, rows')
      → All (IsReadable x) (chain_of org rows')
      → All (IsReadable x) (chain_of org rows)
  append-IsReadable org id d rows {i} {rows'} e readable =
      let (a, _) = append-Appended x is_ip id d rows rows' e in
      old-IsReadable x laws is_ip a org
        (subst (λ t. All (IsReadable x) (chain_of org t)) a.inserted readable)

  -- It adds one event to the chain of the draft's organisation.
  pub append-length :
      (id : ℕ) (d : AuditEventDraft) (rows : List AuditRow) {i : ℕ} {rows' : List AuditRow}
      → IsChain x d.organization_id rows
      → append_in_tx x is_ip id d rows ≡ ok (i, rows')
      → All (IsReadable x) (chain_of d.organization_id rows')
      → length (chain_of d.organization_id rows') ≡ length (chain_of d.organization_id rows) + 1
  append-length id d rows {i} {rows'} h e readable =
      let (a, _) = append-Appended x is_ip id d rows rows' e in
      rw a.inserted (
        new_length x laws is_ip a h
          (own-IsReadable x laws is_ip a
            (subst (λ t. All (IsReadable x) (chain_of d.organization_id t)) a.inserted readable)).0)

  -- The tables that the program can reach: it appends events to chains, and inserts rows that
  -- belong to none (`bootstrap_admin`).
  pub data AuditLog : List AuditRow → Type 0 where
    empty : AuditLog []
    appended :
        (id : ℕ) (d : AuditEventDraft) (rows : List AuditRow) {i : ℕ} {rows' : List AuditRow}
        → AuditLog rows
        → append_in_tx x is_ip id d rows ≡ ok (i, rows')
        → AuditLog rows'
    unchained :
        (r : AuditRow) {rows : List AuditRow}
        → AuditLog rows
        → r.chain_sequence ≡ none
        → AuditLog (r ∷ rows)

  chain_of_unchained :
      (org : ℕ) (r : AuditRow) (rows : List AuditRow)
      → r.chain_sequence ≡ none
      → chain_of org (r ∷ rows) ≡ chain_of org rows
  unfolding chain_of chain_links
  chain_of_unchained org r rows h = rw h refl

  log-IsChain :
      {rows : List AuditRow} (org : ℕ)
      → AuditLog rows
      → All (IsReadable x) (chain_of org rows)
      → IsChain x org rows
  log-IsChain org empty readable = unfold chain_of chain_links sort_links in tt
  log-IsChain org (appended id d rows l e) readable =
      append-IsChain org id d rows (log-IsChain org l (append-IsReadable org id d rows e readable))
        e readable
  log-IsChain org (unchained r {rows} l e) readable =
      subst (AreLinked x none 1) (sym (chain_of_unchained org r rows e))
        (log-IsChain org l (subst (All (IsReadable x)) (chain_of_unchained org r rows e) readable))

  -- Whatever sequence of appends, for whatever organisations, and of rows outside the chains has
  -- been written: the chain of an organisation verifies, and all its events are counted, if each of
  -- its payloads is read back from its JSON as the event that was written. A hash has 32 bytes, and
  -- a state that is none is written as one that is `null`.
  pub log_verifies :
      {rows : List AuditRow} (org : ℕ)
      → AuditLog rows
      → All (IsReadable x) (chain_of org rows)
      → verify_organization_chain x org rows ≡ ok (valid (length (chain_of org rows)))
  unfolding verify_organization_chain
  log_verifies {rows} org l readable =
      verify_links-AreLinked x none 1 0 (chain_of org rows) (log-IsChain org l readable)
      ∙ ap (λ k. ok (valid k)) (omega arith)
