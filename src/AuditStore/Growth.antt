-- ===== src/AuditStore/Growth.antt =====
-- What an accepted append adds to the chain of its organisation.

use seven_network_manager.Base.{
  ==_iff, All, Bool, Bool-cases, List, [], ap, arith, false, if◌then◌else◌, inl, inr, length,
  length-append, ltb, none, refl, some, subst, sym, ℕ, ◌++◌, ◌+◌, ◌==◌, ◌∙◌, ◌∷◌, ◌≡◌,
}
use seven_network_manager.Base.Text.{Text}
use seven_network_manager.Base.Result.{ok}
use seven_network_manager.Audit.{AuditCodec, AuditEventDraft, audit_domain, previous_bytes}
use seven_network_manager.Audit.Seals.{
  AuditLaws, read_back, seal-eq-ok, seal-verify, verify-read_back,
}
use seven_network_manager.AuditStore.{
  AuditRow, Link, chain_links, chain_of, hash_event, insert_link, next_chain_position,
  optional_fixed, sort_links,
}
use seven_network_manager.AuditStore.Loop.{AreLinked, IsLinked}
use seven_network_manager.AuditStore.Chain.{
  Appended, IsChain, end_hash, insert_last, linked_below, position_lem, snoc_linked,
}
use mathlib.Core.Option.{some-injective}

-- The payload of the row is read back as the event that was written.
abbrev pub IsReadable : AuditCodec → Link → Type 0
IsReadable x l = x.from_slice l.1.canonical_payload ≡ some (read_back l.1.event)

IsReadable-insert :
    (x : AuditCodec) (l : Link) (ls : List Link)
    → All (IsReadable x) (insert_link l ls)
    → IsReadable x l × All (IsReadable x) ls
unfolding insert_link
IsReadable-insert x l [] h = h
IsReadable-insert x l (k ∷ ks) h = elim (Bool-cases (ltb l.0 k.0)) [
  | inl e ↦ subst (λ b. All (IsReadable x) (if b then l ∷ k ∷ ks else k ∷ insert_link l ks)) e h
  | inr e ↦
      (let kept =
          subst (λ b. All (IsReadable x) (if b then l ∷ k ∷ ks else k ∷ insert_link l ks)) e h in
        let (own, rest) = IsReadable-insert x l ks kept.1 in (own, (kept.0, rest)))
]

module _ (x : AuditCodec) (laws : AuditLaws x) (is_ip : Text → Bool) where
  module _ {id : ℕ} {d : AuditEventDraft} {rows rows' : List AuditRow}
      (a : Appended x is_ip id d rows rows') where
    abbrev pub new_row : AuditRow
    new_row = record {
      id = id;
      organization_id = a.sealed.event.organization_id;
      event = a.sealed.event;
      chain_sequence = some a.sequence;
      canonical_payload = a.payload;
      previous_hash = a.sealed.previous_hash;
      event_hash = a.sealed.event_hash;
    }

    same_organization : a.sealed.event.organization_id ≡ d.organization_id
    same_organization =
        ap (λ (e : AuditEventDraft). e.organization_id)
          (seal-verify x d a.previous a.sealed a.made).2

    sealed_hash : a.sealed.event_hash ≡ hash_event x a.payload a.previous
    unfolding hash_event
    sealed_hash =
        let (_, _, (payload, made, hashed)) = seal-eq-ok x d a.previous a.sealed a.made in
        let same : payload ≡ a.payload = some-injective _ _ (sym made ∙ a.serialized) in
        hashed ∙ ap (λ b. x.sha256 (audit_domain ++ (previous_bytes a.previous ++ b))) same

    new-IsLinked :
        optional_fixed a.previous ≡ ok a.previous
        → IsReadable x (a.sequence, new_row)
        → IsLinked x a.previous a.sequence (a.sequence, new_row)
    new-IsLinked sized readable =
        let (_, named, _) = seal-eq-ok x d a.previous a.sealed a.made in
        record {
          in_sequence = refl;
          names_previous = named;
          previous_sized = sized;
          hash_sized =
              subst (λ h. length h ≡ 32) (sym sealed_hash) (unfold hash_event in laws.hash_size _);
          hashed = sealed_hash;
          decoded = read_back a.sealed.event;
          decodes = readable;
          verified = verify-read_back x laws d a.previous a.sealed a.made;
        }

    chain_of_new :
        chain_of d.organization_id (new_row ∷ rows)
        ≡ insert_link (a.sequence, new_row) (chain_of d.organization_id rows)
    unfolding chain_of chain_links sort_links
    chain_of_new = rw ((==_iff _ _).1 same_organization) refl

    chain_of_other :
        (org : ℕ)
        → (org == d.organization_id) ≡ false
        → chain_of org (new_row ∷ rows) ≡ chain_of org rows
    unfolding chain_of chain_links sort_links
    chain_of_other org h = ground (arith, same_organization)

    -- The new row closes its organisation's chain.
    chain_grown :
        IsChain x d.organization_id rows
        → IsReadable x (a.sequence, new_row)
        → (chain_of d.organization_id (new_row ∷ rows)
            ≡ chain_of d.organization_id rows ++ (a.sequence, new_row) ∷ [])
          × IsLinked x
              (end_hash none (chain_of d.organization_id rows))
              (1 + length (chain_of d.organization_id rows))
              (a.sequence, new_row)
    unfolding next_chain_position
    chain_grown h readable =
        let chain = chain_of d.organization_id rows in
        let (number, named, sized) = position_lem x chain h a.placed in
        (
          chain_of_new
              ∙ insert_last (a.sequence, new_row) chain
                  (linked_below x none 1 a.sequence chain h (omega arith)),
          subst (λ k. IsLinked x (end_hash none chain) k (a.sequence, new_row)) number
              (subst (λ p. IsLinked x p a.sequence (a.sequence, new_row)) named
                (new-IsLinked sized readable)),
        )

    pub own-IsReadable :
        All (IsReadable x) (chain_of d.organization_id (new_row ∷ rows))
        → IsReadable x (a.sequence, new_row) × All (IsReadable x) (chain_of d.organization_id rows)
    own-IsReadable h = IsReadable-insert x _ _ (subst (All (IsReadable x)) chain_of_new h)

    -- The rows that were readable before.
    pub old-IsReadable :
        (org : ℕ)
        → All (IsReadable x) (chain_of org (new_row ∷ rows))
        → All (IsReadable x) (chain_of org rows)
    old-IsReadable org h = elim (Bool-cases (org == d.organization_id)) [
      | inl e ↦
          subst (λ o. All (IsReadable x) (chain_of o rows)) (sym ((==_iff _ _).0 e))
            (own-IsReadable (
              subst (λ o. All (IsReadable x) (chain_of o (new_row ∷ rows))) ((==_iff _ _).0 e) h)).1
      | inr e ↦ subst (All (IsReadable x)) (chain_of_other org e) h
    ]

    pub new-IsChain :
        (org : ℕ)
        → IsChain x org rows
        → All (IsReadable x) (chain_of org (new_row ∷ rows))
        → IsChain x org (new_row ∷ rows)
    new-IsChain org h readable = elim (Bool-cases (org == d.organization_id)) [
      | inl e ↦
          subst (λ o. IsChain x o (new_row ∷ rows)) (sym ((==_iff _ _).0 e))
            (let own = subst (λ o. IsChain x o rows) ((==_iff _ _).0 e) h in
              let all_own =
                subst (λ o. All (IsReadable x) (chain_of o (new_row ∷ rows))) ((==_iff _ _).0 e)
                  readable in
              let (shape, linked) = chain_grown own (own-IsReadable all_own).0 in
              subst (AreLinked x none 1) (sym shape) (
                snoc_linked x none 1 (chain_of d.organization_id rows) (a.sequence, new_row) own
                  linked))
      | inr e ↦ subst (AreLinked x none 1) (sym (chain_of_other org e)) h
    ]

    pub new_length :
        IsChain x d.organization_id rows
        → IsReadable x (a.sequence, new_row)
        → length (chain_of d.organization_id (new_row ∷ rows))
          ≡ length (chain_of d.organization_id rows) + 1
    new_length h readable =
        let (shape, _) = chain_grown h readable in
        ap length shape
        ∙ length-append (chain_of d.organization_id rows) ((a.sequence, new_row) ∷ [])
