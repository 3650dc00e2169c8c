-- ===== src/AuditStore/Chain.antt =====
-- Appending keeps every chain linked.

use seven_network_manager.Base.{
  All, Bool, List, Option, Option-cases, [], arith, inl, inr, length, none, refl, some, subst, suc,
  ℕ, ◌++◌, ◌+◌, ◌∙◌, ◌∷◌, ◌≡◌, ◌≤◌,
}
use seven_network_manager.Base.Text.{Text}
use seven_network_manager.Base.Result.{Result-cases, ok}
use seven_network_manager.Audit.{AuditCodec, AuditEventDraft, SealedAuditEvent, seal}
use seven_network_manager.AuditStore.{
  AuditRow, Link, append_in_tx, chain_of, insert_link, last_link, next_chain_position,
  optional_fixed, position_after, validate_draft,
}
use seven_network_manager.AuditStore.Loop.{AreLinked, IsLinked}

-- The hash that the row after these must name.
abbrev pub end_hash : Option Text → List Link → Option Text
end_hash previous [] = previous
end_hash previous (l ∷ ls) = end_hash (some l.1.event_hash) ls

pub insert_last :
    (l : Link) (ls : List Link) → All (λ k. k.0 ≤ l.0) ls → insert_link l ls ≡ ls ++ l ∷ []
unfolding insert_link
insert_last l [] h = refl
insert_last l (k ∷ ks) h = ground (arith, h.0, insert_last l ks h.1)

module _ (x : AuditCodec) where
  pub linked_below :
      (p : Option Text) (n m : ℕ) (ls : List Link)
      → AreLinked x p n ls
      → n + length ls ≤ suc m
      → All (λ k. k.0 ≤ m) ls
  linked_below p n m [] h b = tt
  linked_below p n m (l ∷ ls) h b = (
    omega (arith, h.0.in_sequence),
    linked_below (some l.1.event_hash) (n + 1) m ls h.1 (omega arith),
  )

  -- What the last row of a linked list says.
  last_linked :
      (p : Option Text) (n : ℕ) (l : Link) (ls : List Link)
      → AreLinked x p n (l ∷ ls)
      → (k : Link) × (last_link (l ∷ ls) ≡ some k)
        × (k.0 + 1 ≡ n + length (l ∷ ls))
        × (length k.1.event_hash ≡ 32)
        × (some k.1.event_hash ≡ end_hash p (l ∷ ls))
  last_linked p n l [] h = (l, refl, omega (arith, h.0.in_sequence), h.0.hash_sized, refl)
  last_linked p n l (m ∷ ls) h =
      let (k, found, at, sized, hash) = last_linked (some l.1.event_hash) (n + 1) m ls h.1 in
      (k, found, omega arith, sized, hash)

  pub snoc_linked :
      (p : Option Text) (n : ℕ) (ls : List Link) (l : Link)
      → AreLinked x p n ls
      → IsLinked x (end_hash p ls) (n + length ls) l
      → AreLinked x p n (ls ++ l ∷ [])
  snoc_linked p n [] l h v = (subst (λ k. IsLinked x p k l) (omega arith) v, tt)
  snoc_linked p n (m ∷ ls) l h v = (
    h.0,
    snoc_linked (some m.1.event_hash) (n + 1) ls l h.1
        (subst (λ k. IsLinked x (end_hash (some m.1.event_hash) ls) k l) (omega arith) v),
  )

  -- The organisation's rows form a chain from its first row on.
  abbrev pub IsChain : ℕ → List AuditRow → Type 0
  IsChain org rows = AreLinked x none 1 (chain_of org rows)

  pub position_lem :
      (ls : List Link) {n : ℕ} {p : Option Text}
      → AreLinked x none 1 ls
      → position_after (last_link ls) ≡ ok (n, p)
      → (n ≡ 1 + length ls) × (p ≡ end_hash none ls) × (optional_fixed p ≡ ok p)
  position_lem [] h e = (ground arith, ground arith, ground arith)
  position_lem (l ∷ ls) {n} {p} h e =
      let (k, found, at, sized, hash) = last_linked none 1 l ls h in
      let (number, named) = placed k n p sized (rw found at e) in
      (omega arith, named ∙ hash, rw named (ground (arith, sized)))
    where
      placed :
          (k : Link) (n : ℕ) (p : Option Text)
          → length k.1.event_hash ≡ 32
          → position_after (some k) ≡ ok (n, p)
          → (n ≡ k.0 + 1) × (p ≡ some k.1.event_hash)
      placed k n p sized e = (ground arith, ground arith)

module _ (x : AuditCodec) (is_ip : Text → Bool) where
  -- What an accepted append did.
  pub record Appended (id : ℕ) (d : AuditEventDraft) (rows rows' : List AuditRow) : Type 0 where
    pub sequence : ℕ
    pub previous : Option Text
    pub sealed : SealedAuditEvent
    pub payload : Text
    pub draft_tested : validate_draft is_ip d ≡ ok tt
    pub placed : next_chain_position d.organization_id rows ≡ ok (sequence, previous)
    pub made : seal x d previous ≡ ok sealed
    pub serialized : x.to_vec sealed.event ≡ some payload
    pub inserted :
        rows'
        ≡ record {
          id = id;
          organization_id = sealed.event.organization_id;
          event = sealed.event;
          chain_sequence = some sequence;
          canonical_payload = payload;
          previous_hash = sealed.previous_hash;
          event_hash = sealed.event_hash;
        }
          ∷ rows

  pub append-Appended :
      (id : ℕ) (d : AuditEventDraft) (rows rows' : List AuditRow) {i : ℕ}
      → append_in_tx x is_ip id d rows ≡ ok (i, rows')
      → Appended id d rows rows' × (i ≡ id)
  unfolding append_in_tx
  append-Appended id d rows rows' e =
      elim (Result-cases (next_chain_position d.organization_id rows)) [
        | inr (b, q) ↦ absurd (ground arith)
        | inl ((n, p), q) ↦ elim (Result-cases (seal x d p)) [
          | inr (b, m) ↦ absurd (ground arith)
          | inl (s, m) ↦ elim (Option-cases (x.to_vec s.event)) [
            | inl missing ↦ absurd (ground arith)
            | inr (payload, t) ↦ (
              record {
                sequence = n;
                previous = p;
                sealed = s;
                payload = payload;
                draft_tested = ground arith;
                placed = q;
                made = m;
                serialized = t;
                inserted = ground arith;
              },
              ground arith,
            )
          ]
        ]
      ]
