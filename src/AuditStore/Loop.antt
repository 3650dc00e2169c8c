-- ===== src/AuditStore/Loop.antt =====
-- What the verification loop accepts.

use seven_network_manager.Base.{
  List, Option, Option-cases, [], ap, arith, inl, inr, length, none, refl, some, subst, sym, true,
  ℕ, ◌+◌, ◌∙◌, ◌∷◌, ◌≡◌,
}
use seven_network_manager.Base.Text.{Text, text_eq, text_eq-eq, text_eq_refl}
use seven_network_manager.Base.Result.{Result-cases, err, ok}
use seven_network_manager.Audit.{AuditCodec, AuditEventDraft, verify}
use seven_network_manager.AuditStore.{
  AuditRow, AuditStoreError, BrokenReason, Link, check_hashes, check_link, fixed, hash_event,
  optional_fixed, optional_text_eq, valid, verify_links,
}

module _ (x : AuditCodec) where
  -- A row that stands at position `n` of a chain, behind a row with hash `previous`.
  pub record IsLinked (previous : Option Text) (n : ℕ) (l : Link) : Type 0 where
    pub in_sequence : l.0 ≡ n
    pub names_previous : l.1.previous_hash ≡ previous
    pub previous_sized : optional_fixed previous ≡ ok previous
    pub hash_sized : length l.1.event_hash ≡ 32
    pub hashed : l.1.event_hash ≡ hash_event x l.1.canonical_payload previous
    pub decoded : AuditEventDraft
    pub decodes : x.from_slice l.1.canonical_payload ≡ some decoded
    pub verified :
        verify x (record { event = decoded; previous_hash = previous; event_hash = l.1.event_hash })
        ≡ ok true

  abbrev pub AreLinked : Option Text → ℕ → List Link → Type 0
  AreLinked previous n [] = Unit
  AreLinked previous n (l ∷ ls) = IsLinked previous n l × AreLinked (some l.1.event_hash) (n + 1) ls

  optional_text_eq-eq : (a b : Option Text) → optional_text_eq a b ≡ true → a ≡ b
  optional_text_eq-eq none none h = refl
  optional_text_eq-eq none (some b) h = cc
  optional_text_eq-eq (some a) none h = cc
  optional_text_eq-eq (some a) (some b) h = ap some (text_eq-eq a b h)

  optional_text_eq_refl : (a : Option Text) → optional_text_eq a a ≡ true
  optional_text_eq_refl none = refl
  optional_text_eq_refl (some a) = text_eq_refl a

  check_link-IsLinked :
      (previous : Option Text) (n : ℕ) (l : Link)
      → IsLinked previous n l
      → check_link x previous n l ≡ ok (none, l.1.event_hash)
  unfolding check_link check_hashes
  check_link-IsLinked previous n (k, r) v =
      rw (v.in_sequence, v.names_previous, v.previous_sized)
        (ground (
          arith,
          v.hash_sized,
          v.hashed,
          v.decodes,
          v.verified,
          optional_text_eq_refl previous,
          text_eq_refl r.event_hash,
        ))

  optional_fixed-eq-ok :
      (a b : Option Text) → optional_fixed a ≡ ok b → (a ≡ b) × (optional_fixed b ≡ ok b)
  optional_fixed-eq-ok none b h = ground arith
  optional_fixed-eq-ok (some a) b h = ground arith

  fixed-eq-ok : (a b : Text) → fixed a ≡ ok b → (a ≡ b) × (length b ≡ 32)
  fixed-eq-ok a b h = ground arith

  check_hashes-eq-ok :
      (previous p : Option Text) (h : Text) (r : AuditRow) {found : Text}
      → check_hashes x previous r p h ≡ ok (none, found)
      → (optional_text_eq p previous ≡ true)
        × (text_eq (hash_event x r.canonical_payload p) h ≡ true)
        × ((event : AuditEventDraft) × (x.from_slice r.canonical_payload ≡ some event)
            × (verify x (record { event = event; previous_hash = p; event_hash = h }) ≡ ok true))
        × (found ≡ h)
  unfolding check_hashes
  check_hashes-eq-ok previous p h r e = elim (Option-cases (x.from_slice r.canonical_payload)) [
    | inl missing ↦ absurd (ground arith)
    | inr (event, d) ↦ (ground arith, ground arith, (event, d, ground arith), ground arith)
  ]

  link_parts :
      (previous : Option Text) (n k : ℕ) (r : AuditRow) {found : Text}
      → check_link x previous n (k, r) ≡ ok (none, found)
      → (k ≡ n)
        × (optional_fixed r.previous_hash ≡ ok r.previous_hash)
        × (length r.event_hash ≡ 32)
        × (check_hashes x previous r r.previous_hash r.event_hash ≡ ok (none, found))
  unfolding check_link
  link_parts previous n k r e = (ground arith, ground arith, ground arith, ground arith)

  IsLinked-check :
      (previous : Option Text) (n : ℕ) (l : Link) {found : Text}
      → check_link x previous n l ≡ ok (none, found)
      → IsLinked previous n l × (found ≡ l.1.event_hash)
  IsLinked-check previous n (k, r) e =
      let (at, sized, full, compared) = link_parts previous n k r e in
      let (prev, hash, (event, d, v), same) =
        check_hashes-eq-ok previous r.previous_hash r.event_hash r compared in
      let named : r.previous_hash ≡ previous = optional_text_eq-eq r.previous_hash previous prev in
      (
        record {
          in_sequence = at;
          names_previous = named;
          previous_sized = subst (λ p. optional_fixed p ≡ ok p) named sized;
          hash_sized = full;
          hashed = sym (text_eq-eq _ _ hash) ∙ ap (hash_event x r.canonical_payload) named;
          decoded = event;
          decodes = d;
          verified =
              subst
                (λ p.
                  verify x (record { event = event; previous_hash = p; event_hash = r.event_hash })
                  ≡ ok true)
                named v;
        },
        same,
      )

  -- The loop accepts a list of rows, and reports their number, exactly if they are linked.
  pub verify_links-AreLinked :
      (previous : Option Text) (n checked : ℕ) (ls : List Link)
      → AreLinked previous n ls
      → verify_links x previous n checked ls ≡ ok (valid (checked + length ls))
  unfolding verify_links
  verify_links-AreLinked previous n checked [] h = ap (λ k. ok (valid k)) (omega arith)
  verify_links-AreLinked previous n checked (l ∷ ls) h = rw (check_link-IsLinked previous n l h.0) (
      verify_links-AreLinked (some l.1.event_hash) (n + 1) (checked + 1) ls h.1
      ∙ ap (λ k. ok (valid k)) (omega arith))

  pub AreLinked-verify_links :
      (previous : Option Text) (n checked : ℕ) (ls : List Link) {total : ℕ}
      → verify_links x previous n checked ls ≡ ok (valid total)
      → AreLinked previous n ls × (total ≡ checked + length ls)
  unfolding verify_links
  AreLinked-verify_links previous n checked [] e = (tt, ground arith)
  AreLinked-verify_links previous n checked (l ∷ ls) {total} e =
      elim (Result-cases (check_link x previous n l)) [
        | inr (b, q) ↦ absurd (clash b q)
        | inl ((o, h), q) ↦ elim (Option-cases o) [
          | inr (reason, p) ↦ absurd (stopped reason h (rw p at q))
          | inl p ↦
              proceed
                (λ h e. AreLinked-verify_links (some h) (n + 1) (checked + 1) ls {total = total} e)
                h (rw p at q)
        ]
      ]
    where
      clash : (b : AuditStoreError) → check_link x previous n l ≡ err b → ⊥
      clash b q = let e' = (rw q at e) in cc

      stopped :
          (reason : BrokenReason) (h : Text) → check_link x previous n l ≡ ok (some reason, h) → ⊥
      stopped reason h q = let e' = (rw q at e) in ground arith

      proceed :
          ((h : Text)
            → verify_links x (some h) (n + 1) (checked + 1) ls ≡ ok (valid total)
            → AreLinked (some h) (n + 1) ls × (total ≡ checked + 1 + length ls))
          → (h : Text) → check_link x previous n l ≡ ok (none, h)
          → (IsLinked previous n l × AreLinked (some l.1.event_hash) (n + 1) ls)
            × (total ≡ checked + length (l ∷ ls))
      proceed ih h q =
          let (linked, same) = IsLinked-check previous n l q in
          let e' : verify_links x (some h) (n + 1) (checked + 1) ls ≡ ok (valid total) =
            rw q at e in
          let (more, sum) = ih h e' in
          ((linked, subst (λ k. AreLinked (some k) (n + 1) ls) same more), omega arith)
