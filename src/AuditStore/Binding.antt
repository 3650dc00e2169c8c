-- ===== src/AuditStore/Binding.antt =====
-- What an accepted chain means: which tables the verification accepts, and that the last hash
-- fixes the payloads.

use seven_network_manager.Base.{
  Bool-cases, List, Option, [], ap, arith, false, inl, inr, length, none, refl, some, subst, sym,
  true, ℕ, ◌++◌, ◌+◌, ◌↔◌, ◌∙◌, ◌∷◌, ◌≡◌, ◌≢◌, ◌⊎◌,
}
use mathlib.Core.Option.{some-injective}
use seven_network_manager.Base.Text.{Text, len, text_eq, text_eq-eq, text_eq_refl}
use seven_network_manager.Base.Result.{ok}
use seven_network_manager.Audit.{AuditCodec, audit_domain, previous_bytes}
use seven_network_manager.AuditStore.{
  AuditRow, Link, chain_of, hash_event, valid, verify_organization_chain,
}
use seven_network_manager.AuditStore.Loop.{
  AreLinked, AreLinked-verify_links, verify_links-AreLinked,
}
use seven_network_manager.AuditStore.Chain.{end_hash}

prefix_cancel : (a b c d : Text) → length a ≡ length b → a ++ c ≡ b ++ d → (a ≡ b) × (c ≡ d)
prefix_cancel [] [] c d h e = (refl, e)
prefix_cancel [] (y ∷ b) c d h e = absurd (omega (arith, h))
prefix_cancel (x ∷ a) [] c d h e = absurd (omega (arith, h))
prefix_cancel (x ∷ a) (y ∷ b) c d h e =
    let (head, tail) = ∷-parts x y (a ++ c) (b ++ d) e in
    let (same, rest) = prefix_cancel a b c d (omega (arith, h)) tail in (cc, rest)
  where
    ∷-parts : (x y : ℕ) (s t : Text) → x ∷ s ≡ y ∷ t → (x ≡ y) × (s ≡ t)
    ∷-parts x y s t e = (cc, cc)

-- The payloads of a chain, the first one first.
abbrev pub payloads : List Link → List Text
payloads [] = []
payloads (l ∷ ls) = l.1.canonical_payload ∷ payloads ls

-- Both none, or both the hash of a row.
abbrev SameShape : Option Text → Option Text → Type 0
SameShape none none = Unit
SameShape (some a) (some b) = length a ≡ length b
SameShape _ _ = ⊥

module _ (x : AuditCodec) where
  -- Two texts that SHA-256 does not tell apart.
  pub record Collision : Type 0 where
    pub first : Text
    pub second : Text
    pub differ : first ≢ second
    pub same_hash : x.sha256 first ≡ x.sha256 second

  preimage : (a b : Text) → x.sha256 a ≡ x.sha256 b → Collision ⊎ (a ≡ b)
  preimage a b h = elim (Bool-cases (text_eq a b)) [
    | inl same ↦ inr (text_eq-eq a b same)
    | inr other ↦
        inl
          (record { first = a; second = b; differ = λ e. absurd (distinct e other); same_hash = h })
  ]
    where
      distinct : a ≡ b → text_eq a b ≡ false → ⊥
      distinct e other =
          let t : text_eq a b ≡ true = subst (λ c. text_eq a c ≡ true) e (text_eq_refl a) in cc

  previous_payload :
      (p q : Option Text) (b c : Text)
      → SameShape p q
      → previous_bytes p ++ b ≡ previous_bytes q ++ c
      → (p ≡ q) × (b ≡ c)
  previous_payload none none b c h e = (refl, e)
  previous_payload none (some q) b c h e = absurd h
  previous_payload (some p) none b c h e = absurd h
  previous_payload (some p) (some q) b c h e =
      let (same, rest) = prefix_cancel p q b c h e in (ap some same, rest)

  hash_event-eq :
      (p q : Option Text) (b c : Text)
      → SameShape p q
      → hash_event x b p ≡ hash_event x c q
      → Collision ⊎ ((p ≡ q) × (b ≡ c))
  unfolding hash_event
  hash_event-eq p q b c h e = elim (preimage _ _ e) [
    | inl found ↦ inl found
    | inr same ↦
        inr (previous_payload p q b c h (prefix_cancel audit_domain audit_domain _ _ refl same).1)
  ]

  linked_payloads :
      (p q : Option Text) (n : ℕ) (ls ms : List Link)
      → SameShape p q
      → AreLinked x p n ls
      → AreLinked x q n ms
      → length ls ≡ length ms
      → end_hash p ls ≡ end_hash q ms
      → Collision ⊎ ((p ≡ q) × (payloads ls ≡ payloads ms))
  linked_payloads p q n [] [] s h k len e = inr (e, refl)
  linked_payloads p q n [] (m ∷ ms) s h k len e = absurd (omega (arith, len))
  linked_payloads p q n (l ∷ ls) [] s h k len e = absurd (omega (arith, len))
  linked_payloads p q n (l ∷ ls) (m ∷ ms) s h k len e =
      elim (linked_payloads (some l.1.event_hash) (some m.1.event_hash) (n + 1) ls ms
        (h.0.hash_sized ∙ sym k.0.hash_sized) h.1 k.1 (omega (arith, len)) e) [
          | inl found ↦ inl found
          | inr (same, rest) ↦ join rest (
              hash_event-eq p q l.1.canonical_payload m.1.canonical_payload s
                (sym h.0.hashed ∙ some-injective _ _ same ∙ k.0.hashed))
        ]
    where
      join :
          payloads ls ≡ payloads ms
          → Collision ⊎ ((p ≡ q) × (l.1.canonical_payload ≡ m.1.canonical_payload))
          → Collision ⊎ ((p ≡ q) × (payloads (l ∷ ls) ≡ payloads (m ∷ ms)))
      join rest (inl found) = inl found
      join rest (inr (prev, payload)) = inr (prev, cc)

  -- The verification accepts an organisation's chain exactly if its rows are linked: numbered from
  -- 1 on without a gap, each with the hash of the one before, its own hash and a payload that
  -- decodes to an event with that hash. It reports their number.
  pub verify_organization_chain_iff :
      (org : ℕ) (rows : List AuditRow) (total : ℕ)
      → (verify_organization_chain x org rows ≡ ok (valid total))
        ↔ (AreLinked x none 1 (chain_of org rows) × (total ≡ length (chain_of org rows)))
  unfolding verify_organization_chain
  verify_organization_chain_iff org rows total = (
    λ e.
        (let (linked, sum) = AreLinked-verify_links x none 1 0 (chain_of org rows) e in
          (linked, omega (arith, sum))),
    λ (linked, sum).
        verify_links-AreLinked x none 1 0 (chain_of org rows) linked
        ∙ ap (λ k. ok (valid k)) (omega (arith, sum)),
  )

  -- Of two tables in which an organisation's chain verifies with as many events and the same last
  -- hash, that chain has the same payloads in both, in the same order, or SHA-256 has a collision.
  pub last_hash_binds :
      (org total : ℕ) (rows rows' : List AuditRow)
      → verify_organization_chain x org rows ≡ ok (valid total)
      → verify_organization_chain x org rows' ≡ ok (valid total)
      → end_hash none (chain_of org rows) ≡ end_hash none (chain_of org rows')
      → Collision ⊎ (payloads (chain_of org rows) ≡ payloads (chain_of org rows'))
  last_hash_binds org total rows rows' h k e =
      let (ls, n) = (verify_organization_chain_iff org rows total).0 h in
      let (ms, m) = (verify_organization_chain_iff org rows' total).0 k in
      elim (linked_payloads none none 1 (chain_of org rows) (chain_of org rows') tt ls ms
        (sym n ∙ m) e) [ inl found ↦ inl found | inr (_, same) ↦ inr same ]
