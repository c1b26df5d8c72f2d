-- ===== src/AuditorKeys/Pinned.antt =====
-- What the pinned head digest of a key chain fixes: the whole chain.
use proofos.Prelude.{ℕ, ◌+◌, String, ◌≡◌, refl, sym, ap, ◌∙◌, ◌⊎◌, inl, inr, List, [], ◌∷◌, arith}
use mathlib.Core.Path.{ap₂}
use proofos.Prelude.Tests.{◌==◌, if◌then◌else◌}
use proofos.Prelude.Lists.{length}
use proofos.Prelude.Int.{ℤ, pos, pos_part}
use proofos.Prelude.Results.{ok}
use proofos.Integrity.{Json, null, text, number, Fields, Hash, Collision, equal_or_Collision}
use proofos.Signing.{SignatureLibrary}
use proofos.AuditorKeys.{
  KeyTransition, transition_dict, transition_digest, KeyTexts, key_transition_genesis,
  verify_transition_chain,
}
use proofos.AuditorKeys.Chain.{Succession, last_digest, verified_chain-Succession}

unfoldable value_at : String → Fields → Json
value_at k [] = null
value_at k ((j, v) ∷ rest) = if k == j then v else value_at k rest

abbrev text_at : String → Fields → String
text_at k f = text_of (value_at k f)
  where
    text_of : Json → String
    text_of (text s) = s
    text_of _ = ""

abbrev number_at : String → Fields → ℤ
number_at k f = number_of (value_at k f)
  where
    number_of : Json → ℤ
    number_of (number n) = n
    number_of _ = pos 0

-- The transition that a digest's contents describe.
unfoldable transition_of : Fields → KeyTransition
unfolding value_at
transition_of f = record {
  version = text_at "version" f;
  auditor_id = text_at "auditor_id" f;
  generation = pos_part (number_at "generation" f);
  previous_public_key = text_at "previous_public_key" f;
  next_public_key = text_at "next_public_key" f;
  previous_transition_digest = text_at "previous_transition_digest" f;
  issued_at = number_at "issued_at" f;
  previous_key_signature = text_at "previous_key_signature" f;
  next_key_signature = text_at "next_key_signature" f;
}

transition_of-transition_dict : (t : KeyTransition) → transition_of (transition_dict t) ≡ t
unfolding transition_of transition_dict
transition_of-transition_dict t = refl

-- Two transitions with one digest are equal, or show a collision.
transition_or_Collision :
    (content_hash : Hash) (t u : KeyTransition)
    → transition_digest content_hash t ≡ transition_digest content_hash u
    → (t ≡ u) ⊎ Collision content_hash
unfolding transition_digest
transition_or_Collision content_hash t u h =
    elim (equal_or_Collision content_hash (transition_dict t) (transition_dict u) h) [
      | inl e ↦ inl (
          sym (transition_of-transition_dict t)
          ∙ ap transition_of e
          ∙ transition_of-transition_dict u)
      | inr c ↦ inr c
    ]

-- Two successions of one length that end in one digest are equal, or show a collision.
same_chain :
    (content_hash : Hash) (key_of : String → SignatureLibrary) (a b : String) (m n : ℕ)
    (d e k l : String) (ts us : List KeyTransition) (p q : String)
    → Succession content_hash key_of a m d k ts p
    → Succession content_hash key_of b n e l us q
    → length ts ≡ length us
    → last_digest content_hash d ts ≡ last_digest content_hash e us
    → ((ts ≡ us) × (d ≡ e)) ⊎ Collision content_hash
same_chain content_hash key_of a b m n d e k l [] [] p q s r len h = inl (refl, h)
same_chain content_hash key_of a b m n d e k l [] (u ∷ us) p q s r len h = absurd (omega arith)
same_chain content_hash key_of a b m n d e k l (t ∷ ts) [] p q s r len h = absurd (omega arith)
same_chain content_hash key_of a b m n d e k l (t ∷ ts) (u ∷ us) p q s r len h =
    elim (same_chain content_hash key_of a b (m + 1) (n + 1) (transition_digest content_hash t)
      (transition_digest content_hash u) t.next_public_key u.next_public_key ts us p q s.5 r.5
      (omega arith) h) [
        | inr c ↦ inr c
        | inl (same, digests) ↦ elim (transition_or_Collision content_hash t u digests) [
          | inr c ↦ inr c
          | inl e' ↦ inl (
            ap₂ ◌∷◌ e' same,
            sym s.2 ∙ (ap (λ (x : KeyTransition). x.previous_transition_digest) e' ∙ r.2),
          )
        ]
      ]

-- Two chains that verify against one generation and one head digest, for whatever auditors and
-- initial keys, are the same chain, or show two contents with one digest.
pub head_pins_chain :
    (content_hash : Hash) (key_of : String → SignatureLibrary) (keys : KeyTexts)
    (auditor_id other_id initial other_initial : String) (ts us : List KeyTransition) (n : ℕ)
    (head final other_final : String)
    → verify_transition_chain content_hash key_of keys auditor_id initial ts n head ≡ ok final
    → verify_transition_chain content_hash key_of keys other_id other_initial us n head
      ≡ ok other_final
    → (ts ≡ us) ⊎ Collision content_hash
head_pins_chain content_hash key_of keys auditor_id other_id initial other_initial ts us n head
      final other_final h k =
    let (s, len, d) =
      verified_chain-Succession content_hash key_of keys auditor_id initial ts n head final h in
    let (r, len', d') =
      verified_chain-Succession content_hash key_of keys other_id other_initial us n head
        other_final k in
    elim (same_chain content_hash key_of auditor_id other_id 1 1 key_transition_genesis
      key_transition_genesis initial other_initial ts us final other_final s r (len ∙ sym len')
      (d ∙ sym d')) [ inl (same, _) ↦ inl same | inr c ↦ inr c ]
