-- ===== src/AuditorKeys/Tests.antt =====
-- Concrete runs: a chain of two transitions, and one that is cut off.
use proofos.Prelude.{ℕ, String, ◌≡◌, refl, ◌⊎◌, true, none, List, [], ◌∷◌}
use proofos.Prelude.Tests.{◌==◌, if◌then◌else◌}
use proofos.Prelude.Lists.{length}
use proofos.Prelude.Int.{pos}
use proofos.Prelude.Results.{Result, ok, err}
use proofos.Integrity.{Fields, Collision}
use proofos.Samples.{joined}
use proofos.Signing.{SignatureLibrary}
use proofos.Checkpoint.Tests.{toy_library}
use proofos.AuditorKeys.{
  KeyTransition, KeyPair, KeyTexts, TransitionError, wrong_count, same_key, key_transition_genesis,
  transition_dict, unsigned_transition, countersign, sign_transition, verify_transition_chain,
}
use proofos.AuditorKeys.Chain.{Succession, last_digest, verified_chain-Succession}
use proofos.AuditorKeys.Pinned.{head_pins_chain}

abbrev ones : String
ones = "1111111111111111111111111111111111111111111111111111111111111111"

abbrev twos : String
twos = "2222222222222222222222222222222222222222222222222222222222222222"

abbrev pair_of : String → KeyPair
pair_of k = record { library = toy_library; public_key = k }

abbrev first : KeyTransition
first =
    countersign (pair_of "k0") (pair_of "k1")
      (unsigned_transition "auditor" 1 "k0" "k1" key_transition_genesis (pos 3))

abbrev second : KeyTransition
second =
    countersign (pair_of "k1") (pair_of "k2")
      (unsigned_transition "auditor" 2 "k1" "k2" ones (pos 4))

-- A digest of 64 digits that tells the first transition from the others.
abbrev toy_digest : Fields → String
toy_digest f = if joined f == joined (transition_dict first) then ones else twos

abbrev toy_keys : String → SignatureLibrary
toy_keys k = toy_library

abbrev toy_texts : KeyTexts
toy_texts = record { decodes = λ k. true; canonical = λ k. true }

abbrev verified : List KeyTransition → ℕ → String → Result TransitionError String
verified ts n head = verify_transition_chain toy_digest toy_keys toy_texts "auditor" "k0" ts n head

signs :
    sign_transition (pos 3) "auditor" 1 (pair_of "k0") (pair_of "k1") key_transition_genesis none
    ≡ ok first
unfolding sign_transition
signs = refl

no_change :
    sign_transition (pos 3) "auditor" 1 (pair_of "k0") (pair_of "k0") key_transition_genesis none
    ≡ err same_key
unfolding sign_transition
no_change = refl

whole : verified (first ∷ second ∷ []) 2 twos ≡ ok "k2"
unfolding verify_transition_chain transition_dict length
whole = refl

cut_off : verified (first ∷ []) 2 twos ≡ err wrong_count
unfolding verify_transition_chain transition_dict length
cut_off = refl

verified_chain-Succession_example :
    Succession toy_digest toy_keys "auditor" 1 key_transition_genesis "k0"
      (first ∷ second ∷ [])
      "k2"
    × (length (first ∷ second ∷ []) ≡ 2)
    × (last_digest toy_digest key_transition_genesis (first ∷ second ∷ []) ≡ twos)
verified_chain-Succession_example =
    verified_chain-Succession toy_digest toy_keys toy_texts "auditor" "k0" (first ∷ second ∷ []) 2
      twos "k2" whole

head_pins_chain_example : (first ∷ second ∷ [] ≡ first ∷ second ∷ []) ⊎ Collision toy_digest
head_pins_chain_example =
    head_pins_chain toy_digest toy_keys toy_texts "auditor" "auditor" "k0" "k0"
      (first ∷ second ∷ []) (first ∷ second ∷ []) 2 twos "k2" "k2" whole whole
