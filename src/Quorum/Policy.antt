-- ===== src/Quorum/Policy.antt =====
-- WitnessQuorumPolicy, and the refusals of proofos/witness_quorum.py.
use proofos.Prelude.{
  ℕ, String, Bool, true, false, not, ◌||◌, Option, none, some, List, [], ◌∷◌, map,
}
use proofos.Prelude.Tests.{◌==◌, ltb, if◌then◌else◌}
use proofos.Prelude.Lists.{length}
use proofos.Prelude.Sets.{distinct}
use proofos.Prelude.Sort.{leb_text, sorted_by}
use proofos.Prelude.Int.{pos}
use proofos.Prelude.Text.{blank}
use proofos.Prelude.Assoc.{get}
use proofos.Prelude.Results.{Result, ok, err, ◌>>◌, raise_if}
use proofos.Integrity.{text, number, pair_list, Hash}
use proofos.Receipt.{ReceiptError}

pub data QuorumError : Type 0 where
  empty_policy_id no_witnesses empty_witness_id empty_public_key : QuorumError
  invalid_public_key : String → QuorumError
  duplicate_witnesses shared_public_key threshold_out_of_range : QuorumError
  policy_digest_differs : QuorumError
  no_verifier wrong_verifier wrong_verifier_key not_allowed key_error : String → QuorumError
  receipt_refused : ReceiptError → QuorumError
  mixed_scopes : QuorumError

pub record QuorumPolicy : Type 0 where
  pub policy_id : String
  pub witnesses : List (String × String)
  pub threshold : ℕ

-- policy.witness_ids, and the keys beside them
abbrev pub witness_ids : QuorumPolicy → List String
witness_ids p = map (λ (w : String × String). w.0) p.witnesses

abbrev pub public_keys : QuorumPolicy → List String
public_keys p = map (λ (w : String × String). w.1) p.witnesses

abbrev pub check_entry : (String → Bool) → String × String → Result QuorumError (Unit {0})
check_entry valid_key (witness_id, public_key) = do
  raise_if (blank witness_id) empty_witness_id
  raise_if (blank public_key) empty_public_key
  raise_if (not (valid_key public_key)) (invalid_public_key witness_id)

unfoldable pub check_entries :
    (String → Bool) → List (String × String) → Result QuorumError (Unit {0})
unfolding blank
check_entries valid_key [] = ok tt
check_entries valid_key (w ∷ ws) = check_entry valid_key w >> check_entries valid_key ws

abbrev pub no_entries : List (String × String) → Bool
no_entries [] = true
no_entries (w ∷ ws) = false

-- WitnessQuorumPolicy, with __post_init__
unfoldable pub new_policy : (String → Bool) → QuorumPolicy → Result QuorumError QuorumPolicy
unfolding check_entries blank
new_policy valid_key p = do
  raise_if (blank p.policy_id) empty_policy_id
  raise_if (no_entries p.witnesses) no_witnesses
  check_entries valid_key p.witnesses
  raise_if (not (distinct (witness_ids p))) duplicate_witnesses
  raise_if (not (distinct (public_keys p))) shared_public_key
  raise_if (ltb p.threshold 1 || ltb (length p.witnesses) p.threshold) threshold_out_of_range
  ok p

abbrev pub found_key : String → Option String → Result QuorumError String
found_key witness_id none = err (not_allowed witness_id)
found_key witness_id (some k) = ok k

-- public_key_for: the first entry of this name
abbrev pub public_key_for : String → QuorumPolicy → Result QuorumError String
public_key_for witness_id p = found_key witness_id (get witness_id p.witnesses)

-- Tuples of texts are ordered by their first component, then by the second.
abbrev pub leb_entry : String × String → String × String → Bool
leb_entry (a, k) (b, l) = if a == b then leb_text k l else leb_text a b

unfoldable pub digest : Hash → QuorumPolicy → String
unfolding sorted_by
digest content_hash p = content_hash (
    ("policy_id", text p.policy_id)
    ∷ ("witnesses", pair_list (sorted_by leb_entry p.witnesses))
    ∷ ("threshold", number (pos p.threshold))
    ∷ [])
