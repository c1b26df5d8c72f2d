-- ===== src/Quorum/Evaluate.antt =====
-- evaluate_witness_quorum, in the steps of its loops.
use proofos.Prelude.{
  ℕ, String, Bool, true, false, not, ◌&&◌, ◌||◌, Option, none, some, List, [], ◌∷◌, ◌++◌,
}
use proofos.Prelude.Tests.{◌==◌, nat_eq, ltb, leb, if◌then◌else◌}
use proofos.Prelude.Lists.{length, any}
use proofos.Prelude.Sets.{has}
use proofos.Prelude.Sort.{leb_text, sorted_by}
use proofos.Prelude.Int.{ℤ, pos, same_ℤ}
use proofos.Prelude.Assoc.{Dict, get, put, keys, values}
use proofos.Prelude.Results.{Result, ok, err, ◌>>=◌, ◌>>◌, raise_if}
use proofos.Integrity.{text, number, Hash}
use proofos.Signing.{SignatureLibrary}
use proofos.Witness.Observe.{WitnessRecord}
use proofos.Receipt.{WitnessReceipt, ReceiptError, ReceiptVerifier, verify_receipt}
use proofos.Quorum.Policy.{
  QuorumError, policy_digest_differs, no_verifier, wrong_verifier, wrong_verifier_key, not_allowed,
  key_error, receipt_refused, mixed_scopes, QuorumPolicy, witness_ids, public_key_for, digest,
}

pub record WitnessVote : Type 0 where
  pub receipt : WitnessReceipt
  pub record_ : WitnessRecord

abbrev pub voter : WitnessVote → String
voter v = (v.receipt).witness_id

-- Whether two votes have equal `scope`, and equal `commitment`.
abbrev pub same_scope : WitnessRecord → WitnessRecord → Bool
same_scope a b =
    a.operation_id == b.operation_id
    && a.execution_id == b.execution_id
    && nat_eq a.checkpoint_version b.checkpoint_version

abbrev pub same_commitment : WitnessRecord → WitnessRecord → Bool
same_commitment a b =
    same_scope a b
    && a.checkpoint_digest == b.checkpoint_digest
    && a.signer_id == b.signer_id
    && same_ℤ a.last_journal_sequence b.last_journal_sequence
    && a.last_journal_hash == b.last_journal_hash

-- The tuple `commitment` itself.
abbrev pub commitment : WitnessRecord → String × String × ℕ × String × String × ℤ × String
commitment r = (
  r.operation_id, r.execution_id, r.checkpoint_version, r.checkpoint_digest, r.signer_id,
  r.last_journal_sequence, r.last_journal_hash,
)

abbrev pub commitment_hash : Hash → WitnessVote → String
commitment_hash content_hash v = content_hash (
    ("operation_id", text (v.record_).operation_id)
    ∷ ("execution_id", text (v.record_).execution_id)
    ∷ ("checkpoint_version", number (pos (v.record_).checkpoint_version))
    ∷ ("checkpoint_digest", text (v.record_).checkpoint_digest)
    ∷ ("signer_id", text (v.record_).signer_id)
    ∷ ("last_journal_sequence", number (v.record_).last_journal_sequence)
    ∷ ("last_journal_hash", text (v.record_).last_journal_hash)
    ∷ [])

pub data QuorumState : Type 0 where
  quorum insufficient split_view : QuorumState

pub record QuorumResult : Type 0 where
  pub state : QuorumState
  pub policy_digest : String
  pub operation_id : String
  pub execution_id : String
  pub checkpoint_version : ℕ
  pub checkpoint_digest : String
  pub counted_witnesses : List String
  pub required : ℕ
  pub conflicting_commitment_hashes : List String

abbrev pub check_verifier :
    QuorumPolicy → String → Option ReceiptVerifier → Result QuorumError (Unit {0})
check_verifier p witness_id none = err (no_verifier witness_id)
check_verifier p witness_id (some v) = do
  raise_if (not (v.witness_id == witness_id)) (wrong_verifier witness_id)
  public_key_for witness_id p >>= λ k.
      raise_if (not (v.public_key_b64 == k)) (wrong_verifier_key witness_id)

-- The loop over the policy's witnesses.
unfoldable pub check_verifiers :
    QuorumPolicy → Dict ReceiptVerifier → List String → Result QuorumError (Unit {0})
unfolding get
check_verifiers p verifiers [] = ok tt
check_verifiers p verifiers (w ∷ ws) =
    check_verifier p w (get w verifiers) >> check_verifiers p verifiers ws

abbrev pub receipt_refusal : Result ReceiptError (Unit {0}) → Result QuorumError (Unit {0})
receipt_refusal (ok u) = ok u
receipt_refusal (err e) = err (receipt_refused e)

abbrev pub check_with :
    Hash
    → (String → SignatureLibrary)
    → WitnessVote
    → Option ReceiptVerifier
    → Result QuorumError (Unit {0})
check_with content_hash key_of vote none = err (key_error (voter vote))
check_with content_hash key_of vote (some v) =
    receipt_refusal (verify_receipt content_hash key_of v vote.receipt vote.record_)

-- The loop over the votes: who may vote, and the receipt.
unfoldable pub check_votes :
    Hash
    → (String → SignatureLibrary)
    → QuorumPolicy
    → Dict ReceiptVerifier
    → List WitnessVote
    → Result QuorumError (Unit {0})
unfolding get has verify_receipt
check_votes content_hash key_of p verifiers [] = ok tt
check_votes content_hash key_of p verifiers (vote ∷ vs) = do
  raise_if (not (has (voter vote) (witness_ids p))) (not_allowed (voter vote))
  check_with content_hash key_of vote (get (voter vote) verifiers)
  check_votes content_hash key_of p verifiers vs

unfoldable pub check_scopes : WitnessRecord → List WitnessVote → Result QuorumError (Unit {0})
check_scopes scope [] = ok tt
check_scopes scope (v ∷ vs) =
    raise_if (not (same_scope v.record_ scope)) mixed_scopes >> check_scopes scope vs

-- by_witness, duplicate_conflict and conflicting_hashes
pub record Votes : Type 0 where
  pub by_witness : Dict WitnessVote
  pub duplicate_conflict : Bool
  pub conflicting_hashes : List String

abbrev pub no_votes : Votes
no_votes = record { by_witness = []; duplicate_conflict = false; conflicting_hashes = [] }

-- set.add
unfoldable pub add : String → List String → List String
unfolding has
add x xs = if has x xs then xs else xs ++ x ∷ []

abbrev pub count_vote : Hash → WitnessVote → Option WitnessVote → Votes → Votes
count_vote content_hash vote none t = record t { by_witness = put (voter vote) vote t.by_witness }
count_vote content_hash vote (some prior) t =
    if same_commitment prior.record_ vote.record_ then t else record t {
      duplicate_conflict = true;
      conflicting_hashes =
          add (commitment_hash content_hash vote)
            (add (commitment_hash content_hash prior) t.conflicting_hashes);
    }

-- The loop that counts each witness once.
unfoldable pub tally : Hash → List WitnessVote → Votes → Votes
unfolding get put add
tally content_hash [] t = t
tally content_hash (v ∷ vs) t =
    tally content_hash vs (count_vote content_hash v (get (voter v) t.by_witness) t)

-- {vote.commitment for vote in votes}, each commitment by a record that has it
unfoldable pub commitments : List WitnessVote → List WitnessRecord
unfolding any
commitments [] = []
commitments (v ∷ vs) =
    let rest = commitments vs in
    if any (same_commitment v.record_) rest then rest else v.record_ ∷ rest

unfoldable pub add_hashes : Hash → List WitnessVote → List String → List String
unfolding add
add_hashes content_hash [] hashes = hashes
add_hashes content_hash (v ∷ vs) hashes =
    add_hashes content_hash vs (add (commitment_hash content_hash v) hashes)

abbrev pub first_digest : List WitnessVote → String
first_digest [] = ""
first_digest (v ∷ vs) = (v.record_).checkpoint_digest

abbrev pub no_quorum : Hash → QuorumPolicy → QuorumResult
no_quorum content_hash p = record {
  state = insufficient;
  policy_digest = digest content_hash p;
  operation_id = "";
  execution_id = "";
  checkpoint_version = 0;
  checkpoint_digest = "";
  counted_witnesses = [];
  required = p.threshold;
  conflicting_commitment_hashes = [];
}

abbrev pub split : Votes → Bool
split t = t.duplicate_conflict || ltb 1 (length (commitments (values t.by_witness)))

-- The result on votes of one scope.
unfoldable pub concluded : Hash → QuorumPolicy → WitnessRecord → Votes → QuorumResult
unfolding sorted_by commitments add_hashes
concluded content_hash p scope t =
    let counted = sorted_by leb_text (keys t.by_witness) in
    let more = ltb 1 (length (commitments (values t.by_witness))) in
    let hashes =
      if more
      then add_hashes content_hash (values t.by_witness) t.conflicting_hashes
      else t.conflicting_hashes in
    if split t
    then record {
      state = split_view;
      policy_digest = digest content_hash p;
      operation_id = scope.operation_id;
      execution_id = scope.execution_id;
      checkpoint_version = scope.checkpoint_version;
      checkpoint_digest = "";
      counted_witnesses = counted;
      required = p.threshold;
      conflicting_commitment_hashes = sorted_by leb_text hashes;
    }
    else record {
      state = if leb p.threshold (length t.by_witness) then quorum else insufficient;
      policy_digest = digest content_hash p;
      operation_id = scope.operation_id;
      execution_id = scope.execution_id;
      checkpoint_version = scope.checkpoint_version;
      checkpoint_digest = first_digest (values t.by_witness);
      counted_witnesses = counted;
      required = p.threshold;
      conflicting_commitment_hashes = [];
    }

abbrev pub conclude_quorum :
    Hash → QuorumPolicy → List WitnessVote → Result QuorumError QuorumResult
conclude_quorum content_hash p [] = ok (no_quorum content_hash p)
conclude_quorum content_hash p (v ∷ vs) =
    check_scopes v.record_ vs
    >> ok (concluded content_hash p v.record_ (tally content_hash (v ∷ vs) no_votes))

-- evaluate_witness_quorum
unfoldable pub evaluate_quorum :
    Hash
    → (String → SignatureLibrary)
    → List WitnessVote
    → Dict ReceiptVerifier
    → QuorumPolicy
    → String
    → Result QuorumError QuorumResult
unfolding digest check_verifiers check_votes check_scopes tally concluded
evaluate_quorum content_hash key_of votes verifiers p expected_policy_digest = do
  raise_if (not (expected_policy_digest == digest content_hash p)) policy_digest_differs
  check_verifiers p verifiers (witness_ids p)
  check_votes content_hash key_of p verifiers votes
  conclude_quorum content_hash p votes
