-- ===== src/Witness/Observe.antt =====
-- proofos/witness.py: the witness's records and operations. A message of `verify` is a constructor,
-- with its position. An empty `setdefault` entry shows in no method, and is not kept.
use proofos.Prelude.{
  ℕ, ◌+◌, String, Bool, true, false, not, ◌&&◌, Option, none, some, List, [], ◌∷◌, ◌++◌,
}
use proofos.Prelude.Tests.{◌==◌, nat_eq, ltb, if◌then◌else◌}
use proofos.Prelude.Int.{ℤ, pos, leb_ℤ}
use proofos.Prelude.Text.{blank}
use proofos.Prelude.Assoc.{Dict, get, put}
use proofos.Prelude.Results.{Result, ok, err, ◌>>=◌, ◌>>◌, raise_if}
use proofos.Integrity.{text, number, Fields, Hash}
use proofos.Checkpoint.{
  OperationCheckpoint, SignedCheckpoint, SignatureLibrary, CheckpointError, verify_checkpoint,
  Stamp, finite, not_finite, stamp_of,
}

abbrev pub witness_record_version : String
witness_record_version = "proofos.witness.v1"

abbrev pub witness_genesis : String
witness_genesis = "0000000000000000000000000000000000000000000000000000000000000000"

pub data WitnessError : Type 0 where
  refused : CheckpointError → WitnessError
  observed_not_finite observed_too_early damaged_tail signer_drift execution_changed : WitnessError
  rollback gap : ℕ → ℕ → WitnessError
  equivocation : ℕ → WitnessError

pub record WitnessRecord : Type 0 where
  pub version : String
  pub witness_id : String
  pub signer_id : String
  pub operation_id : String
  pub execution_id : String
  pub checkpoint_version : ℕ
  pub checkpoint_digest : String
  pub last_journal_sequence : ℤ
  pub last_journal_hash : String
  pub checkpoint_signature : String
  pub observed_at : ℤ
  pub previous_record_hash : String
  pub record_hash : String

unfoldable pub unsigned_fields : WitnessRecord → Fields
unsigned_fields r =
    ("version", text r.version)
    ∷ ("witness_id", text r.witness_id)
    ∷ ("signer_id", text r.signer_id)
    ∷ ("operation_id", text r.operation_id)
    ∷ ("execution_id", text r.execution_id)
    ∷ ("checkpoint_version", number (pos r.checkpoint_version))
    ∷ ("checkpoint_digest", text r.checkpoint_digest)
    ∷ ("last_journal_sequence", number r.last_journal_sequence)
    ∷ ("last_journal_hash", text r.last_journal_hash)
    ∷ ("checkpoint_signature", text r.checkpoint_signature)
    ∷ ("observed_at", number r.observed_at)
    ∷ ("previous_record_hash", text r.previous_record_hash)
    ∷ []

unfoldable pub compute_record_hash : Hash → WitnessRecord → String
unfolding unsigned_fields
compute_record_hash content_hash r = content_hash (unsigned_fields r)

unfoldable pub record_intact : Hash → WitnessRecord → Bool
unfolding compute_record_hash
record_intact content_hash r = r.record_hash == compute_record_hash content_hash r

pub record WitnessLedger : Type 0 where
  pub witness_id : String
  pub records : Dict (List WitnessRecord)

-- __post_init__: `none` is the ValueError for a blank id
unfoldable pub new_witness : String → Option WitnessLedger
unfolding blank
new_witness witness_id =
    if blank witness_id then none else some (record { witness_id = witness_id; records = [] })

-- tuple(self._records.get(operation_id, ()))
abbrev pub or_empty : Option (List WitnessRecord) → List WitnessRecord
or_empty none = []
or_empty (some rs) = rs

unfoldable pub history : String → WitnessLedger → List WitnessRecord
unfolding get
history operation_id w = or_empty (get operation_id w.records)

-- history[-1], if any
unfoldable pub latest_of : List WitnessRecord → Option WitnessRecord
latest_of [] = none
latest_of (r ∷ []) = some r
latest_of (r ∷ s ∷ rs) = latest_of (s ∷ rs)

-- What is done with an envelope: the latest record again, or a new one behind this hash.
pub data Admission : Type 0 where
  repeats : WitnessRecord → Admission
  follows : String → Admission

-- The checks against the latest record, in order.
unfoldable pub admit :
    Hash → SignedCheckpoint → Option WitnessRecord → Result WitnessError Admission
unfolding record_intact
admit content_hash s none =
    raise_if (not (nat_eq s.checkpoint_version 1)) (gap 1 s.checkpoint_version)
    >> ok (follows witness_genesis)
admit content_hash s (some latest) = do
  raise_if (not (record_intact content_hash latest)) damaged_tail
  raise_if (not (s.signer_id == latest.signer_id)) signer_drift
  raise_if (not (s.execution_id == latest.execution_id)) execution_changed
  raise_if (ltb s.checkpoint_version latest.checkpoint_version)
      (rollback s.checkpoint_version latest.checkpoint_version)
  if nat_eq s.checkpoint_version latest.checkpoint_version
      then (if s.checkpoint_digest == latest.checkpoint_digest
            && s.signature == latest.checkpoint_signature
          then ok (repeats latest)
          else err (equivocation s.checkpoint_version))
      else (if nat_eq s.checkpoint_version (latest.checkpoint_version + 1)
          then ok (follows latest.record_hash)
          else err (gap (latest.checkpoint_version + 1) s.checkpoint_version))

-- The new record, without its hash.
abbrev pub unsealed : String → SignedCheckpoint → ℤ → String → WitnessRecord
unsealed witness_id s stamp previous_hash = record {
  version = witness_record_version;
  witness_id = witness_id;
  signer_id = s.signer_id;
  operation_id = s.operation_id;
  execution_id = s.execution_id;
  checkpoint_version = s.checkpoint_version;
  checkpoint_digest = s.checkpoint_digest;
  last_journal_sequence = s.last_journal_sequence;
  last_journal_hash = s.last_journal_hash;
  checkpoint_signature = s.signature;
  observed_at = stamp;
  previous_record_hash = previous_hash;
  record_hash = "";
}

unfoldable pub new_record : Hash → String → SignedCheckpoint → ℤ → String → WitnessRecord
unfolding compute_record_hash
new_record content_hash witness_id s stamp previous_hash =
    let r = unsealed witness_id s stamp previous_hash in
    record r { record_hash = compute_record_hash content_hash r }

abbrev pub place :
    Hash → SignedCheckpoint → ℤ → WitnessLedger → Admission → WitnessRecord × WitnessLedger
place content_hash s stamp w (repeats latest) = (latest, w)
place content_hash s stamp w (follows previous_hash) =
    let r = new_record content_hash w.witness_id s stamp previous_hash in
    (r, record w { records = put s.operation_id (history s.operation_id w ++ r ∷ []) w.records })

abbrev pub check_stamp : SignedCheckpoint → Stamp → Result WitnessError ℤ
check_stamp s not_finite = err observed_not_finite
check_stamp s (finite t) = raise_if (not (leb_ℤ s.issued_at t)) observed_too_early >> ok t

-- An exception of the checkpoint verifier goes through.
abbrev pub lifted : Result CheckpointError (Unit {0}) → Result WitnessError (Unit {0})
lifted (ok u) = ok u
lifted (err e) = err (refused e)

unfoldable pub observe :
    SignatureLibrary
    → Hash
    → ℤ
    → SignedCheckpoint
    → OperationCheckpoint
    → Option Stamp
    → WitnessLedger
    → Result WitnessError (WitnessRecord × WitnessLedger)
unfolding verify_checkpoint stamp_of admit new_record put history latest_of
observe lib content_hash clock s c observed_at w =
    lifted (verify_checkpoint lib content_hash s c)
    >> (check_stamp s (stamp_of observed_at clock) >>= λ stamp.
        admit content_hash s (latest_of (history s.operation_id w)) >>= λ a.
        ok (place content_hash s stamp w a))

pub data WitnessProblem : Type 0 where
  altered unlinked misplaced drifted_signer drifted_execution : ℕ → WitnessProblem

abbrev pub problem_if : Bool → WitnessProblem → List WitnessProblem
problem_if true p = p ∷ []
problem_if false p = []

abbrev pub drift : ℕ → Option WitnessRecord → WitnessRecord → List WitnessProblem
drift index none r = []
drift index (some prior) r =
    problem_if (not (r.signer_id == prior.signer_id)) (drifted_signer index)
    ++ problem_if (not (r.execution_id == prior.execution_id)) (drifted_execution index)

-- The loop, from a position with the previous hash and the prior record.
unfoldable pub record_problems :
    Hash → ℕ → String → Option WitnessRecord → List WitnessRecord → List WitnessProblem
unfolding record_intact
record_problems content_hash index previous prior [] = []
record_problems content_hash index previous prior (r ∷ rs) =
    problem_if (not (record_intact content_hash r)) (altered index)
    ++ (problem_if (not (r.previous_record_hash == previous)) (unlinked index)
        ++ (problem_if (not (nat_eq r.checkpoint_version (index + 1))) (misplaced index)
            ++ (drift index prior r
                ++ record_problems content_hash (index + 1) r.record_hash (some r) rs)))

abbrev pub none_found : List WitnessProblem → Bool
none_found [] = true
none_found (p ∷ ps) = false

unfoldable pub verify_history : Hash → String → WitnessLedger → Bool × List WitnessProblem
unfolding history record_problems
verify_history content_hash operation_id w =
    let problems = record_problems content_hash 0 witness_genesis none (history operation_id w) in
    (none_found problems, problems)
