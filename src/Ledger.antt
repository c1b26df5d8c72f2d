-- ===== src/Ledger.antt =====
-- proofos/ledger.py: the store of requirements and evidence, and the grants to write observations.
-- A method that mutates the ledger returns the new one; every check of the source stands before the
-- first write, so a method that raises has changed nothing. The private marker object is a number,
-- its identity.
pub mod Authority
pub mod Provenance
mod Tests
use proofos.Prelude.{ℕ, String, Bool, true, false, not, Option, none, some, List, [], ◌∷◌, ◌++◌}
use proofos.Prelude.Tests.{◌==◌, nat_eq, if◌then◌else◌}
use proofos.Prelude.Lists.{any}
use proofos.Prelude.Results.{Result, ok, err, ◌>>=◌, ◌>>◌, raise_if}
use proofos.Prelude.Assoc.{Dict, get, put}
use proofos.Integrity.{Hash}
use proofos.Verifier.Types.{
  Evidence, EvidenceSource, observed, executor, model, Requirement, intact,
}

-- Why CapabilityDenied was raised.
pub data Denial : Type 0 where
  ledger_sealed no_grant foreign_grant kind_not_covered wrong_identity no_requirements : Denial

pub data LedgerError : Type 0 where
  capability_denied : String → Denial → LedgerError
  unknown_task : String → LedgerError
  evidence_tampered : String → String → LedgerError

pub record ObservationGrant : Type 0 where
  pub issuer : ℕ
  pub collector_id : String
  pub kinds : List String

pub record TaskRecord : Type 0 where
  pub required_kinds : List Requirement
  pub evidence : List Evidence

pub record EvidenceLedger : Type 0 where
  pub tasks : Dict TaskRecord
  pub marker : ℕ
  pub sealed : Bool

-- __init__, with a fresh marker object
unfoldable pub new_ledger : ℕ → EvidenceLedger
new_ledger marker = record { tasks = []; marker = marker; sealed = false }

unfoldable pub grant_observation :
    String → List String → EvidenceLedger → Result LedgerError ObservationGrant
grant_observation collector_id kinds l = do
  raise_if l.sealed (capability_denied collector_id ledger_sealed)
  ok (record { issuer = l.marker; collector_id = collector_id; kinds = kinds })

unfoldable pub seal : EvidenceLedger → EvidenceLedger
seal l = record l { sealed = true }

-- evidence.collector or "unknown"
unfoldable pub writer_name : Evidence → String
writer_name e = if e.collector == "" then "unknown" else e.collector

unfoldable pub check_grant :
    EvidenceLedger → Evidence → Option ObservationGrant → Result LedgerError (Unit {0})
unfolding writer_name any
check_grant l e none = err (capability_denied (writer_name e) no_grant)
check_grant l e (some grant) = do
  raise_if (not (nat_eq grant.issuer l.marker)) (capability_denied (writer_name e) foreign_grant)
  raise_if (not (any (λ k. k == e.kind) grant.kinds))
      (capability_denied grant.collector_id kind_not_covered)
  raise_if (not (e.collector == grant.collector_id))
      (capability_denied grant.collector_id wrong_identity)

-- `_require`
abbrev pub found : String → Option TaskRecord → Result LedgerError TaskRecord
found task_id none = err (unknown_task task_id)
found task_id (some t) = ok t

unfoldable pub require : String → EvidenceLedger → Result LedgerError TaskRecord
unfolding get
require task_id l = found task_id (get task_id l.tasks)

-- `if evidence.source is EvidenceSource.OBSERVED`
unfoldable pub check_source :
    EvidenceLedger
    → EvidenceSource
    → Evidence
    → Option ObservationGrant
    → Result LedgerError (Unit {0})
unfolding check_grant
check_source l observed e grant = check_grant l e grant
check_source l executor e grant = ok tt
check_source l model e grant = ok tt

unfoldable pub record_evidence :
    String → Evidence → Option ObservationGrant → EvidenceLedger → Result LedgerError EvidenceLedger
unfolding check_source require put
record_evidence task_id e grant l = do
  check_source l e.source e grant
  t ← require task_id l
  ok (record l { tasks = put task_id (record t { evidence = t.evidence ++ e ∷ [] }) l.tasks })

unfoldable pub open_task : String → List Requirement → EvidenceLedger → EvidenceLedger
unfolding put
open_task task_id required l = record l {
  tasks = put task_id (record { required_kinds = required; evidence = [] }) l.tasks;
}

unfoldable pub requirements : String → EvidenceLedger → Result LedgerError (List Requirement)
unfolding require
requirements task_id l = do t ← require task_id l; ok t.required_kinds

-- The loop of `evidence`: the first record that is not intact raises.
unfoldable pub check_intact : Hash → String → List Evidence → Result LedgerError (Unit {0})
unfolding intact
check_intact content_hash task_id [] = ok tt
check_intact content_hash task_id (e ∷ es) =
    raise_if (not (intact content_hash e)) (evidence_tampered task_id e.kind)
    >> check_intact content_hash task_id es

unfoldable pub evidence : Hash → String → EvidenceLedger → Result LedgerError (List Evidence)
unfolding require check_intact
evidence content_hash task_id l = do
  t ← require task_id l
  check_intact content_hash task_id t.evidence
  ok t.evidence

unfoldable pub is_some : Option TaskRecord → Bool
is_some none = false
is_some (some t) = true

unfoldable pub knows : String → EvidenceLedger → Bool
unfolding is_some get
knows task_id l = is_some (get task_id l.tasks)

unfoldable pub reset : EvidenceLedger → EvidenceLedger
reset l = record l { tasks = [] }
