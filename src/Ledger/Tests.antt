-- ===== src/Ledger/Tests.antt =====
-- The ledger on concrete calls.
use proofos.Prelude.{◌≡◌, refl, true, none, some, [], ◌∷◌, inl}
use proofos.Prelude.Int.{pos}
use proofos.Prelude.Time.{tick}
use proofos.Prelude.Results.{err}
use proofos.Verifier.Types.{Evidence, observed}
use proofos.Ledger
use proofos.Ledger.{
  LedgerError, capability_denied, no_grant, foreign_grant, kind_not_covered, wrong_identity,
  ledger_sealed, unknown_task, ObservationGrant, EvidenceLedger, new_ledger, grant_observation,
  seal, record_evidence,
}
use proofos.Ledger.Authority.{
  granting, sealing, opening, recording, Reach, here, next, HasProvenance,
}
use proofos.Ledger.Provenance.{Reach-HasProvenance, sealed-Reach}

abbrev http_grant : ObservationGrant
http_grant = record { issuer = 7; collector_id = "collector-http-v1"; kinds = "runtime" ∷ [] }

abbrev probe : Evidence
probe = record {
  ident = 1;
  kind = "runtime";
  value = "probe HEALTHY";
  source = observed;
  valid = true;
  collected_at = some (tick (pos 100));
  collector = "collector-http-v1";
  content_hash = "runtime,probe HEALTHY,OBSERVED,true,number,collector-http-v1,";
}

abbrev opened : EvidenceLedger
opened = Ledger.open_task "t1" [] (new_ledger 7)

no_grant_denied :
    record_evidence "t1" probe none opened ≡ err (capability_denied "collector-http-v1" no_grant)
unfolding record_evidence Ledger.open_task new_ledger
no_grant_denied = refl

forged_grant_denied :
    record_evidence "t1" probe (some (record http_grant { issuer = 8 })) opened
    ≡ err (capability_denied "collector-http-v1" foreign_grant)
unfolding record_evidence Ledger.open_task new_ledger
forged_grant_denied = refl

sealed_denies :
    grant_observation "late" ("runtime" ∷ []) (seal opened)
    ≡ err (capability_denied "late" ledger_sealed)
unfolding grant_observation seal Ledger.open_task new_ledger
sealed_denies = refl

abbrev recorded : EvidenceLedger
recorded = record {
  tasks = ("t1", record { required_kinds = []; evidence = probe ∷ [] }) ∷ [];
  marker = 7;
  sealed = true;
}

-- A life of a ledger: a grant, a task, the seal, an observation.
run :
    Reach
      (record { ledger = new_ledger 7; issued = [] })
      (record { ledger = recorded; issued = http_grant ∷ [] })
unfolding grant_observation record_evidence seal Ledger.open_task new_ledger
run =
    next
      (next
        (next (next here (granting "collector-http-v1" ("runtime" ∷ []) http_grant refl))
          (opening "t1" []))
        sealing)
      (recording "t1" probe (some http_grant) recorded (λ _. inl refl) refl)

Reach-HasProvenance_example : HasProvenance (record { ledger = recorded; issued = http_grant ∷ [] })
Reach-HasProvenance_example = Reach-HasProvenance 7 run

rerecord :
    Reach
      (record { ledger = recorded; issued = http_grant ∷ [] })
      (record { ledger = Ledger.open_task "t2" [] recorded; issued = http_grant ∷ [] })
rerecord = next here (opening "t2" [])

sealed-Reach_example :
    ((Ledger.open_task "t2" [] recorded).sealed ≡ true) × (http_grant ∷ [] ≡ http_grant ∷ [])
sealed-Reach_example = sealed-Reach rerecord refl
