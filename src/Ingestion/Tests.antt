-- ===== src/Ingestion/Tests.antt =====
-- Concrete runs: one collector answers one request, twice.
use proofos.Prelude.{
  String, ◌≡◌, ◌≢◌, refl, sym, ap, Bool, true, false, none, some, List, [], ◌∷◌, arith,
}
use proofos.Prelude.Tests.{◌==◌, eq_iff, if◌then◌else◌}
use proofos.Prelude.Int.{ℤ, pos}
use proofos.Prelude.Time.{tick, not_a_number}
use proofos.Prelude.Assoc.{Dict, get}
use proofos.Prelude.Results.{Result, ok, err}
use proofos.Samples.{joined}
use proofos.Verifier.Types.{Evidence}
use proofos.Ledger.{EvidenceLedger, ObservationGrant}
use proofos.Capabilities.{ObservationCapability, observation_evidence}
use proofos.Checkpoint.Tests.{toy_library}
use proofos.Attestation.{
  healthy, ObservationAttestation, Value, string, integer, real, from_dict, unexpected_fields,
}
use proofos.Collectors.{CollectorRecord, IdentityError}
use proofos.Ingestion.{
  NonceRecord, Request, Ingestor, IngestState, IngestionResult, accepted, rejected,
  unknown_collector, nonce_unknown, stale, attested_value, check_request, check_attestation, issue,
  ingest,
}
use proofos.Ingestion.Accepted.{Checked, accepted-Checked}
use proofos.Ingestion.Nonces.{spent_nonce_writes_nothing, one_observation_per_nonce}
use proofos.Ingestion.Later.{
  Event, nonce_issued, answer_ingested, ledger_written, NotReissued, happen_all,
}
use proofos.Ingestion.Lost.{lost_observation_accepted}

abbrev attestation : ObservationAttestation
attestation = record {
  version = "proofos.observation.v1";
  execution_id = "exec";
  task_id = "task";
  kind = "runtime";
  collector_id = "collector";
  profile_id = "http";
  request_nonce = "nonce";
  observed_at = tick (pos 15);
  outcome = healthy;
  status_code = some (pos 200);
  response_digest = "digest";
  detail = "fine";
  signature = "signature";
}

abbrev message : Dict Value
message =
    ("version", string "proofos.observation.v1")
    ∷ ("execution_id", string "exec")
    ∷ ("task_id", string "task")
    ∷ ("kind", string "runtime")
    ∷ ("collector_id", string "collector")
    ∷ ("profile_id", string "http")
    ∷ ("request_nonce", string "nonce")
    ∷ ("observed_at", real (tick (pos 15)))
    ∷ ("outcome", string "HEALTHY")
    ∷ ("status_code", integer (pos 200))
    ∷ ("response_digest", string "digest")
    ∷ ("detail", string "fine")
    ∷ ("signature", string "signature")
    ∷ []

parses : from_dict (some message) ≡ ok attestation
unfolding from_dict
parses = refl

smuggled :
    from_dict (some (("source", string "OBSERVED") ∷ message))
    ≡ err (unexpected_fields ("source" ∷ []))
unfolding from_dict
smuggled = refl

abbrev asked : Request
asked = record {
  execution_id = "exec";
  task_id = "task";
  kind = "runtime";
  profile = "http";
  nonce = "nonce";
  max_age_seconds = some (pos 30);
}

abbrev registered : CollectorRecord
registered = record {
  collector_id = "collector";
  allowed_kinds = "runtime" ∷ [];
  allowed_profiles = "http" ∷ [];
  version = "v1";
  active = true;
  verifier = toy_library;
}

abbrev capability : ObservationCapability
capability = record {
  agent_id = "collector";
  grant = record { issuer = 1; collector_id = "collector"; kinds = "runtime" ∷ [] };
}

abbrev wired : Dict ObservationCapability → Ingestor
wired capabilities = record {
  capabilities = capabilities;
  collectors = record { records = ("collector", registered) ∷ []; sealed = true };
}

abbrev issued_record : NonceRecord
issued_record = record {
  nonce = "nonce";
  execution_id = "exec";
  task_id = "task";
  kind = "runtime";
  issued_at = pos 10;
  consumed_by = "";
}

abbrev waiting : IngestState
waiting = record {
  nonces = ("nonce", issued_record) ∷ [];
  ledger = record {
    tasks = ("task", record { required_kinds = []; evidence = [] }) ∷ [];
    marker = 1;
    sealed = true;
  };
}

issues : issue "nonce" (pos 10) "exec" "task" "runtime" [] ≡ waiting.nonces
unfolding issue
issues = refl

abbrev never : IdentityError → Bool
never e = false

abbrev answered :
    ℤ → Ingestor → IngestState → IngestState × Result proofos.Ledger.LedgerError IngestionResult
answered now ing st = ingest joined never (pos 60) ing asked now 7 (some message) st

abbrev in_evidence : Evidence
in_evidence =
    observation_evidence joined capability (pos 20) 7 "runtime" (attested_value attestation) true
      (some (tick (pos 15)))

accepts :
    (answered (pos 20) (wired (("collector", capability) ∷ [])) waiting).1
    ≡ ok (accepted healthy (some in_evidence) false)
unfolding ingest observation_evidence
accepts = refl

too_late :
    (answered (pos 50) (wired (("collector", capability) ∷ [])) waiting).1 ≡ ok (rejected stale)
unfolding ingest
too_late = refl

-- An answer that is dated NaN passes the checks of its time.
nan_passes :
    check_request (pos 60) asked (pos 20) (record attestation { observed_at = not_a_number })
    ≡ ok tt
unfolding check_request
nan_passes = refl

not_issued :
    (answered (pos 20) (wired (("collector", capability) ∷ [])) (record waiting { nonces = [] })).1
    ≡ ok (rejected nonce_unknown)
unfolding ingest
not_issued = refl

accepted-Checked_example :
    (a : ObservationAttestation) × (a.outcome ≡ healthy)
    × Checked (pos 60) (wired (("collector", capability) ∷ [])) asked (pos 20) (some message) a
accepted-Checked_example =
    accepted-Checked never (pos 60) (wired (("collector", capability) ∷ [])) asked (pos 20)
      (some message) joined 7 waiting accepts

abbrev spent_state : IngestState
spent_state = record waiting {
  nonces = ("nonce", record issued_record { consumed_by = "signature" }) ∷ [];
}

spent_found :
    get "nonce" spent_state.nonces ≡ some (record issued_record { consumed_by = "signature" })
unfolding get
spent_found = refl

abbrev signature_text : String
signature_text = "signature"

text_differs : signature_text ≢ ""
text_differs e = cc (ap (λ (s : String). s == "") e)

spent_nonce_writes_nothing_example :
    ((answered (pos 20) (wired (("collector", capability) ∷ [])) spent_state).0).ledger
    ≡ spent_state.ledger
spent_nonce_writes_nothing_example =
    spent_nonce_writes_nothing joined never (pos 60) (wired (("collector", capability) ∷ [])) asked
      (pos 20) 7 (some message) spent_state (record issued_record { consumed_by = "signature" })
      spent_found text_differs

by_key :
    (b : Bool) (c : CollectorRecord)
    → (if b then some registered else none) ≡ some c
    → (c.verifier).decode "" ≡ some []
by_key true c h =
    let e : registered ≡ c = cc in ap (λ (x : CollectorRecord). (x.verifier).decode "") (sym e)
by_key false c h = cc

decodes_empty :
    (k : String) (c : CollectorRecord)
    → get k (("collector", registered) ∷ []) ≡ some c
    → (c.verifier).decode "" ≡ some []
unfolding get
decodes_empty k c h = by_key ("collector" == k) c h

-- Another nonce is issued, the answer is presented again, and the ledger is cleared.
abbrev meanwhile : List Event
meanwhile =
    nonce_issued "other" (pos 21) "exec" "task" "runtime"
    ∷ answer_ingested (wired (("collector", capability) ∷ [])) asked (pos 22) 8 (some message)
    ∷ ledger_written waiting.ledger
    ∷ []

nonces_differ : NotReissued "nonce" meanwhile
nonces_differ = (λ e. ground (arith, eq_iff "other" "nonce"), tt)

one_observation_per_nonce_example :
    ((answered (pos 25) (wired (("collector", capability) ∷ [])) (
      happen_all joined never
        (pos 60)
        meanwhile
        (answered (pos 20) (wired (("collector", capability) ∷ [])) waiting).0)).0
    ).ledger
    ≡ (happen_all joined never
        (pos 60)
        meanwhile
        (answered (pos 20) (wired (("collector", capability) ∷ [])) waiting).0).ledger
one_observation_per_nonce_example =
    one_observation_per_nonce joined never (pos 60) (wired (("collector", capability) ∷ []))
      decodes_empty asked (pos 20) (pos 25) 7 7 (some message) (some message) waiting meanwhile
      (wired (("collector", capability) ∷ [])) asked accepts nonces_differ refl

checks_pass :
    check_attestation never (pos 60) (wired []) asked (pos 20) (some message) ≡ ok attestation
unfolding check_attestation
checks_pass = refl

nonce_found : get "nonce" waiting.nonces ≡ some issued_record
unfolding get
nonce_found = refl

no_capability : get "collector" (wired []).capabilities ≡ none
unfolding get
no_capability = refl

lost_observation_accepted_example :
    ((answered (pos 20) (wired []) waiting).1 ≡ ok (rejected unknown_collector))
    × ((answered (pos 20) (wired []) (answered (pos 20) (wired []) waiting).0).1
        ≡ ok (accepted healthy none true))
    × (((answered (pos 20) (wired []) (answered (pos 20) (wired []) waiting).0).0).ledger
        ≡ waiting.ledger)
lost_observation_accepted_example =
    lost_observation_accepted joined never (pos 60) (wired []) asked (pos 20) 7 (some message)
      waiting attestation issued_record checks_pass nonce_found
      (record { unspent = refl; same_execution = refl; same_task = refl; same_kind = refl })
      text_differs no_capability
