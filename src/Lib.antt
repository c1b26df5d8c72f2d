-- ===== src/Lib.antt =====
-- The core of ProofOS: an agent's claim that work is done is accepted only when evidence that
-- the runtime itself observed proves it, and every step of that decision is recorded in a way
-- that shows tampering.
--
-- Parts, and how they interact. The verification kernel (proofos/verifier.py) decides a claim
-- from evidence and declared requirements. The evidence ledger (proofos/ledger.py) keeps both
-- per task, and takes OBSERVED evidence only under a grant that it issued before it was sealed.
-- The capabilities (proofos/capabilities.py) are what each role holds: an executor records
-- claims, a collector observations, the verifier reads and decides, the orchestrator opens
-- tasks. The ingestor (proofos/ingestion.py) turns a collector's signed attestation
-- (proofos/attestation.py) into an observation, after the collector registry
-- (proofos/collector_registry.py) and the nonce ledger agree. The journal (proofos/journal.py)
-- records what happened in hash chains. A checkpoint of an operation (proofos/continuity.py) is
-- signed (proofos/checkpoint_attestation.py) and shown to a witness (proofos/witness.py), which
-- keeps its own chain of what it was shown. Witnesses sign receipts (proofos/witness_receipt.py)
-- for what they recorded; a quorum (proofos/witness_quorum.py) counts them under a pinned
-- policy, a certificate (proofos/quorum_certificate.py) and a gossip bundle
-- (proofos/witness_gossip.py) carry it, the transparency gate (proofos/transparency_gate.py)
-- puts both together, and the keys of auditors rotate in chains
-- (proofos/auditor_key_rotation.py) or are replaced by a threshold of recovery authorities
-- (proofos/auditor_key_recovery.py). The agent registry (proofos/registry.py) fixes who may hold
-- which capability; the catalog (proofos/agent_catalog.py) describes the agents, and the message
-- bus (proofos/messages.py) carries what they send. After a restart, resume (proofos/resume.py)
-- reads the stored checkpoint (proofos/continuity.py), the journal and the catalog, and says
-- what may be done next. The recovery loop (proofos_agent/recovery.py) takes turns of the model,
-- asks the verifier, and collects what is missing.
--
-- Files. Prelude: the library names in use, Boolean tests, lists, integers, floats as times,
-- str.strip, results and dicts as association lists. Integrity: digests. Verifier: Types (the
-- records), Evaluate (_evaluate), Assess (_assess, _rejection_reason), Verify (_verify,
-- verify_completion), and proofs in Settled, Declared, Decides, Soundness, Independence,
-- Reports, Assessed and Honest. Ledger: the methods of EvidenceLedger (`record` is
-- record_evidence here), and proofs in Ledger/Authority and Ledger/Provenance. Capabilities:
-- record_claim, record_observation, VerificationCapability.verify (verify_task) and open_task,
-- and proofs in Certify, Claims and Recover. Journal: Events (drafts and events), Check
-- (verify_events), Sink (append, store, list_execution, verify_chain, the fan-out), Record
-- (class Journal and AuditCapability), and proofs in Chain, Appends, Tamper and Replica.
-- Checkpoint: the checkpoint, its envelope, sign and verify, and proofs in Checkpoint/Binding.
-- Witness: Observe (observe, history, verify), and proofs in History, Sequence and Promises.
-- Attestation: from_dict and verify. Collectors: register, get and require_scope. Ingestion:
-- issue, consume and ingest, and proofs in Checks, Accepted, Later, Nonces and Lost. Signing:
-- the steps of a signature check. Receipt: sign and verify (sign_receipt, verify_receipt), and
-- proofs in Receipt/Binding. Quorum: Policy (WitnessQuorumPolicy), Evaluate
-- (evaluate_witness_quorum), and proofs in Tally, Steps, Backed, Agreement and Overlap.
-- Certificate, Gossip and Transparency: sign and verify of each (sign_certificate, verify_bundle
-- and so on) and evaluate_transparency, and proofs in Certificate/Binding, Gossip/Recomputed and
-- Transparency/Accepted. AuditorKeys: transitions and verify_transition_chain, and proofs in
-- Chain and Pinned. KeyRecovery: Policy (RecoveryPolicy and the recovery statement), Verify
-- (verify_recovery and verify_auditor_key_history), Sign, and proofs in Threshold and History.
-- Registry: register (register_agent), seal (seal_agents), validate, require_tool, and proofs in
-- Authority. Messages: send and accept, and proofs in Delivery and Senders. Catalog: build,
-- require and find, and proofs in Grants. Continuity: open_operation, advance, get and put of
-- the in-memory store, and proofs in Store. Resume: OperationResumer.resume, and proofs in Once
-- and Grounded. Recovery: Notes and Loop (run_verification_loop), and proofs in Outcome and
-- Completion. The Tests modules and Journal/Audited run the definitions on concrete inputs;
-- Samples holds a digest for them.
--
-- Abstractions. A method that mutates an object takes its state and returns the new one; a
-- method that raises returns `err`, and the state is the one before, except where a result comes
-- with the state reached by then (the fan-out and the ingestor). A float that is compared is a
-- number of ticks, NaN or an infinity where it comes with evidence, and finite elsewhere: clock
-- readings, maximal ages, and stamps, which the code checks to be finite. The digest is a
-- parameter, a function of the fields; where a property needs that digests differ, it says
-- instead that two contents with one digest have been found. Base64 and Ed25519 are a parameter,
-- one record per key, with what is documented of them as hypotheses. The identity of an object,
-- which the kernel uses for evidence and the ledger for its private marker, is a number. A
-- message of a check is a constructor with its position; the text is not kept. Checkpoint
-- versions and journal sequences are natural numbers. The fan-out has one replica. An empty
-- entry that `setdefault` leaves behind is not kept, since no method shows it. Sets are lists,
-- and `sorted` is an insertion sort, on texts by code points. The key of a public key's text is
-- a function of the text. The continuity store keeps checkpoints, and not their dicts. A model's
-- turns and a collector's answers are functions of the attempt, and whether a note can be
-- recorded is a function of the notes before it. The recovery loop recurses on the attempts that
-- are left, so its bound is max_attempts. Clock readings, random nonces and identities of new
-- objects are arguments. All recursion is structural, so there is no fuel.
--
-- Not modelled. The agents, the collector and web services, Firestore, the scripts and the front
-- end: networks, environments and third-party services. Of the library itself, not yet: the
-- parsers of checkpoints, receipts, certificates, bundles and key transitions, the witness that
-- writes files, the governance witness, the rotations of recovery policies and the revocation of
-- authorities, the transparency audit receipt, the journal that writes files, and the loading
-- and probing of keys.
pub mod Prelude
pub mod Integrity
pub mod Verifier
pub mod Ledger
pub mod Capabilities
mod Samples
pub mod Journal
pub mod Signing
pub mod Checkpoint
pub mod Witness
pub mod Receipt
pub mod Quorum
pub mod Certificate
pub mod Gossip
pub mod Transparency
pub mod AuditorKeys
pub mod KeyRecovery
pub mod Attestation
pub mod Collectors
pub mod Ingestion
pub mod Registry
pub mod Messages
pub mod Catalog
pub mod Continuity
pub mod Resume
pub mod Recovery
