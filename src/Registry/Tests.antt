-- ===== src/Registry/Tests.antt =====
-- Concrete runs of the agent registry.
use proofos.Prelude.{◌≡◌, refl, true, false, none, some, List, [], ◌∷◌}
use proofos.Prelude.Sets.{has}
use proofos.Prelude.Assoc.{get}
use proofos.Prelude.Results.{Result, ok, err}
use proofos.Registry.{
  executor, verifier, orchestrator, deterministic, AgentRecord, AgentRegistry,
  forbidden_combination, outside_remit, stray_tools, validate_record, default_registry,
  new_agent_registry, role_capabilities, require_tool, tool_not_allowed,
}
use proofos.Registry.Authority.{
  RegistryCall, registers, seals, run_calls, WithinRole, sealed-WithinRole, no_self_certification,
}

abbrev worker : AgentRecord
worker = record {
  agent_id = "executor-v1";
  role = executor;
  capabilities = "execute" ∷ "claim" ∷ "append_audit" ∷ [];
  tools = "perform_action" ∷ [];
  runtime = deterministic;
  version = "v1";
}

-- An executor that may observe breaks its remit and an invariant.
overreaching :
    validate_record (record worker { capabilities = "claim" ∷ "observe" ∷ [] })
    ≡ outside_remit "executor-v1" ("observe" ∷ [])
      ∷ forbidden_combination "executor-v1" ("observe" ∷ [])
      ∷ []
unfolding validate_record
overreaching = refl

abbrev fleet_of : Result (List proofos.Registry.AuthorityProblem) AgentRegistry → AgentRegistry
fleet_of (ok r) = r
fleet_of (err e) = new_agent_registry

default_sealed : (fleet_of default_registry).sealed ≡ true
unfolding default_registry
default_sealed = refl

executor_cannot_verify :
    require_tool "executor-v1" "verify_task_completion" (fleet_of default_registry)
    ≡ err (tool_not_allowed "executor-v1" "verify_task_completion")
unfolding default_registry require_tool
executor_cannot_verify = refl

abbrev wiring : List RegistryCall
wiring = registers worker ∷ seals ∷ registers (record worker { agent_id = "late" }) ∷ []

wired_sealed : (run_calls wiring new_agent_registry).sealed ≡ true
unfolding run_calls proofos.Registry.register_agent proofos.Registry.seal_agents
wired_sealed = refl

wired_worker : get "executor-v1" (run_calls wiring new_agent_registry).records ≡ some worker
unfolding run_calls proofos.Registry.register_agent proofos.Registry.seal_agents
wired_worker = refl

late_refused : get "late" (run_calls wiring new_agent_registry).records ≡ none
unfolding run_calls proofos.Registry.register_agent proofos.Registry.seal_agents
late_refused = refl

sealed-WithinRole_example : WithinRole worker
sealed-WithinRole_example = sealed-WithinRole wiring "executor-v1" worker wired_sealed wired_worker

may_claim : has "claim" worker.capabilities ≡ true
unfolding has
may_claim = refl

no_self_certification_example : has "verify" worker.capabilities ≡ false
unfolding has
no_self_certification_example =
    no_self_certification wiring "executor-v1" worker "claim" "verify" wired_sealed wired_worker
      refl refl may_claim
