-- ===== src/Registry.antt =====
-- proofos/registry.py: who exists, what they may hold, and what they may be handed. The names of the
-- capabilities are those of proofos/capabilities.py; a problem is a constructor, for its message.
pub mod Authority
mod Tests
use proofos.Prelude.{String, Bool, true, false, not, Option, none, some, List, [], ◌∷◌, ◌++◌, map}
use proofos.Prelude.Tests.{◌==◌, if◌then◌else◌}
use proofos.Prelude.Sets.{has, minus, common}
use proofos.Prelude.Assoc.{Dict, get, put}
use proofos.Prelude.Results.{Result, ok, err, ◌>>=◌, ◌>>◌, raise_if}

pub data Role : Type 0 where
  orchestrator planner executor collector verifier : Role

pub data Runtime : Type 0 where
  deterministic adk_gemini : Runtime

-- Capability.ALL
abbrev pub all_capabilities : List String
all_capabilities =
    "plan" ∷ "execute" ∷ "claim" ∷ "observe" ∷ "write_observed_evidence" ∷ "read_evidence"
    ∷ "verify" ∷ "append_audit" ∷ "orchestrate" ∷ "request_recovery" ∷ []

unfoldable pub role_capabilities : Role → List String
role_capabilities orchestrator = "orchestrate" ∷ "request_recovery" ∷ "append_audit" ∷ []
role_capabilities planner = "plan" ∷ "append_audit" ∷ []
role_capabilities executor = "execute" ∷ "claim" ∷ "append_audit" ∷ []
role_capabilities collector = "observe" ∷ "write_observed_evidence" ∷ "append_audit" ∷ []
role_capabilities verifier = "read_evidence" ∷ "verify" ∷ "append_audit" ∷ []

unfoldable pub role_tools : Role → List String
role_tools orchestrator = []
role_tools planner = []
role_tools executor = "perform_action" ∷ []
role_tools collector = "probe_http" ∷ []
role_tools verifier = "verify_task_completion" ∷ []

unfoldable pub same_role : Role → Role → Bool
same_role orchestrator orchestrator = true
same_role planner planner = true
same_role executor executor = true
same_role collector collector = true
same_role verifier verifier = true
same_role _ _ = false

pub record AgentRecord : Type 0 where
  pub agent_id : String
  pub role : Role
  pub capabilities : List String
  pub tools : List String
  pub runtime : Runtime
  pub version : String

pub record Invariant : Type 0 where
  pub role : Role
  pub forbidden : List String

abbrev pub invariants : List Invariant
invariants =
    record { role = executor; forbidden = "write_observed_evidence" ∷ "observe" ∷ [] }
    ∷ record { role = executor; forbidden = "verify" ∷ "read_evidence" ∷ [] }
    ∷ record { role = collector; forbidden = "verify" ∷ [] }
    ∷ record { role = collector; forbidden = "execute" ∷ "claim" ∷ [] }
    ∷ record { role = verifier; forbidden = "execute" ∷ "claim" ∷ [] }
    ∷ record { role = verifier; forbidden = "write_observed_evidence" ∷ "observe" ∷ [] }
    ∷ record {
      role = planner;
      forbidden = "write_observed_evidence" ∷ "observe" ∷ "claim" ∷ "verify" ∷ [];
    }
    ∷ record { role = orchestrator; forbidden = "write_observed_evidence" ∷ "observe" ∷ [] }
    ∷ record { role = orchestrator; forbidden = "verify" ∷ [] }
    ∷ []

pub data AuthorityProblem : Type 0 where
  registry_sealed duplicate_agent : String → AuthorityProblem
  unknown_capabilities outside_remit forbidden_combination stray_tools :
      String → List String → AuthorityProblem

-- `if names: problems.append(...)`
abbrev pub report : List String → (List String → AuthorityProblem) → List AuthorityProblem
report [] p = []
report (x ∷ xs) p = p (x ∷ xs) ∷ []

-- Invariant.check
unfoldable pub check_invariant : AgentRecord → Invariant → List AuthorityProblem
unfolding same_role common
check_invariant r i =
    if same_role r.role i.role
    then report (common r.capabilities i.forbidden) (forbidden_combination r.agent_id)
    else []

unfoldable pub check_invariants : AgentRecord → List Invariant → List AuthorityProblem
unfolding check_invariant
check_invariants r [] = []
check_invariants r (i ∷ is) = check_invariant r i ++ check_invariants r is

-- `_validate_record`
unfoldable pub validate_record : AgentRecord → List AuthorityProblem
unfolding minus role_capabilities role_tools check_invariants
validate_record r =
    let unknown = minus r.capabilities all_capabilities in
    report unknown (unknown_capabilities r.agent_id)
    ++ (report (minus (minus r.capabilities (role_capabilities r.role)) unknown)
          (outside_remit r.agent_id)
        ++ (check_invariants r invariants
            ++ report (minus r.tools (role_tools r.role)) (stray_tools r.agent_id)))

pub record AgentRegistry : Type 0 where
  pub records : Dict AgentRecord
  pub sealed : Bool

abbrev pub new_agent_registry : AgentRegistry
new_agent_registry = record { records = []; sealed = false }

-- AuthorityViolation
abbrev pub AuthorityViolation : Type 0
AuthorityViolation = List AuthorityProblem

abbrev pub registered : Option AgentRecord → Bool
registered none = false
registered (some r) = true

unfoldable pub register_agent :
    AgentRecord → AgentRegistry → Result AuthorityViolation AgentRegistry
unfolding get put
register_agent r reg = do
  raise_if reg.sealed (registry_sealed r.agent_id ∷ [])
  raise_if (registered (get r.agent_id reg.records)) (duplicate_agent r.agent_id ∷ [])
  ok (record reg { records = put r.agent_id r reg.records })

-- The loop over the records.
unfoldable pub fleet_problems : Dict AgentRecord → List AuthorityProblem
unfolding validate_record
fleet_problems [] = []
fleet_problems ((k, r) ∷ d) = validate_record r ++ fleet_problems d

abbrev pub raise_problems : List AuthorityProblem → Result AuthorityViolation (Unit {0})
raise_problems [] = ok tt
raise_problems (p ∷ ps) = err (p ∷ ps)

unfoldable pub validate : AgentRegistry → Result AuthorityViolation (Unit {0})
unfolding fleet_problems
validate reg = raise_problems (fleet_problems reg.records)

unfoldable pub seal_agents : AgentRegistry → Result AuthorityViolation AgentRegistry
unfolding validate
seal_agents reg = validate reg >> ok (record reg { sealed = true })

-- AgentIdentityInvalid and ToolNotAllowed
pub data AuthorityError : Type 0 where
  identity_invalid : String → AuthorityError
  tool_not_allowed : String → String → AuthorityError

abbrev pub known_agent : String → Option AgentRecord → Result AuthorityError AgentRecord
known_agent agent_id none = err (identity_invalid agent_id)
known_agent agent_id (some r) = ok r

unfoldable pub get_agent : String → AgentRegistry → Result AuthorityError AgentRecord
unfolding get
get_agent agent_id reg = known_agent agent_id (get agent_id reg.records)

unfoldable pub has_capability : String → String → AgentRegistry → Result AuthorityError Bool
unfolding get_agent has
has_capability agent_id capability reg =
    get_agent agent_id reg >>= λ r. ok (has capability r.capabilities)

unfoldable pub require_tool : String → String → AgentRegistry → Result AuthorityError (Unit {0})
unfolding get_agent has
require_tool agent_id tool_name reg = get_agent agent_id reg >>= λ r.
    raise_if (not (has tool_name r.tools)) (tool_not_allowed agent_id tool_name)

abbrev agent : String → Role → List String → Runtime → AgentRecord
agent agent_id role tools runtime = record {
  agent_id = agent_id;
  role = role;
  capabilities = role_capabilities role;
  tools = tools;
  runtime = runtime;
  version = "v1";
}

-- default_registry: each role holds exactly its remit
unfoldable pub default_registry : Result AuthorityViolation AgentRegistry
unfolding register_agent seal_agents
default_registry = do
  r ← register_agent (agent "orchestrator-v1" orchestrator [] deterministic) new_agent_registry
  r ← register_agent (agent "planner-v1" planner [] adk_gemini) r
  r ← register_agent (agent "executor-v1" executor ("perform_action" ∷ []) adk_gemini) r
  r ← register_agent (agent "collector-http-v1" collector ("probe_http" ∷ []) deterministic) r
  r ← register_agent (agent "collector-ci-v1" collector [] deterministic) r
  r ← register_agent (agent "verifier-v1" verifier ("verify_task_completion" ∷ []) adk_gemini) r
  seal_agents r
