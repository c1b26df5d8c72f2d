-- ===== src/Registry/Authority.antt =====
-- What a sealed registry guarantees of the agents in it.
use proofos.Prelude.{
  String, ◌≡◌, refl, sym, ap, ◌∙◌, ◌⊎◌, inl, inr, true, false, some, List, [], ◌∷◌, ◌++◌,
}
use mathlib.Core.Path.{subst}
use mathlib.Core.Bool.{false≢true}
use proofos.Prelude.Tests.{◌==◌, eq_iff, Bool-cases}
use proofos.Prelude.Sets.{has, minus, minus-has, append-nil_left, append-nil_right}
use proofos.Prelude.Assoc.{Dict, get, put}
use proofos.Prelude.Results.{Result, ok, err, ◌>>◌, raise_if, then-ok, raise_if-ok, ok_inj}
use proofos.Registry.{
  Role, orchestrator, planner, executor, collector, verifier, AgentRecord, AgentRegistry,
  AuthorityProblem, AuthorityViolation, all_capabilities, role_capabilities, role_tools, report,
  outside_remit, unknown_capabilities, stray_tools, check_invariants, invariants, validate_record,
  fleet_problems, raise_problems, validate, register_agent, registered, registry_sealed,
  duplicate_agent, seal_agents, new_agent_registry,
}

-- An agent within the remit of its role: no capability and no tool besides.
pub record WithinRole (r : AgentRecord) : Type 0 where
  pub within_remit :
      (c : String) → has c r.capabilities ≡ true → has c (role_capabilities r.role) ≡ true
  pub within_tools : (t : String) → has t r.tools ≡ true → has t (role_tools r.role) ≡ true

report-nil : (xs : List String) (p : List String → AuthorityProblem) → report xs p ≡ [] → xs ≡ []
report-nil [] p e = refl
report-nil (x ∷ xs) p e = cc

minus_nil : (xs : List String) → minus xs [] ≡ xs
unfolding minus has
minus_nil [] = refl
minus_nil (x ∷ xs) = ap (◌∷◌ x) (minus_nil xs)

validate_record-WithinRole : (r : AgentRecord) → validate_record r ≡ [] → WithinRole r
unfolding validate_record
validate_record-WithinRole r e =
    let unknown =
      report-nil (minus r.capabilities all_capabilities) (unknown_capabilities r.agent_id) (
        append-nil_left
          (report (minus r.capabilities all_capabilities) (unknown_capabilities r.agent_id))
          after_unknown e) in
    let rest =
      append-nil_right
        (report (minus r.capabilities all_capabilities) (unknown_capabilities r.agent_id))
        after_unknown e in
    let outside =
      report-nil outside_names (outside_remit r.agent_id)
        (append-nil_left (report outside_names (outside_remit r.agent_id)) after_outside rest) in
    let tools =
      append-nil_right (check_invariants r invariants) stray
        (append-nil_right (report outside_names (outside_remit r.agent_id)) after_outside rest) in
    record {
      within_remit = λ c. minus-has c r.capabilities (role_capabilities r.role) (
          sym (minus_nil (minus r.capabilities (role_capabilities r.role)))
          ∙ (ap (minus (minus r.capabilities (role_capabilities r.role))) (sym unknown) ∙ outside));
      within_tools = λ t.
          minus-has t r.tools (role_tools r.role)
            (report-nil (minus r.tools (role_tools r.role)) (stray_tools r.agent_id) tools);
    }
  where
    outside_names : List String
    outside_names =
        minus (minus r.capabilities (role_capabilities r.role))
          (minus r.capabilities all_capabilities)

    stray : List AuthorityProblem
    stray = report (minus r.tools (role_tools r.role)) (stray_tools r.agent_id)

    after_outside : List AuthorityProblem
    after_outside = check_invariants r invariants ++ stray

    after_unknown : List AuthorityProblem
    after_unknown = report outside_names (outside_remit r.agent_id) ++ after_outside

fleet_problems-WithinRole :
    (d : Dict AgentRecord) (k : String) (r : AgentRecord)
    → fleet_problems d ≡ []
    → get k d ≡ some r
    → WithinRole r
unfolding fleet_problems get
fleet_problems-WithinRole [] k r e h = cc
fleet_problems-WithinRole ((j, x) ∷ d) k r e h = elim (Bool-cases (j == k)) [
  | inl q ↦
      let same : x ≡ r = cc (rw q at h) in
      subst WithinRole same
        (validate_record-WithinRole x (append-nil_left (validate_record x) (fleet_problems d) e))
  | inr q ↦
      fleet_problems-WithinRole d k r (append-nil_right (validate_record x) (fleet_problems d) e)
        (rw q at h)
]

-- A sealed registry has passed its validation.
abbrev Validated : AgentRegistry → Type 0
Validated reg = reg.sealed ≡ true → fleet_problems reg.records ≡ []

pub data RegistryCall : Type 0 where
  registers : AgentRecord → RegistryCall
  seals : RegistryCall

abbrev kept : AgentRegistry → Result AuthorityViolation AgentRegistry → AgentRegistry
kept reg (ok after) = after
kept reg (err e) = reg

-- The calls in order; one that is refused leaves the registry as it is.
unfoldable pub run_calls : List RegistryCall → AgentRegistry → AgentRegistry
run_calls [] reg = reg
run_calls (registers r ∷ cs) reg = run_calls cs (kept reg (register_agent r reg))
run_calls (seals ∷ cs) reg = run_calls cs (kept reg (seal_agents reg))

raise_problems-ok : (ps : List AuthorityProblem) → raise_problems ps ≡ ok tt → ps ≡ []
raise_problems-ok [] h = refl
raise_problems-ok (p ∷ ps) h = cc

register-Validated :
    (r : AgentRecord) (reg : AgentRegistry)
    → Validated reg
    → Validated (kept reg (register_agent r reg))
unfolding register_agent
register-Validated r reg v = by_result (register_agent r reg) refl
  where
    by_result :
        (m : Result AuthorityViolation AgentRegistry)
        → register_agent r reg ≡ m
        → Validated (kept reg m)
    by_result (err e) q = v
    by_result (ok after) q =
        let open_still =
          raise_if-ok reg.sealed (registry_sealed r.agent_id ∷ [])
            (then-ok (raise_if reg.sealed (registry_sealed r.agent_id ∷ [])) unseen q).0 in
        let done =
          then-ok
            (raise_if (registered (get r.agent_id reg.records)) (duplicate_agent r.agent_id ∷ []))
            added (then-ok (raise_if reg.sealed (registry_sealed r.agent_id ∷ [])) unseen q).1 in
        λ sealed. absurd (
          false≢true
            (sym open_still ∙ (ap (λ (g : AgentRegistry). g.sealed) (ok_inj done.1) ∙ sealed)))
      where
        added : Result AuthorityViolation AgentRegistry
        added = ok (record reg { records = put r.agent_id r reg.records })

        unseen : Result AuthorityViolation AgentRegistry
        unseen =
            raise_if (registered (get r.agent_id reg.records)) (duplicate_agent r.agent_id ∷ [])
            >> added

seal-Validated : (reg : AgentRegistry) → Validated reg → Validated (kept reg (seal_agents reg))
unfolding seal_agents validate
seal-Validated reg v = by_result (seal_agents reg) refl
  where
    by_result :
        (m : Result AuthorityViolation AgentRegistry) → seal_agents reg ≡ m → Validated (kept reg m)
    by_result (err e) q = v
    by_result (ok after) q =
        let c =
          then-ok (raise_problems (fleet_problems reg.records)) (ok (record reg { sealed = true }))
            q in
        λ sealed.
          ap (λ (g : AgentRegistry). fleet_problems g.records) (sym (ok_inj c.1))
          ∙ raise_problems-ok (fleet_problems reg.records) c.0

run-Validated :
    (cs : List RegistryCall) (reg : AgentRegistry) → Validated reg → Validated (run_calls cs reg)
unfolding run_calls
run-Validated [] reg v = v
run-Validated (registers r ∷ cs) reg v =
    run-Validated cs (kept reg (register_agent r reg)) (register-Validated r reg v)
run-Validated (seals ∷ cs) reg v =
    run-Validated cs (kept reg (seal_agents reg)) (seal-Validated reg v)

-- Whatever is registered and however often sealing is tried: in a registry that is sealed, every
-- agent holds only capabilities of its role's remit, and only tools of its role.
pub sealed-WithinRole :
    (cs : List RegistryCall) (agent_id : String) (r : AgentRecord)
    → (run_calls cs new_agent_registry).sealed ≡ true
    → get agent_id (run_calls cs new_agent_registry).records ≡ some r
    → WithinRole r
unfolding fleet_problems
sealed-WithinRole cs agent_id r s h =
    fleet_problems-WithinRole (run_calls cs new_agent_registry).records agent_id r
      (run-Validated cs new_agent_registry (λ e. refl) s) h

-- Doing the work, and deciding whether it was done.
abbrev pub acting : List String
acting = "execute" ∷ "claim" ∷ []

abbrev pub judging : List String
judging = "observe" ∷ "write_observed_evidence" ∷ "read_evidence" ∷ "verify" ∷ []

has-cases : (x y : String) (ys : List String) → has x (y ∷ ys) ≡ true → (x ≡ y) ⊎ (has x ys ≡ true)
unfolding has
has-cases x y ys h = elim (Bool-cases (x == y)) [
  | inl e ↦ inl ((eq_iff x y).0 e)
  | inr e ↦ inr (rw e at h)
]

only_executor :
    (role : Role) (c : String)
    → has c acting ≡ true
    → has c (role_capabilities role) ≡ true
    → role ≡ executor
unfolding has role_capabilities
only_executor role c a h = elim (has-cases c "execute" ("claim" ∷ []) a) [
  | inl e ↦ executing role (rw e at h)
  | inr a' ↦ elim (has-cases c "claim" [] a') [
    | inl e ↦ claiming role (rw e at h)
    | inr none_left ↦ cc
  ]
]
  where
    executing : (role : Role) → has "execute" (role_capabilities role) ≡ true → role ≡ executor
    executing executor h = refl
    executing orchestrator h = cc
    executing planner h = cc
    executing collector h = cc
    executing verifier h = cc

    claiming : (role : Role) → has "claim" (role_capabilities role) ≡ true → role ≡ executor
    claiming executor h = refl
    claiming orchestrator h = cc
    claiming planner h = cc
    claiming collector h = cc
    claiming verifier h = cc

executor_never_judges :
    (c : String) → has c judging ≡ true → has c (role_capabilities executor) ≡ false
unfolding has role_capabilities
executor_never_judges c h =
    elim (has-cases c "observe" ("write_observed_evidence" ∷ "read_evidence" ∷ "verify" ∷ []) h) [
      | inl e ↦ rw e
      | inr h ↦ elim (has-cases c "write_observed_evidence" ("read_evidence" ∷ "verify" ∷ []) h) [
        | inl e ↦ rw e
        | inr h ↦ elim (has-cases c "read_evidence" ("verify" ∷ []) h) [
          | inl e ↦ rw e
          | inr h ↦ elim (has-cases c "verify" [] h) [ inl e ↦ rw e | inr h ↦ cc ]
        ]
      ]
    ]

-- In a sealed registry, an agent that may execute or claim may neither observe, nor write observed
-- evidence, nor read evidence, nor verify.
pub no_self_certification :
    (cs : List RegistryCall) (agent_id : String) (r : AgentRecord) (act judge : String)
    → (run_calls cs new_agent_registry).sealed ≡ true
    → get agent_id (run_calls cs new_agent_registry).records ≡ some r
    → has act acting ≡ true
    → has judge judging ≡ true
    → has act r.capabilities ≡ true
    → has judge r.capabilities ≡ false
no_self_certification cs agent_id r act judge s h a j may_act =
    let w = sealed-WithinRole cs agent_id r s h in
    let e = only_executor r.role act a (w.within_remit act may_act) in
    elim (Bool-cases (has judge r.capabilities)) [
      | inl may_judge ↦ absurd (
          false≢true (
            sym (executor_never_judges judge j)
            ∙ (ap (λ (q : Role). has judge (role_capabilities q)) (sym e)
                ∙ w.within_remit judge may_judge)))
      | inr refused ↦ refused
    ]
