-- ===== src/Resume/Once.antt =====
-- A restart does not repeat the work.
use proofos.Prelude.{
  String, ◌≡◌, ◌≢◌, refl, sym, ap, ◌∙◌, inl, inr, true, false, not, ◌&&◌, Option, none, some, List,
  [], ◌∷◌, arith,
}
use proofos.Prelude.Tests.{◌==◌, eq_iff, nat_eq, ltb, Bool-cases}
use proofos.Prelude.Lists.{◌∈◌}
use proofos.Prelude.Assoc.{Dict, get}
use proofos.Prelude.Results.{
  Result, ok, err, ◌>>=◌, ◌>>◌, raise_if, bind-ok, then-ok, raise_if-ok, passed_check, ok_inj,
}
use proofos.Integrity.{Hash}
use proofos.Journal.Events.{ExecutionEvent}
use proofos.Journal.Check.{verify_events}
use proofos.Checkpoint.{Phase, planned, OperationCheckpoint}
use proofos.Catalog.{AgentCatalog}
use proofos.Continuity.{
  ContinuityFailure, integrity_error, schema_unsupported, ContinuityStore, checkpoint_schema,
  restored, loaded, get_checkpoint,
}
use proofos.Resume.{
  readable, action_executed, execute, ResumePlan, count_actions, next_step_of, is_execute,
  check_policy, load_journal, check_journal, resolve_agents, some_operation, plan_of, resume_from,
  resume,
}

-- The steps of a resume that succeeded.
pub record Resumed (content_hash : Hash) (cat : AgentCatalog)
    (reader : String → Result (Unit {0}) (List ExecutionEvent)) (store : ContinuityStore)
    (operation_id : String) (plan : ResumePlan) : Type 0 where
  pub stored : get operation_id store ≡ some plan.checkpoint
  pub policy_checked : check_policy content_hash plan.checkpoint ≡ ok tt
  pub journal_loaded : load_journal content_hash reader plan.checkpoint ≡ ok plan.journal_events
  pub journal_checked : check_journal plan.checkpoint plan.journal_events ≡ ok tt
  pub agents_resolved : resolve_agents cat plan.checkpoint ≡ ok plan.agent_versions
  pub step_of_phase : plan.next_step ≡ next_step_of (plan.checkpoint).phase
  pub not_repeated :
      (ltb 0 (count_actions plan.journal_events)
        && is_execute (next_step_of (plan.checkpoint).phase))
      ≡ false

plan_of-parts :
    (c : OperationCheckpoint) (events : List ExecutionEvent) (versions : Dict String)
    (plan : ResumePlan)
    → plan_of c events versions ≡ ok plan
    → (plan.checkpoint ≡ c)
      × (plan.journal_events ≡ events)
      × (plan.agent_versions ≡ versions)
      × (plan.next_step ≡ next_step_of c.phase)
      × ((ltb 0 (count_actions events) && is_execute (next_step_of c.phase)) ≡ false)
plan_of-parts c events versions plan h =
    let g =
      then-ok
        (raise_if (ltb 0 (count_actions events) && is_execute (next_step_of c.phase))
          integrity_error)
        made h in
    let e = sym (ok_inj g.1) in
    (
      ap (λ (p : ResumePlan). p.checkpoint) e,
      ap (λ (p : ResumePlan). p.journal_events) e,
      ap (λ (p : ResumePlan). p.agent_versions) e,
      ap (λ (p : ResumePlan). p.next_step) e,
      raise_if-ok (ltb 0 (count_actions events) && is_execute (next_step_of c.phase))
          integrity_error g.0,
    )
  where
    made : Result ContinuityFailure ResumePlan
    made = ok (record {
      checkpoint = c;
      next_step = next_step_of c.phase;
      action_executions = count_actions events;
      agent_versions = versions;
      journal_events = events;
    })

readable-ok :
    (m : Result (Unit {0}) (List ExecutionEvent)) {events : List ExecutionEvent}
    → readable m ≡ ok events
    → m ≡ ok events
readable-ok (ok events) h = ap ok (ok_inj h)
readable-ok (err e) h = cc

-- A journal that was loaded is what the reader answered for the execution, and its chain verifies.
pub load_journal-ok :
    (content_hash : Hash) (reader : String → Result (Unit {0}) (List ExecutionEvent))
    (c : OperationCheckpoint) {events : List ExecutionEvent}
    → load_journal content_hash reader c ≡ ok events
    → (reader c.execution_id ≡ ok events) × ((verify_events content_hash events).0 ≡ true)
unfolding load_journal
load_journal-ok content_hash reader c h =
    let l = bind-ok (readable (reader c.execution_id)) checked h in
    let v =
      then-ok (raise_if (not (verify_events content_hash l.0).0) integrity_error) (ok l.0) l.2 in
    let same = ok_inj v.1 in
    (
      readable-ok (reader c.execution_id) l.1 ∙ ap ok same,
      ap (λ (es : List ExecutionEvent). (verify_events content_hash es).0) (sym same)
          ∙ passed_check (verify_events content_hash l.0).0 integrity_error v.0,
    )
  where
    checked : List ExecutionEvent → Result ContinuityFailure (List ExecutionEvent)
    checked events =
        raise_if (not (verify_events content_hash events).0) integrity_error >> ok events

-- A checkpoint that was loaded is the stored one.
loaded-some :
    (o found : Option OperationCheckpoint) (c : OperationCheckpoint)
    → loaded o ≡ ok found
    → some_operation found ≡ ok c
    → o ≡ some c
unfolding restored
loaded-some none found c h k = cc (ap some_operation (ok_inj h), k)
loaded-some (some d) found c h k =
    let r = bind-ok (restored d) (λ x. ok (some x)) h in
    let v =
      then-ok (raise_if (not (nat_eq d.schema checkpoint_schema)) schema_unsupported) (ok d) r.1 in
    cc (ok_inj v.1, ap some_operation (ok_inj r.2), k)

module _ (content_hash : Hash) (store : ContinuityStore) (cat : AgentCatalog)
    (reader : String → Result (Unit {0}) (List ExecutionEvent)) (operation_id : String) where
  from_steps :
      (c : OperationCheckpoint) (events : List ExecutionEvent) (versions : Dict String)
      (plan : ResumePlan)
      → get operation_id store ≡ some c
      → check_policy content_hash c ≡ ok tt
      → load_journal content_hash reader c ≡ ok events
      → check_journal c events ≡ ok tt
      → resolve_agents cat c ≡ ok versions
      → plan_of c events versions ≡ ok plan
      → Resumed content_hash cat reader store operation_id plan
  from_steps c events versions plan s p l j a h =
      let f = plan_of-parts c events versions plan h in
      record {
        stored = rw f.0 s;
        policy_checked = rw f.0 p;
        journal_loaded = rw (f.0, f.1) l;
        journal_checked = rw (f.0, f.1) j;
        agents_resolved = rw (f.0, f.2) a;
        step_of_phase = f.3 ∙ ap (λ (x : OperationCheckpoint). next_step_of x.phase) (sym f.0);
        not_repeated = rw (f.0, f.1) f.4;
      }

  pub resume-Resumed :
      (plan : ResumePlan)
      → resume content_hash store cat reader operation_id ≡ ok plan
      → Resumed content_hash cat reader store operation_id plan
  unfolding resume get_checkpoint
  resume-Resumed plan h =
      let o =
        bind-ok (get_checkpoint operation_id store)
          (λ o. some_operation o >>= resume_from content_hash cat reader) h in
      let c = bind-ok (some_operation o.0) (resume_from content_hash cat reader) o.2 in
      let p =
        then-ok (check_policy content_hash c.0)
          (load_journal content_hash reader c.0 >>= after_load c.0) c.2 in
      let l = bind-ok (load_journal content_hash reader c.0) (after_load c.0) p.1 in
      let j = then-ok (check_journal c.0 l.0) (resolve_agents cat c.0 >>= plan_of c.0 l.0) l.2 in
      let a = bind-ok (resolve_agents cat c.0) (plan_of c.0 l.0) j.1 in
      from_steps c.0 l.0 a.0 plan (loaded-some (get operation_id store) o.0 c.0 o.1 c.1) p.0 l.1 j.0
        a.1 a.2
    where
      after_load : OperationCheckpoint → List ExecutionEvent → Result ContinuityFailure ResumePlan
      after_load c events = check_journal c events >> (resolve_agents cat c >>= plan_of c events)

  counted :
      (events : List ExecutionEvent) (e : ExecutionEvent)
      → e ∈ events
      → e.status ≡ action_executed
      → ltb 0 (count_actions events) ≡ true
  unfolding count_actions
  counted [] e m s = absurd m
  counted (x ∷ xs) e (inl q) s =
      rw ((eq_iff x.status action_executed).1 (ap (λ (v : ExecutionEvent). v.status) (sym q) ∙ s))
        (ground arith)
  counted (x ∷ xs) e (inr m) s = elim (Bool-cases (x.status == action_executed)) [
    | inl q ↦ rw q (ground arith)
    | inr q ↦ rw q (counted xs e m s)
  ]

  executing-planned : (phase : Phase) → next_step_of phase ≡ execute → phase ≡ planned
  unfolding next_step_of
  executing-planned planned h = refl
  executing-planned Phase.action_complete h = cc
  executing-planned Phase.awaiting_independent_evidence h = cc
  executing-planned Phase.verifying h = cc
  executing-planned Phase.completed h = cc
  executing-planned Phase.abstained h = cc

  -- If a resumed operation may execute, then its plan has the checkpoint that the store holds for it,
  -- which is in the phase PLANNED, and the reader answered for this checkpoint's execution with a
  -- journal whose chain verifies, and in which no event says that the action was executed.
  pub resume_never_repeats :
      (plan : ResumePlan)
      → resume content_hash store cat reader operation_id ≡ ok plan
      → plan.next_step ≡ execute
      → (get operation_id store ≡ some plan.checkpoint)
        × ((plan.checkpoint).phase ≡ planned)
        × (events : List ExecutionEvent) × (reader (plan.checkpoint).execution_id ≡ ok events)
        × ((verify_events content_hash events).0 ≡ true)
        × ((e : ExecutionEvent) → e ∈ events → e.status ≢ action_executed)
  resume_never_repeats plan h x =
      let r = resume-Resumed plan h in
      let step = sym r.step_of_phase ∙ x in
      let l = load_journal-ok content_hash reader plan.checkpoint r.journal_loaded in
      (
        r.stored,
        executing-planned (plan.checkpoint).phase step,
        plan.journal_events,
        l.0,
        l.1,
        λ e m s. cc (counted plan.journal_events e m s, r.not_repeated, step),
      )
