-- ===== src/Resume/Grounded.antt =====
-- What a resumed operation rests on.
use mathlib.Core.Path.{subst}
use proofos.Prelude.{
  ℕ, String, ◌≡◌, refl, sym, ap, ◌∙◌, ◌⊎◌, inl, inr, Bool, true, not, some, List, [], ◌∷◌,
}
use proofos.Prelude.Tests.{◌==◌, eq_iff, nat_eq, nat_eq_iff, Bool-cases, Option-cases}
use proofos.Prelude.Lists.{◌∈◌}
use proofos.Prelude.Int.{ℤ, pos, negsuc, leb_ℤ}
use proofos.Prelude.Sort.{insert, sorted_by}
use proofos.Prelude.Assoc.{Dict, put}
use proofos.Prelude.Results.{
  Result, ok, err, ◌>>◌, raise_if, bind-ok, then-ok, passed_check, ok_inj,
}
use proofos.Integrity.{Hash}
use proofos.Journal.Events.{ExecutionEvent}
use proofos.Journal.Check.{verify_events}
use proofos.Checkpoint.{OperationCheckpoint}
use proofos.Catalog.{AgentCard, AgentCatalog, CatalogError, require_card}
use proofos.Catalog.Grants.{require_card-found}
use proofos.Continuity.{
  ContinuityFailure, integrity_error, agent_version_mismatch, policy_digest, journal_head, leb_pair,
  ContinuityStore,
}
use proofos.Resume.{
  ResumePlan, check_policy, recorded_hash, check_position, check_journal, offered, resolve_all,
  resolve_agents, resume,
}
use proofos.Resume.Once.{load_journal-ok, resume-Resumed}

-- The sort keeps every entry.
mem-insert :
    {A : Type 0} (le : A → A → Bool) (x y : A) (ys : List A)
    → (y ≡ x) ⊎ (y ∈ ys)
    → y ∈ insert le x ys
unfolding insert
mem-insert le x y [] m = m
mem-insert le x y (z ∷ zs) m = elim (Bool-cases (le x z)) [
  | inl e ↦ rw e m
  | inr e ↦ rw e (elim m [
    | inl q ↦ inr (mem-insert le x y zs (inl q))
    | inr n ↦ elim n [ inl q ↦ inl q | inr q ↦ inr (mem-insert le x y zs (inr q)) ]
  ])
]

mem-sorted_by :
    {A : Type 0} (le : A → A → Bool) (y : A) (xs : List A) → y ∈ xs → y ∈ sorted_by le xs
unfolding sorted_by
mem-sorted_by le y [] m = m
mem-sorted_by le y (x ∷ xs) (inl q) = mem-insert le x y (sorted_by le xs) (inl q)
mem-sorted_by le y (x ∷ xs) (inr m) =
    mem-insert le x y (sorted_by le xs) (inr (mem-sorted_by le y xs m))

offered-ok :
    (m : Result CatalogError AgentCard) {card : AgentCard} → offered m ≡ ok card → m ≡ ok card
offered-ok (ok card) h = ap ok (ok_inj h)
offered-ok (err e) h = cc

-- A pinned version is offered by the catalog as it is.
abbrev pub Offered : AgentCatalog → String × String → Type 0
Offered cat pin =
    (card : AgentCard) × (card ∈ cat.cards) × (card.agent_id ≡ pin.0) × (card.version ≡ pin.1)

resolve_all-Offered :
    (cat : AgentCatalog) (pins resolved versions : Dict String)
    → resolve_all cat pins resolved ≡ ok versions
    → (pin : String × String) → pin ∈ pins
    → Offered cat pin
unfolding resolve_all
resolve_all-Offered cat [] resolved versions h pin m = absurd m
resolve_all-Offered cat ((agent_id, version) ∷ rest) resolved versions h pin m =
    let o = bind-ok (offered (require_card agent_id version cat)) after_offer h in
    let g =
      then-ok (raise_if (not ((o.0).version == version)) agent_version_mismatch)
        (resolve_all cat rest (put agent_id (o.0).version resolved)) o.2 in
    let f =
      require_card-found agent_id version cat
        (offered-ok (require_card agent_id version cat) o.1) in
    elim m [
      | inl e ↦ subst (Offered cat) (sym e) (o.0, f.0, f.1, f.2)
      | inr later ↦
          resolve_all-Offered cat rest (put agent_id (o.0).version resolved) versions g.1 pin later
    ]
  where
    after_offer : AgentCard → Result ContinuityFailure (Dict String)
    after_offer card =
        raise_if (not (card.version == version)) agent_version_mismatch
        >> resolve_all cat rest (put agent_id card.version resolved)

-- The event that a hash was recorded for.
recorded_hash-mem :
    (n : ℕ) (events : List ExecutionEvent) (h : String)
    → recorded_hash n events ≡ some h
    → (e : ExecutionEvent) × (e ∈ events) × (e.sequence ≡ n) × (e.content_hash ≡ h)
unfolding recorded_hash
recorded_hash-mem n [] h q = cc
recorded_hash-mem n (e ∷ es) h q = elim (Option-cases (recorded_hash n es)) [
  | inr (k, later) ↦
      let r = recorded_hash-mem n es h (later ∙ (rw later at q)) in (r.0, inr r.1, r.2, r.3)
  | inl gone ↦ elim (Bool-cases (nat_eq e.sequence n)) [
    | inl here ↦ (e, inl refl, (nat_eq_iff e.sequence n).0 here, cc (rw (gone, here) at q))
    | inr elsewhere ↦ cc (rw (gone, elsewhere) at q)
  ]
]

-- The position of a checkpoint: before every event, or at an event with the recorded hash.
abbrev pub AtEvent : OperationCheckpoint → List ExecutionEvent → Type 0
AtEvent c events =
    ((n : ℕ) × (c.last_journal_sequence ≡ negsuc n))
    ⊎ ((e : ExecutionEvent) × (e ∈ events)
        × (c.last_journal_sequence ≡ pos e.sequence)
        × (e.content_hash ≡ c.last_journal_hash))

check_position-AtEvent :
    (c : OperationCheckpoint) (events : List ExecutionEvent) (z : ℤ)
    → c.last_journal_sequence ≡ z
    → check_position c events z ≡ ok tt
    → AtEvent c events
check_position-AtEvent c events (negsuc n) q h = inl (n, q)
check_position-AtEvent c events (pos n) q h = elim (Option-cases (recorded_hash n events)) [
  | inl e ↦ cc (rw e at h)
  | inr (k, e) ↦
      let r = recorded_hash-mem n events k e in
      let same =
        (eq_iff k c.last_journal_hash).0
          (passed_check (k == c.last_journal_hash) integrity_error (rw e at h)) in
      inr (r.0, r.1, q ∙ ap pos (sym r.2), r.3 ∙ same)
]

-- What a plan rests on: the policy digest of its checkpoint, the journal as it was read, unbroken and
-- holding the checkpoint's position, and every pinned agent version in the catalog.
pub record Grounded (content_hash : Hash) (cat : AgentCatalog)
    (reader : String → Result (Unit {0}) (List ExecutionEvent)) (plan : ResumePlan) : Type 0 where
  pub same_policy :
      policy_digest content_hash
        (plan.checkpoint).requirements
        (plan.checkpoint).assigned_agent_versions
      ≡ (plan.checkpoint).policy_digest
  pub as_read : reader (plan.checkpoint).execution_id ≡ ok plan.journal_events
  pub unbroken : (verify_events content_hash plan.journal_events).0 ≡ true
  pub at_event : AtEvent plan.checkpoint plan.journal_events
  pub pinned :
      (pin : String × String) → pin ∈ (plan.checkpoint).assigned_agent_versions → Offered cat pin

-- A resumed operation has requirements and agents that match their digest, and the journal that was
-- read for its execution has a chain that verifies. If the checkpoint's position is not negative, the
-- journal has an event at this position with the checkpoint's hash; a negative position is taken
-- with any hash. Every agent that is pinned is in the catalog at exactly this version.
pub resume-Grounded :
    (content_hash : Hash) (store : ContinuityStore) (cat : AgentCatalog)
    (reader : String → Result (Unit {0}) (List ExecutionEvent)) (operation_id : String)
    (plan : ResumePlan)
    → resume content_hash store cat reader operation_id ≡ ok plan
    → Grounded content_hash cat reader plan
unfolding check_policy check_journal resolve_agents
resume-Grounded content_hash store cat reader operation_id plan h =
    let r = resume-Resumed content_hash store cat reader operation_id plan h in
    let l = load_journal-ok content_hash reader plan.checkpoint r.journal_loaded in
    let j =
      then-ok
        (raise_if
          (not (leb_ℤ (plan.checkpoint).last_journal_sequence (journal_head plan.journal_events).0))
          integrity_error)
        (check_position plan.checkpoint plan.journal_events (plan.checkpoint).last_journal_sequence)
        r.journal_checked in
    record {
      same_policy =
          (eq_iff _ (plan.checkpoint).policy_digest).0
            (passed_check _ integrity_error r.policy_checked);
      as_read = l.0;
      unbroken = l.1;
      at_event =
          check_position-AtEvent plan.checkpoint plan.journal_events
            (plan.checkpoint).last_journal_sequence refl j.1;
      pinned = λ pin m.
          resolve_all-Offered cat (sorted_by leb_pair (plan.checkpoint).assigned_agent_versions) []
            plan.agent_versions r.agents_resolved pin
            (mem-sorted_by leb_pair pin (plan.checkpoint).assigned_agent_versions m);
    }
