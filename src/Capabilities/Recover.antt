-- ===== src/Capabilities/Recover.antt =====
-- The recovery that the program is for: after a refusal, a granted collector's healthy observation
-- makes the task VERIFIED.
use proofos.Prelude.{
  ℕ, String, ◌≡◌, ◌≢◌, refl, ap, ◌∙◌, ◌⊎◌, inl, inr, true, false, Option, none, some, List, [], ◌∷◌,
  ◌++◌, map,
}
use proofos.Prelude.Tests.{◌==◌, eq_refl, nat_eq_iff}
use proofos.Prelude.Int.{ℤ}
use proofos.Prelude.Time.{Time, IsNumber}
use proofos.Prelude.Lists.{◌∈◌, any-true_of}
use proofos.Prelude.Results.{ok}
use proofos.Prelude.Text.{strip, blank}
use proofos.Prelude.Assoc.{get, put, get-put_self}
use proofos.Integrity.{Hash}
use proofos.Verifier.Types.{
  verified, Evidence, observed, Requirement, VerificationResult, requirement, item, with_hash,
  intact,
}
use proofos.Verifier.Verify.{collect, as_requirement, reference_time, verify_completion}
use proofos.Verifier.Evaluate.{timestamp}
use proofos.Verifier.Settled.{IsFresh, Settled, IsTimed}
use proofos.Verifier.Declared.{collect_iff}
use proofos.Verifier.Soundness.{Justified-verified}
use proofos.Verifier.Independence.{as_evidence-map, timed_map}
use proofos.Ledger.{TaskRecord, EvidenceLedger, check_grant, check_intact, require}
use proofos.Ledger.Authority.{mem-snoc}
use proofos.Capabilities.{
  ObservationCapability, observation_evidence, collection_time, record_observation, verify_task,
}

-- The evidence that a constructor makes is intact.
with_hash-intact :
    (content_hash : Hash) (e : Evidence)
    → e.content_hash ≡ ""
    → intact content_hash (with_hash content_hash e) ≡ true
unfolding with_hash intact
with_hash-intact content_hash e h = rw (h, eq_refl)

check_intact-ok :
    (content_hash : Hash) (task_id : String) (es : List Evidence)
    → ((e : Evidence) → e ∈ es → intact content_hash e ≡ true)
    → check_intact content_hash task_id es ≡ ok tt
unfolding check_intact
check_intact-ok content_hash task_id [] h = refl
check_intact-ok content_hash task_id (e ∷ es) h =
    rw (h e (inl refl)) (check_intact-ok content_hash task_id es (λ d m. h d (inr m)))

collect-one :
    (r : Requirement) → blank r.kind ≡ false → collect [] (map requirement (r ∷ [])) ≡ r ∷ []
unfolding collect
collect-one r h = rw (collect, as_requirement, h)

mem-snoc_last : (xs : List Evidence) (x : Evidence) → x ∈ (xs ++ x ∷ [])
mem-snoc_last [] x = inl refl
mem-snoc_last (y ∷ xs) x = inr (mem-snoc_last xs x)

-- A collector that holds a grant of the ledger for the requirement's kind.
pub record Holds (cap : ObservationCapability) (l : EvidenceLedger) (kind : String) : Type 0 where
  pub issued_here : cap.grant.issuer ≡ l.marker
  pub covers : kind ∈ cap.grant.kinds
  pub own_name : cap.agent_id ≡ cap.grant.collector_id

-- A task with one requirement, for which there are only intact self-reports so far.
pub record Awaits (content_hash : Hash) (l : EvidenceLedger) (task_id : String) (t : TaskRecord)
    (r : Requirement) : Type 0 where
  pub known : get task_id l.tasks ≡ some t
  pub only : t.required_kinds ≡ r ∷ []
  pub kind_stripped : strip r.kind ≡ r.kind
  pub kind_text : blank r.kind ≡ false
  pub unchanged : (e : Evidence) → e ∈ t.evidence → intact content_hash e ≡ true
  pub unobserved : (e : Evidence) → e ∈ t.evidence → e.source ≢ observed

check_grant-passes :
    (cap : ObservationCapability) (l : EvidenceLedger) (e : Evidence)
    → Holds cap l e.kind
    → e.collector ≡ cap.agent_id
    → check_grant l e (some cap.grant) ≡ ok tt
unfolding check_grant
check_grant-passes cap l e h c = rw (
  h.issued_here,
  (nat_eq_iff l.marker l.marker).1 refl,
  any-true_of (λ k. k == e.kind) cap.grant.kinds {x = e.kind} h.covers (eq_refl e.kind),
  c,
  h.own_name,
  eq_refl,
)

module _ (content_hash : Hash) (cap : ObservationCapability) (clock : ℤ) (ident : ℕ)
    (task_id value : String) (at : Option Time) (l : EvidenceLedger) (t : TaskRecord)
    (r : Requirement) (awaits : Awaits content_hash l task_id t r)
    (holds : Holds cap l r.kind) where
  abbrev pub seen : Evidence
  seen = observation_evidence content_hash cap clock ident r.kind value true at

  abbrev pub grown : TaskRecord
  grown = record t { evidence = t.evidence ++ seen ∷ [] }

  abbrev pub observed_ledger : EvidenceLedger
  observed_ledger = record l { tasks = put task_id grown l.tasks }

  -- What the new item is.
  seen_fields :
      (seen.kind ≡ r.kind)
      × (seen.value ≡ value)
      × (seen.source ≡ observed)
      × (seen.valid ≡ true)
      × (seen.collected_at ≡ some (collection_time at clock))
      × (seen.collector ≡ cap.agent_id)
      × (intact content_hash seen ≡ true)
  unfolding observation_evidence
  seen_fields = (refl, refl, refl, refl, refl, refl, with_hash-intact content_hash _ refl)

  recorded :
      record_observation content_hash cap clock ident task_id r.kind value true at l
      ≡ ok (seen, observed_ledger)
  unfolding record_observation
  recorded =
      rw (
        check_grant-passes cap l seen (rw seen_fields.0 holds) seen_fields.5,
        require,
        awaits.known,
      )

  grown_intact : (e : Evidence) → e ∈ grown.evidence → intact content_hash e ≡ true
  grown_intact e m = elim (mem-snoc t.evidence seen e m) [
    | inl old ↦ awaits.unchanged e old
    | inr same ↦ ap (intact content_hash) same ∙ seen_fields.6
  ]

  -- The new item is the only observation.
  grown_observed : (e : Evidence) → e ∈ grown.evidence → e.source ≡ observed → e ≡ seen
  grown_observed e m s = elim (mem-snoc t.evidence seen e m) [
    | inl old ↦ absurd (awaits.unobserved e old s)
    | inr same ↦ same
  ]

  module _ (now : ℤ) (healthy : blank value ≡ false)
      (in_time : IsFresh r.max_age_seconds now (some (collection_time at clock)))
      (number_time : IsNumber (collection_time at clock)) where
    grown_Settled : Settled r now grown.evidence
    grown_Settled = record {
      witness = seen;
      witness_mem = mem-snoc_last t.evidence seen;
      witness_counts = record {
        same_kind = ap strip seen_fields.0 ∙ awaits.kind_stripped;
        from_observer = seen_fields.2;
        in_time = rw seen_fields.4 in_time;
      };
      latest_sound = λ e m c latest.
          let same = grown_observed e m c.from_observer in
          (
            ap (λ (d : Evidence). d.valid) same ∙ seen_fields.3,
            ap (λ (d : Evidence). blank d.value) same ∙ ap blank seen_fields.1 ∙ healthy,
          );
    }

    grown-IsTimed : IsTimed grown.evidence
    unfolding timestamp
    grown-IsTimed e m s = rw (grown_observed e m s, timestamp, seen_fields.4) number_time

    grown_verified :
        (claim : String)
        → blank claim ≡ false
        → (verify_completion content_hash
            (some claim)
            (ok (map item grown.evidence))
            (ok (map requirement grown.required_kinds))
            none
            now).status
          ≡ verified
    unfolding reference_time
    grown_verified claim said =
        let only : collect [] (map requirement grown.required_kinds) ≡ r ∷ [] =
          rw awaits.only (collect-one r awaits.kind_text) in
        Justified-verified content_hash (some claim) (ok (map item grown.evidence))
          (ok (map requirement grown.required_kinds)) none now
          (record {
            words = claim;
            claimed = refl;
            not_blank = said;
            raws = map requirement grown.required_kinds;
            declared = refl;
            first = r;
            first_declared =
                (collect_iff (map requirement grown.required_kinds) r).0 (rw only (inl refl));
            raw_items = map item grown.evidence;
            offered = refl;
            items = grown.evidence;
            all_evidence = as_evidence-map grown.evidence;
            all_intact = grown_intact;
            all_settled = λ q f.
                by_only q (rw only at ((collect_iff (map requirement grown.required_kinds) q).1 f));
          })
          (timed_map grown.evidence grown-IsTimed)
      where
        by_only : (q : Requirement) → (q ≡ r) ⊎ ⊥ → Settled q now grown.evidence
        by_only q (inl e) = rw e grown_Settled
        by_only q (inr m) = absurd m

    -- If a task has one requirement, whose kind is not blank and has no spaces around it, and only
    -- intact items that are no observations, and a collector holds a grant of the ledger for this
    -- kind, then the collector's observation that the contract was met, with a value that is not
    -- blank and a time that is not NaN, is recorded, and from then on, as long as it is within the
    -- requirement's horizon, a claim that is not blank is VERIFIED.
    pub observation_certifies :
        (claim : String)
        → blank claim ≡ false
        → (record_observation content_hash cap clock ident task_id r.kind value true at l
            ≡ ok (seen, observed_ledger))
          × ((v : VerificationResult) × (verify_task content_hash now task_id claim observed_ledger
                ≡ ok v)
              × (v.status ≡ verified))
    unfolding verify_task
    observation_certifies claim said = (
      recorded,
      (
        verify_completion content_hash (some claim) (ok (map item grown.evidence))
            (ok (map requirement grown.required_kinds)) none now,
        rw (
          require,
          get-put_self task_id grown l.tasks,
          check_intact-ok content_hash task_id grown.evidence grown_intact,
        ),
        grown_verified claim said,
      ),
    )
