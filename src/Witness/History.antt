-- ===== src/Witness/History.antt =====
-- The histories that a witness's own observations build.
use proofos.Prelude.{
  ℕ, ◌+◌, String, ◌≡◌, refl, ap, true, Option, none, some, List, [], ◌∷◌, ◌++◌, arith,
}
use proofos.Prelude.Tests.{eq_iff, eq_refl, nat_eq_iff}
use proofos.Prelude.Int.{ℤ}
use proofos.Prelude.Results.{ok}
use proofos.Integrity.{Hash}
use proofos.Checkpoint.{SignedCheckpoint}
use proofos.Witness.Observe.{
  WitnessRecord, WitnessLedger, follows, witness_genesis, unsigned_fields, record_intact, history,
  latest_of, admit, new_record, drift, record_problems,
}

abbrev pub SameParty : Option WitnessRecord → WitnessRecord → Type 0
SameParty none r = Unit
SameParty (some prior) r = (r.signer_id ≡ prior.signer_id) × (r.execution_id ≡ prior.execution_id)

-- Each record intact, behind its predecessor, with the next version, the same signer and execution.
abbrev pub IsHistory : Hash → ℕ → String → Option WitnessRecord → List WitnessRecord → Type 0
IsHistory content_hash index previous prior [] = Unit
IsHistory content_hash index previous prior (r ∷ rs) =
    (record_intact content_hash r ≡ true)
    × (r.previous_record_hash ≡ previous)
    × (r.checkpoint_version ≡ index + 1)
    × SameParty prior r
    × IsHistory content_hash (index + 1) r.record_hash (some r) rs

no_drift :
    (index : ℕ) (prior : Option WitnessRecord) (r : WitnessRecord)
    → SameParty prior r
    → drift index prior r ≡ []
no_drift index none r same = refl
no_drift index (some prior) r same = rw (
  (eq_iff r.signer_id prior.signer_id).1 same.0,
  (eq_iff r.execution_id prior.execution_id).1 same.1,
)

module _ (content_hash : Hash) where
  pub problems-IsHistory :
      (index : ℕ) (previous : String) (prior : Option WitnessRecord) (rs : List WitnessRecord)
      → IsHistory content_hash index previous prior rs
      → record_problems content_hash index previous prior rs ≡ []
  unfolding record_problems
  problems-IsHistory index previous prior [] h = refl
  problems-IsHistory index previous prior (r ∷ rs) h = rw (
    h.0,
    (eq_iff r.previous_record_hash previous).1 h.1,
    (nat_eq_iff r.checkpoint_version (index + 1)).1 h.2,
    no_drift index prior r h.3,
    problems-IsHistory (index + 1) r.record_hash (some r) rs h.4,
  )

  -- One more record behind the latest.
  pub IsHistory-snoc :
      (index : ℕ) (previous : String) (prior : Option WitnessRecord) (rs : List WitnessRecord)
      (latest r : WitnessRecord)
      → IsHistory content_hash index previous prior rs
      → latest_of rs ≡ some latest
      → record_intact content_hash r ≡ true
      → r.previous_record_hash ≡ latest.record_hash
      → r.checkpoint_version ≡ latest.checkpoint_version + 1
      → SameParty (some latest) r
      → IsHistory content_hash index previous prior (rs ++ r ∷ [])
  unfolding latest_of
  IsHistory-snoc index previous prior [] latest r h l i p v same = cc
  IsHistory-snoc index previous prior (x ∷ []) latest r h l i p v same =
      let e : x ≡ latest = cc in
      (
        h.0,
        h.1,
        h.2,
        h.3,
        (
          i,
          rw e p,
          omega (arith, v, h.2, ap (λ (q : WitnessRecord). q.checkpoint_version) e),
          rw e same,
          tt,
        ),
      )
  IsHistory-snoc index previous prior (x ∷ y ∷ rs) latest r h l i p v same = (
    h.0,
    h.1,
    h.2,
    h.3,
    IsHistory-snoc (index + 1) x.record_hash (some x) (y ∷ rs) latest r h.4 l i p v same,
  )

  -- What the checks against the latest record leave.
  pub admit-follows :
      (s : SignedCheckpoint) (latest : WitnessRecord) (previous : String)
      → admit content_hash s (some latest) ≡ ok (follows previous)
      → (previous ≡ latest.record_hash)
        × (s.checkpoint_version ≡ latest.checkpoint_version + 1)
        × (s.signer_id ≡ latest.signer_id)
        × (s.execution_id ≡ latest.execution_id)
  unfolding admit
  admit-follows s latest previous h = (
    ground arith,
    (nat_eq_iff s.checkpoint_version (latest.checkpoint_version + 1)).0 (ground arith),
    (eq_iff s.signer_id latest.signer_id).0 (ground arith),
    (eq_iff s.execution_id latest.execution_id).0 (ground arith),
  )

  pub admit-first :
      (s : SignedCheckpoint) (previous : String)
      → admit content_hash s none ≡ ok (follows previous)
      → (previous ≡ witness_genesis) × (s.checkpoint_version ≡ 1)
  unfolding admit
  admit-first s previous h = (ground arith, (nat_eq_iff s.checkpoint_version 1).0 (ground arith))

  pub new_record-intact :
      (witness_id : String) (s : SignedCheckpoint) (stamp : ℤ) (previous : String)
      → record_intact content_hash (new_record content_hash witness_id s stamp previous) ≡ true
  unfolding record_intact new_record unsigned_fields
  new_record-intact witness_id s stamp previous = rw eq_refl

  -- The history of every operation is unbroken.
  pub record IsWitness (w : WitnessLedger) : Type 0 where
    pub of_operation : (k : String) → IsHistory content_hash 0 witness_genesis none (history k w)
