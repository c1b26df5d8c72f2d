-- ===== src/Witness/Promises.antt =====
-- What a witness promises of the records that it holds: one per version, never lost, and each from
-- a signed checkpoint.
use mathlib.Core.Path.{subst}
use proofos.Prelude.{
  ℕ, ◌+◌, ◌≤◌, String, ◌≡◌, refl, sym, ap, ◌∙◌, ◌⊎◌, inl, inr, Option, none, some, List, [], ◌∷◌,
  ◌++◌, arith,
}
use proofos.Prelude.Tests.{◌==◌, eq_iff, Bool-cases}
use proofos.Prelude.Lists.{◌∈◌}
use proofos.Prelude.Int.{ℤ}
use proofos.Prelude.Results.{Result, ok, err}
use proofos.Integrity.{Hash}
use proofos.Ledger.Authority.{mem-snoc}
use proofos.Checkpoint.{verify_checkpoint}
use proofos.Checkpoint.Binding.{SignatureHolds, Binds, verify_checkpoint-Binds}
use proofos.Witness.Observe.{
  WitnessError, WitnessRecord, WitnessLedger, Admission, repeats, follows, witness_genesis, history,
  new_record, place,
}
use proofos.Witness.History.{IsHistory}
use proofos.Witness.Sequence.{
  Observation, kept, observe_one, observe_all, observe-ok, history-put, observe_all-IsWitness,
  new-IsWitness,
}

module _ (content_hash : Hash) where
  later_version :
      (index : ℕ) (previous : String) (prior : Option WitnessRecord) (rs : List WitnessRecord)
      (r : WitnessRecord)
      → IsHistory content_hash index previous prior rs
      → r ∈ rs
      → index + 1 ≤ r.checkpoint_version
  later_version index previous prior [] r h m = absurd m
  later_version index previous prior (x ∷ xs) r h (inl e) =
      omega (arith, h.2, ap (λ (q : WitnessRecord). q.checkpoint_version) e)
  later_version index previous prior (x ∷ xs) r h (inr m) =
      omega (arith, later_version (index + 1) x.record_hash (some x) xs r h.4 m)

  one_per_version :
      (index : ℕ) (previous : String) (prior : Option WitnessRecord) (rs : List WitnessRecord)
      (a b : WitnessRecord)
      → IsHistory content_hash index previous prior rs
      → a ∈ rs
      → b ∈ rs
      → a.checkpoint_version ≡ b.checkpoint_version
      → a ≡ b
  one_per_version index previous prior [] a b h m n e = absurd m
  one_per_version index previous prior (x ∷ xs) a b h (inl p) (inl q) e = cc
  one_per_version index previous prior (x ∷ xs) a b h (inl p) (inr n) e = absurd (
      omega (
        arith,
        later_version (index + 1) x.record_hash (some x) xs b h.4 n,
        h.2,
        e,
        ap (λ (q : WitnessRecord). q.checkpoint_version) p,
      ))
  one_per_version index previous prior (x ∷ xs) a b h (inr m) (inl q) e = absurd (
      omega (
        arith,
        later_version (index + 1) x.record_hash (some x) xs a h.4 m,
        h.2,
        e,
        ap (λ (q : WitnessRecord). q.checkpoint_version) q,
      ))
  one_per_version index previous prior (x ∷ xs) a b h (inr m) (inr n) e =
      one_per_version (index + 1) x.record_hash (some x) xs a b h.4 m n e

  -- Whatever envelopes a new witness is shown, two records that it holds for one operation with the
  -- same checkpoint version are the same record: no version is witnessed with two digests.
  pub no_equivocation :
      (witness_id : String) (os : List Observation) (operation_id : String) (a b : WitnessRecord)
      → a
        ∈ history operation_id
            (observe_all content_hash os (record { witness_id = witness_id; records = [] }))
      → b
        ∈ history operation_id
            (observe_all content_hash os (record { witness_id = witness_id; records = [] }))
      → a.checkpoint_version ≡ b.checkpoint_version
      → a ≡ b
  no_equivocation witness_id os operation_id a b m n e =
      one_per_version 0 witness_genesis none
        (history operation_id
          (observe_all content_hash os (record { witness_id = witness_id; records = [] })))
        a b
        ((observe_all-IsWitness content_hash os (record { witness_id = witness_id; records = [] })
            (new-IsWitness content_hash witness_id)).of_operation
          operation_id)
        m n e

  -- The record comes from a call whose envelope was verified: its signature holds, and the record
  -- has the envelope's operation, signer, version, digest and journal position.
  pub record Signed (o : Observation) (r : WitnessRecord) : Type 0 where
    pub signature_holds : SignatureHolds o.library o.envelope
    pub binds : Binds content_hash o.envelope o.checkpoint
    pub same_operation : r.operation_id ≡ (o.envelope).operation_id
    pub same_signer : r.signer_id ≡ (o.envelope).signer_id
    pub same_execution : r.execution_id ≡ (o.envelope).execution_id
    pub same_version : r.checkpoint_version ≡ (o.envelope).checkpoint_version
    pub same_digest : r.checkpoint_digest ≡ (o.envelope).checkpoint_digest
    pub same_position : r.last_journal_sequence ≡ (o.envelope).last_journal_sequence
    pub same_journal_hash : r.last_journal_hash ≡ (o.envelope).last_journal_hash
    pub same_signature : r.checkpoint_signature ≡ (o.envelope).signature

  -- Every record is old, or signed by this call.
  place-Signed :
      (o : Observation) (w : WitnessLedger) (stamp : ℤ) (a : Admission) (k : String)
      (r : WitnessRecord)
      → verify_checkpoint o.library content_hash o.envelope o.checkpoint ≡ ok tt
      → r ∈ history k (place content_hash o.envelope stamp w a).1
      → (r ∈ history k w) ⊎ (((o.envelope).operation_id ≡ k) × Signed o r)
  unfolding new_record
  place-Signed o w stamp (repeats latest) k r v m = inl m
  place-Signed o w stamp (follows previous) k r v m =
      elim (Bool-cases ((o.envelope).operation_id == k)) [
        | inl e ↦ by_place ((eq_iff (o.envelope).operation_id k).0 e) (
            mem-snoc (history (o.envelope).operation_id w)
              (new_record content_hash w.witness_id o.envelope stamp previous) r
              (rw (history-put, e) at m))
        | inr e ↦ inl (rw (history-put, e) at m)
      ]
    where
      by_place :
          (o.envelope).operation_id ≡ k
          → (r ∈ history (o.envelope).operation_id w)
            ⊎ (r ≡ new_record content_hash w.witness_id o.envelope stamp previous)
          → (r ∈ history k w) ⊎ (((o.envelope).operation_id ≡ k) × Signed o r)
      by_place e (inl old) = inl (rw e at old)
      by_place e (inr new) =
          let b = verify_checkpoint-Binds o.library content_hash o.envelope o.checkpoint v in
          inr (
            e,
            record {
              signature_holds = b.1;
              binds = b.2;
              same_operation = ap (λ (q : WitnessRecord). q.operation_id) new;
              same_signer = ap (λ (q : WitnessRecord). q.signer_id) new;
              same_execution = ap (λ (q : WitnessRecord). q.execution_id) new;
              same_version = ap (λ (q : WitnessRecord). q.checkpoint_version) new;
              same_digest = ap (λ (q : WitnessRecord). q.checkpoint_digest) new;
              same_position = ap (λ (q : WitnessRecord). q.last_journal_sequence) new;
              same_journal_hash = ap (λ (q : WitnessRecord). q.last_journal_hash) new;
              same_signature = ap (λ (q : WitnessRecord). q.checkpoint_signature) new;
            },
          )

  step-Signed :
      (o : Observation) (w : WitnessLedger) (k : String) (r : WitnessRecord)
      → r ∈ history k (kept w (observe_one content_hash o w))
      → (r ∈ history k w) ⊎ (((o.envelope).operation_id ≡ k) × Signed o r)
  step-Signed o w k r m = by_result (observe_one content_hash o w) refl m
    where
      by_result :
          (c : Result WitnessError (WitnessRecord × WitnessLedger))
          → observe_one content_hash o w ≡ c
          → r ∈ history k (kept w c)
          → (r ∈ history k w) ⊎ (((o.envelope).operation_id ≡ k) × Signed o r)
      by_result (err e) q m = inl m
      by_result (ok (x, w')) q m =
          let f = observe-ok content_hash o w q in
          place-Signed o w f.0 f.1 k r f.2 (
            subst (λ (v : WitnessLedger). r ∈ history k v)
              (sym (ap (λ (p : WitnessRecord × WitnessLedger). p.1) f.5)) m)

  -- Every record that a witness holds after some calls it held before, or one of the calls showed it
  -- an envelope for this operation, signed by the key of that call and bound to the checkpoint, and
  -- the record has the envelope's operation, signer, execution, version, digest, journal position
  -- and hash, and signature.
  pub witnessed-Signed :
      (os : List Observation) (w : WitnessLedger) (operation_id : String) (r : WitnessRecord)
      → r ∈ history operation_id (observe_all content_hash os w)
      → (r ∈ history operation_id w)
        ⊎ ((o : Observation) × (o ∈ os) × ((o.envelope).operation_id ≡ operation_id) × Signed o r)
  unfolding observe_all
  witnessed-Signed [] w k r m = inl m
  witnessed-Signed (o ∷ os) w k r m =
      elim (witnessed-Signed os (kept w (observe_one content_hash o w)) k r m) [
        | inr (o', n, e, s) ↦ inr (o', inr n, e, s)
        | inl before ↦ elim (step-Signed o w k r before) [
          | inl old ↦ inl old
          | inr (e, s) ↦ inr (o, inl refl, e, s)
        ]
      ]

  append_assoc : (xs ys zs : List WitnessRecord) → (xs ++ ys) ++ zs ≡ xs ++ (ys ++ zs)
  append_assoc [] ys zs = refl
  append_assoc (x ∷ xs) ys zs = ap (◌∷◌ x) (append_assoc xs ys zs)

  append_nil : (xs : List WitnessRecord) → xs ++ [] ≡ xs
  append_nil [] = refl
  append_nil (x ∷ xs) = ap (◌∷◌ x) (append_nil xs)

  abbrev Extends : List WitnessRecord → List WitnessRecord → Type 0
  Extends rs ss = (more : List WitnessRecord) × (ss ≡ rs ++ more)

  place-Extends :
      (o : Observation) (w : WitnessLedger) (stamp : ℤ) (a : Admission) (k : String)
      → Extends (history k w) (history k (place content_hash o.envelope stamp w a).1)
  place-Extends o w stamp (repeats latest) k = ([], sym (append_nil (history k w)))
  place-Extends o w stamp (follows previous) k =
      elim (Bool-cases ((o.envelope).operation_id == k)) [
        | inl e ↦ (
          new_record content_hash w.witness_id o.envelope stamp previous ∷ [],
          rw (history-put, e, (eq_iff (o.envelope).operation_id k).0 e),
        )
        | inr e ↦ ([], rw (history-put, e, append_nil (history k w)))
      ]

  step-Extends :
      (o : Observation) (w : WitnessLedger) (k : String)
      → Extends (history k w) (history k (kept w (observe_one content_hash o w)))
  step-Extends o w k = by_result (observe_one content_hash o w) refl
    where
      by_result :
          (c : Result WitnessError (WitnessRecord × WitnessLedger))
          → observe_one content_hash o w ≡ c
          → Extends (history k w) (history k (kept w c))
      by_result (err e) q = ([], sym (append_nil (history k w)))
      by_result (ok (x, w')) q =
          let f = observe-ok content_hash o w q in
          subst (λ (v : WitnessLedger). Extends (history k w) (history k v))
            (ap (λ (p : WitnessRecord × WitnessLedger). p.1) f.5) (place-Extends o w f.0 f.1 k)

  -- Whatever it is shown, a witness only adds records behind those that it has.
  pub history_only_grows :
      (os : List Observation) (w : WitnessLedger) (operation_id : String)
      → (more : List WitnessRecord) × (history operation_id (observe_all content_hash os w)
          ≡ history operation_id w ++ more)
  unfolding observe_all
  history_only_grows [] w k = ([], sym (append_nil (history k w)))
  history_only_grows (o ∷ os) w k =
      let first = step-Extends o w k in
      let rest = history_only_grows os (kept w (observe_one content_hash o w)) k in
      (
        first.0 ++ rest.0,
        rest.1
            ∙ ap (λ (rs : List WitnessRecord). rs ++ rest.0) first.1
            ∙ append_assoc (history k w) first.0 rest.0,
      )
