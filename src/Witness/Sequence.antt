-- ===== src/Witness/Sequence.antt =====
-- Sequences of observations: what a witness has recorded after them.
use proofos.Prelude.{String, ◌≡◌, refl, ap, inl, inr, true, Option, none, List, [], ◌∷◌, ◌++◌}
use mathlib.Core.Path.{subst}
use proofos.Prelude.Tests.{◌==◌, if◌then◌else◌, Bool-cases, Option-cases}
use proofos.Prelude.Int.{ℤ}
use proofos.Prelude.Results.{Result, ok, err, ◌>>=◌, bind-ok, then-ok, ok_inj}
use proofos.Prelude.Assoc.{get, put, get-put}
use proofos.Integrity.{Hash}
use proofos.Checkpoint.{
  OperationCheckpoint, SignedCheckpoint, SignatureLibrary, CheckpointError, Stamp, stamp_of,
  verify_checkpoint,
}
use proofos.Witness.Observe.{
  WitnessError, WitnessRecord, WitnessLedger, Admission, repeats, follows, witness_genesis, history,
  latest_of, admit, new_record, place, lifted, check_stamp, observe, verify_history,
}
use proofos.Witness.History.{
  IsHistory, IsHistory-snoc, IsWitness, admit-follows, admit-first, new_record-intact,
  problems-IsHistory,
}

-- The arguments of one call, the verifier's key and the clock's reading included.
pub record Observation : Type 0 where
  pub library : SignatureLibrary
  pub clock : ℤ
  pub envelope : SignedCheckpoint
  pub checkpoint : OperationCheckpoint
  pub observed_at : Option Stamp

abbrev pub kept :
    WitnessLedger → Result WitnessError (WitnessRecord × WitnessLedger) → WitnessLedger
kept w (ok (r, w')) = w'
kept w (err e) = w

abbrev pub observe_one :
    Hash → Observation → WitnessLedger → Result WitnessError (WitnessRecord × WitnessLedger)
observe_one content_hash o w =
    observe o.library content_hash o.clock o.envelope o.checkpoint o.observed_at w

-- The calls in order; one that is refused leaves the witness as it is.
unfoldable pub observe_all : Hash → List Observation → WitnessLedger → WitnessLedger
observe_all content_hash [] w = w
observe_all content_hash (o ∷ os) w =
    observe_all content_hash os (kept w (observe_one content_hash o w))

lifted-ok : (m : Result CheckpointError (Unit {0})) → lifted m ≡ ok tt → m ≡ ok tt
lifted-ok (ok tt) h = refl
lifted-ok (err e) h = cc

pub history-put :
    (k j : String) (rs : List WitnessRecord) (w : WitnessLedger)
    → history j (record w { records = put k rs w.records }) ≡ (if k == j then rs else history j w)
unfolding history
history-put k j rs w = elim (Bool-cases (k == j)) [
  | inl e ↦ rw (get-put, e)
  | inr e ↦ rw (get-put, e)
]

module _ (content_hash : Hash) where
  -- What a call that returned has done.
  pub observe-ok :
      (o : Observation) (w : WitnessLedger) {r : WitnessRecord} {w' : WitnessLedger}
      → observe_one content_hash o w ≡ ok (r, w')
      → (stamp : ℤ) × (a : Admission) × (verify_checkpoint o.library content_hash o.envelope
            o.checkpoint
          ≡ ok tt)
        × (check_stamp o.envelope (stamp_of o.observed_at o.clock) ≡ ok stamp)
        × (admit content_hash o.envelope (latest_of (history (o.envelope).operation_id w)) ≡ ok a)
        × (place content_hash o.envelope stamp w a ≡ (r, w'))
  unfolding observe
  observe-ok o w {r} {w'} h =
      let v =
        then-ok (lifted (verify_checkpoint o.library content_hash o.envelope o.checkpoint))
          after_verify h in
      let t = bind-ok (check_stamp o.envelope (stamp_of o.observed_at o.clock)) after_stamp v.1 in
      let a =
        bind-ok (admit content_hash o.envelope (latest_of (history (o.envelope).operation_id w)))
          (λ a. ok (place content_hash o.envelope t.0 w a)) t.2 in
      (t.0, a.0, lifted-ok _ v.0, t.1, a.1, ok_inj a.2)
    where
      after_stamp : ℤ → Result WitnessError (WitnessRecord × WitnessLedger)
      after_stamp stamp =
          admit content_hash o.envelope (latest_of (history (o.envelope).operation_id w)) >>= λ a.
          ok (place content_hash o.envelope stamp w a)

      after_verify : Result WitnessError (WitnessRecord × WitnessLedger)
      after_verify = check_stamp o.envelope (stamp_of o.observed_at o.clock) >>= after_stamp

  latest_of-none : (rs : List WitnessRecord) → latest_of rs ≡ none → rs ≡ []
  unfolding latest_of
  latest_of-none [] h = refl
  latest_of-none (r ∷ []) h = cc
  latest_of-none (r ∷ s ∷ rs) h = let e : s ∷ rs ≡ [] = latest_of-none (s ∷ rs) h in cc

  grown-IsHistory :
      (s : SignedCheckpoint) (stamp : ℤ) (witness_id previous : String) (rs : List WitnessRecord)
      → IsHistory content_hash 0 witness_genesis none rs
      → admit content_hash s (latest_of rs) ≡ ok (follows previous)
      → IsHistory content_hash 0 witness_genesis none
          (rs ++ new_record content_hash witness_id s stamp previous ∷ [])
  unfolding new_record
  grown-IsHistory s stamp witness_id previous rs h a = elim (Option-cases (latest_of rs)) [
    | inl e ↦
        let f = admit-first content_hash s previous (rw e at a) in
        rw (latest_of-none rs e)
          (new_record-intact content_hash witness_id s stamp previous, f.0, f.1, tt, tt)
    | inr (latest, e) ↦
        let f = admit-follows content_hash s latest previous (rw e at a) in
        IsHistory-snoc content_hash 0 witness_genesis none rs latest
          (new_record content_hash witness_id s stamp previous) h e
          (new_record-intact content_hash witness_id s stamp previous) f.0 f.1 (f.2, f.3)
  ]

  place-IsWitness :
      (s : SignedCheckpoint) (stamp : ℤ) (w : WitnessLedger) (a : Admission)
      → admit content_hash s (latest_of (history s.operation_id w)) ≡ ok a
      → IsWitness content_hash w
      → IsWitness content_hash (place content_hash s stamp w a).1
  place-IsWitness s stamp w (repeats latest) a h = h
  place-IsWitness s stamp w (follows previous) a h = record {
    of_operation = λ k. elim (Bool-cases (s.operation_id == k)) [
      | inl e ↦
          rw (history-put, e)
            (grown-IsHistory s stamp w.witness_id previous (history s.operation_id w)
              (h.of_operation s.operation_id) a)
      | inr e ↦ rw (history-put, e) (h.of_operation k)
    ];
  }

  observe-IsWitness :
      (o : Observation) (w : WitnessLedger)
      → IsWitness content_hash w
      → IsWitness content_hash (kept w (observe_one content_hash o w))
  observe-IsWitness o w h = by_result (observe_one content_hash o w) refl
    where
      by_result :
          (m : Result WitnessError (WitnessRecord × WitnessLedger))
          → observe_one content_hash o w ≡ m
          → IsWitness content_hash (kept w m)
      by_result (err e) q = h
      by_result (ok (r, w')) q =
          let f = observe-ok o w q in
          subst (IsWitness content_hash) (ap (λ (p : WitnessRecord × WitnessLedger). p.1) f.5)
            (place-IsWitness o.envelope f.0 w f.1 f.4 h)

  pub observe_all-IsWitness :
      (os : List Observation) (w : WitnessLedger)
      → IsWitness content_hash w
      → IsWitness content_hash (observe_all content_hash os w)
  unfolding observe_all
  observe_all-IsWitness [] w h = h
  observe_all-IsWitness (o ∷ os) w h =
      observe_all-IsWitness os (kept w (observe_one content_hash o w)) (observe-IsWitness o w h)

  -- The histories of a witness that has recorded nothing.
  pub new-IsWitness :
      (witness_id : String)
      → IsWitness content_hash (record { witness_id = witness_id; records = [] })
  unfolding history get
  new-IsWitness witness_id = record { of_operation = λ k. tt }

  -- Whatever envelopes a new witness is shown, in whatever order, under whatever keys, its own
  -- `verify` finds no problem in any operation.
  pub observed_histories_verify :
      (witness_id : String) (os : List Observation) (operation_id : String)
      → verify_history content_hash operation_id
          (observe_all content_hash os (record { witness_id = witness_id; records = [] }))
        ≡ (true, [])
  unfolding verify_history
  observed_histories_verify witness_id os operation_id = rw (
      problems-IsHistory content_hash 0 witness_genesis none
        (history operation_id
          (observe_all content_hash os (record { witness_id = witness_id; records = [] })))
        ((observe_all-IsWitness os (record { witness_id = witness_id; records = [] })
            (new-IsWitness witness_id)).of_operation
          operation_id))
