-- ===== src/Ledger/Authority.antt =====
-- Where OBSERVED evidence can come from: any sequence of calls of the ledger's methods. `issued` are
-- the grants that the ledger has handed out. A caller may present a grant of its own making, but
-- not one with the ledger's private marker: an object's identity cannot be copied.
use proofos.Prelude.{
  String, ◌≡◌, refl, sym, ◌⊎◌, inl, inr, Option, none, some, List, [], ◌∷◌, ◌++◌, arith,
}
use proofos.Prelude.Tests.{◌==◌, eq_iff, nat_eq_iff}
use proofos.Prelude.Lists.{◌∈◌, any-true}
use proofos.Prelude.Results.{ok, ◌>>=◌, bind-ok, then-ok, ok_inj}
use proofos.Prelude.Assoc.{get, put}
use proofos.Verifier.Types.{Evidence, EvidenceSource, observed, executor, model, Requirement}
use proofos.Ledger
use proofos.Ledger.{
  LedgerError, ObservationGrant, TaskRecord, EvidenceLedger, new_ledger, grant_observation, seal,
  reset, check_grant, check_source, record_evidence, require, found,
}

pub record World : Type 0 where
  pub ledger : EvidenceLedger
  pub issued : List ObservationGrant

-- A grant that may be presented: none of the ledger's, or one that it issued.
abbrev pub Presentable : World → Option ObservationGrant → Type 0
Presentable w none = Unit
Presentable w (some g) = g.issuer ≡ w.ledger.marker → g ∈ w.issued

pub data Step (w : World) : World → Type 0 where
  granting :
      (collector_id : String) (kinds : List String) (g : ObservationGrant)
      → grant_observation collector_id kinds w.ledger ≡ ok g
      → Step w (record w { issued = g ∷ w.issued })
  sealing : Step w (record w { ledger = seal w.ledger })
  opening :
      (task_id : String) (required : List Requirement)
      → Step w (record w { ledger = Ledger.open_task task_id required w.ledger })
  recording :
      (task_id : String) (e : Evidence) (grant : Option ObservationGrant) (l : EvidenceLedger)
      → Presentable w grant
      → record_evidence task_id e grant w.ledger ≡ ok l
      → Step w (record w { ledger = l })
  resetting : Step w (record w { ledger = reset w.ledger })

pub data Reach (w : World) : World → Type 0 where
  here : Reach w w
  next : {u v : World} → Reach w u → Step u v → Reach w v

-- The grant under which an observation was written.
pub record Covers (g : ObservationGrant) (e : Evidence) : Type 0 where
  pub kind_covered : e.kind ∈ g.kinds
  pub own_identity : e.collector ≡ g.collector_id

abbrev pub Authorised : List ObservationGrant → Evidence → Type 0
Authorised issued e = e.source ≡ observed → (g : ObservationGrant) × (g ∈ issued) × Covers g e

pub record HasProvenance (w : World) : Type 0 where
  pub of_evidence :
      (task_id : String) (t : TaskRecord)
      → get task_id w.ledger.tasks ≡ some t
      → (e : Evidence) → e ∈ t.evidence
      → Authorised w.issued e

-- What a successful `check_grant` has checked.
check_grant-Covers :
    (l : EvidenceLedger) (e : Evidence) (grant : Option ObservationGrant)
    → check_grant l e grant ≡ ok tt
    → (g : ObservationGrant) × (grant ≡ some g) × (g.issuer ≡ l.marker) × Covers g e
unfolding check_grant
check_grant-Covers l e none h = cc
check_grant-Covers l e (some g) h =
    let a = any-true (λ k. k == e.kind) g.kinds (ground arith) in
    (
      g,
      refl,
      (nat_eq_iff g.issuer l.marker).0 (ground arith),
      record {
        kind_covered = rw (sym ((eq_iff a.0 e.kind).0 a.2)) a.1;
        own_identity = (eq_iff e.collector g.collector_id).0 (ground arith);
      },
    )

found-ok :
    (task_id : String) (o : Option TaskRecord) {t : TaskRecord}
    → found task_id o ≡ ok t
    → o ≡ some t
found-ok task_id none h = cc
found-ok task_id (some t) h = cc

pub require-ok :
    (task_id : String) (l : EvidenceLedger) {t : TaskRecord}
    → require task_id l ≡ ok t
    → get task_id l.tasks ≡ some t
unfolding require
require-ok task_id l h = found-ok task_id (get task_id l.tasks) h

-- What a successful `record` has done.
pub record_evidence-ok :
    (task_id : String) (e : Evidence) (grant : Option ObservationGrant) (l : EvidenceLedger)
    {l' : EvidenceLedger}
    → record_evidence task_id e grant l ≡ ok l'
    → (t : TaskRecord) × (get task_id l.tasks ≡ some t)
      × (check_source l e.source e grant ≡ ok tt)
      × (l'
          ≡ record l { tasks = put task_id (record t { evidence = t.evidence ++ e ∷ [] }) l.tasks })
unfolding record_evidence
record_evidence-ok task_id e grant l {l'} h =
    let c =
      then-ok (check_source l e.source e grant) (require task_id l >>= λ t. ok (written t)) h in
    let r = bind-ok (require task_id l) (λ t. ok (written t)) c.1 in
    (r.0, require-ok task_id l r.1, c.0, sym (ok_inj r.2))
  where
    written : TaskRecord → EvidenceLedger
    written t = record l {
      tasks = put task_id (record t { evidence = t.evidence ++ e ∷ [] }) l.tasks;
    }

pub check_source-Authorised :
    (w : World) (s : EvidenceSource) (e : Evidence) (grant : Option ObservationGrant)
    → Presentable w grant
    → check_source w.ledger s e grant ≡ ok tt
    → s ≡ observed
    → (g : ObservationGrant) × (g ∈ w.issued) × Covers g e
unfolding check_source
check_source-Authorised w observed e grant p h q =
    let c = check_grant-Covers w.ledger e grant h in (c.0, (rw c.1 at p) c.2, c.3)
check_source-Authorised w executor e grant p h q = cc
check_source-Authorised w model e grant p h q = cc

pub mem-snoc : {A : Type 0} (xs : List A) (x y : A) → y ∈ (xs ++ x ∷ []) → (y ∈ xs) ⊎ (y ≡ x)
mem-snoc [] x y (inl e) = inr e
mem-snoc [] x y (inr m) = absurd m
mem-snoc (z ∷ xs) x y (inl e) = inl (inl e)
mem-snoc (z ∷ xs) x y (inr m) = elim (mem-snoc xs x y m) [ inl k ↦ inl (inr k) | inr e ↦ inr e ]
