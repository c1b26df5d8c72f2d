-- ===== src/Ingestion/Checks.antt =====
-- What the checks of an attestation establish, one by one.
use proofos.Prelude.{
  ℕ, String, ◌≡◌, refl, sym, ap, ◌∙◌, ◌⊎◌, true, false, not, Option, none, some, List, arith,
}
use proofos.Prelude.Tests.{◌==◌, eq_iff, nat_eq, nat_eq_iff}
use proofos.Prelude.Lists.{◌∈◌, any, any-true, length}
use proofos.Prelude.Int.{ℤ, ◌+ℤ◌, ◌-ℤ◌}
use proofos.Prelude.Time.{Time, tick, not_a_number, IsBefore, nan_or_IsBefore, nan_or_after}
use proofos.Prelude.Assoc.{get}
use proofos.Prelude.Results.{
  Result, ok, err, ◌>>◌, raise_if, bind-ok, then-ok, passed_check, ok_inj,
}
use proofos.Checkpoint.{SignatureLibrary}
use proofos.Attestation.{
  ObservationAttestation, check_bytes, attested_fields, bad_length, signature_mismatch,
}
use proofos.Collectors.{
  CollectorRecord, CollectorRegistry, require_scope, get_collector, active_only, in_scope,
  not_active, kind_not_allowed, profile_not_allowed,
}
use proofos.Ingestion.{RejectionReason, Request, or_reject, check_request, too_old}

pub or_reject-ok :
    {E A : Type 0} (m : Result E A) (reason : E → RejectionReason) {a : A}
    → or_reject m reason ≡ ok a
    → m ≡ ok a
or_reject-ok (ok a) reason h = rw (ok_inj h)
or_reject-ok (err e) reason h = cc

-- The collector is registered and active, and may attest to this kind through this profile.
pub record InScope (reg : CollectorRegistry) (a : ObservationAttestation) (r : CollectorRecord)
    : Type 0 where
  pub registered : get a.collector_id reg.records ≡ some r
  pub is_active : r.active ≡ true
  pub kind_allowed : a.kind ∈ r.allowed_kinds
  pub profile_allowed : a.profile_id ∈ r.allowed_profiles

active_only-ok :
    (k : String) (o : Option CollectorRecord) {r : CollectorRecord}
    → active_only k o ≡ ok r
    → (o ≡ some r) × (r.active ≡ true)
active_only-ok k none h = cc
active_only-ok k (some x) {r} h =
    let c = then-ok (raise_if (not x.active) (not_active k)) (ok x) h in
    let e = ok_inj c.1 in
    (
      ap some e,
      ap (λ (q : CollectorRecord). q.active) (sym e) ∙ passed_check x.active (not_active k) c.0,
    )

is_member : (x : String) (xs : List String) → any (λ y. y == x) xs ≡ true → x ∈ xs
is_member x xs h = let a = any-true (λ y. y == x) xs h in rw (sym ((eq_iff a.0 x).0 a.2)) a.1

pub require_scope-InScope :
    (reg : CollectorRegistry) (a : ObservationAttestation) {r : CollectorRecord}
    → require_scope a.collector_id a.kind a.profile_id reg ≡ ok r
    → InScope reg a r
unfolding require_scope get_collector
require_scope-InScope reg a {r} h =
    let g =
      bind-ok (active_only a.collector_id (get a.collector_id reg.records))
        (in_scope a.collector_id a.kind a.profile_id) h in
    let s = active_only-ok a.collector_id (get a.collector_id reg.records) g.1 in
    by_scope g.0 s.0 s.1 g.2
  where
    by_scope :
        (x : CollectorRecord)
        → get a.collector_id reg.records ≡ some x
        → x.active ≡ true
        → in_scope a.collector_id a.kind a.profile_id x ≡ ok r
        → InScope reg a r
    by_scope x e act q =
        let k =
          then-ok
            (raise_if (not (any (λ k. k == a.kind) x.allowed_kinds))
              (kind_not_allowed a.collector_id a.kind))
            (raise_if (not (any (λ p. p == a.profile_id) x.allowed_profiles))
                (profile_not_allowed a.collector_id a.profile_id)
              >> ok x)
            q in
        let p =
          then-ok
            (raise_if (not (any (λ p. p == a.profile_id) x.allowed_profiles))
              (profile_not_allowed a.collector_id a.profile_id))
            (ok x) k.1 in
        let same = ok_inj p.1 in
        record {
          registered = e ∙ ap some same;
          is_active = ap (λ (y : CollectorRecord). y.active) (sym same) ∙ act;
          kind_allowed = rw (sym same) (is_member a.kind x.allowed_kinds (passed_check _ _ k.0));
          profile_allowed =
              rw (sym same) (is_member a.profile_id x.allowed_profiles (passed_check _ _ p.0));
        }

-- The key accepts the signature for exactly the signed fields.
abbrev pub AttestationHolds : SignatureLibrary → ObservationAttestation → Type 0
AttestationHolds lib a =
    (bytes : List ℕ) × (lib.decode a.signature ≡ some bytes)
    × (length bytes ≡ 64)
    × (lib.verify_bytes bytes (attested_fields a) ≡ true)

pub check_bytes-ok :
    (lib : SignatureLibrary) (a : ObservationAttestation) (o : Option (List ℕ))
    → check_bytes lib a o ≡ ok tt
    → (bytes : List ℕ) × (o ≡ some bytes)
      × (length bytes ≡ 64)
      × (lib.verify_bytes bytes (attested_fields a) ≡ true)
check_bytes-ok lib a none h = cc
check_bytes-ok lib a (some bytes) h =
    let c =
      then-ok (raise_if (not (nat_eq (length bytes) 64)) bad_length)
        (raise_if (not (lib.verify_bytes bytes (attested_fields a))) signature_mismatch) h in
    (bytes, refl, (nat_eq_iff (length bytes) 64).0 (passed_check _ _ c.0), passed_check _ _ c.1)

-- Not from before the oldest time that the request admits, if it names a maximal age.
abbrev pub IsRecent : Option ℤ → ℤ → Time → Type 0
IsRecent none now at = Unit
IsRecent (some age) now at = (at ≡ not_a_number) ⊎ IsBefore (tick (now -ℤ age)) at

-- The attestation answers the request. A time that is NaN passes both comparisons.
pub record Answers (tolerance : ℤ) (req : Request) (now : ℤ) (a : ObservationAttestation)
    : Type 0 where
  pub same_execution : a.execution_id ≡ req.execution_id
  pub same_task : a.task_id ≡ req.task_id
  pub same_kind : a.kind ≡ req.kind
  pub same_profile : a.profile_id ≡ req.profile
  pub same_nonce : a.request_nonce ≡ req.nonce
  pub not_future : (a.observed_at ≡ not_a_number) ⊎ IsBefore a.observed_at (tick (now +ℤ tolerance))
  pub recent : IsRecent req.max_age_seconds now a.observed_at

too_old-IsRecent :
    (age : Option ℤ) (now : ℤ) (at : Time) → too_old age now at ≡ false → IsRecent age now at
unfolding too_old
too_old-IsRecent none now at h = tt
too_old-IsRecent (some age) now at h = nan_or_after at (tick (now -ℤ age)) tt h

pub check_request-Answers :
    (tolerance : ℤ) (req : Request) (now : ℤ) (a : ObservationAttestation)
    → check_request tolerance req now a ≡ ok tt
    → Answers tolerance req now a
unfolding check_request
check_request-Answers tolerance req now a h = record {
  same_execution = (eq_iff a.execution_id req.execution_id).0 (ground arith);
  same_task = (eq_iff a.task_id req.task_id).0 (ground arith);
  same_kind = (eq_iff a.kind req.kind).0 (ground arith);
  same_profile = (eq_iff a.profile_id req.profile).0 (ground arith);
  same_nonce = (eq_iff a.request_nonce req.nonce).0 (ground arith);
  not_future = nan_or_IsBefore a.observed_at (tick (now +ℤ tolerance)) tt (ground arith);
  recent = too_old-IsRecent req.max_age_seconds now a.observed_at (ground arith);
}
