-- ===== src/Collectors.antt =====
-- proofos/collector_registry.py: which collectors exist, their keys, and what each may attest to. A
-- record carries its verifier; the decoding of its public key is not modelled.
use proofos.Prelude.{String, Bool, true, false, not, Option, none, some, List, []}
use proofos.Prelude.Tests.{◌==◌}
use proofos.Prelude.Lists.{any}
use proofos.Prelude.Assoc.{Dict, get, put}
use proofos.Prelude.Results.{Result, ok, err, ◌>>=◌, ◌>>◌, raise_if}
use proofos.Checkpoint.{SignatureLibrary}

pub record CollectorRecord : Type 0 where
  pub collector_id : String
  pub allowed_kinds : List String
  pub allowed_profiles : List String
  pub version : String
  pub active : Bool
  pub verifier : SignatureLibrary

pub data IdentityError : Type 0 where
  registry_sealed duplicate_collector unknown_collector not_active : String → IdentityError
  kind_not_allowed profile_not_allowed : String → String → IdentityError

pub record CollectorRegistry : Type 0 where
  pub records : Dict CollectorRecord
  pub sealed : Bool

abbrev pub new_registry : CollectorRegistry
new_registry = record { records = []; sealed = false }

abbrev pub present : Option CollectorRecord → Bool
present none = false
present (some r) = true

unfoldable pub register :
    CollectorRecord → CollectorRegistry → Result IdentityError CollectorRegistry
unfolding get put
register r reg = do
  raise_if reg.sealed (registry_sealed r.collector_id)
  raise_if (present (get r.collector_id reg.records)) (duplicate_collector r.collector_id)
  ok (record reg { records = put r.collector_id r reg.records })

unfoldable pub seal_registry : CollectorRegistry → CollectorRegistry
seal_registry reg = record reg { sealed = true }

abbrev pub active_only : String → Option CollectorRecord → Result IdentityError CollectorRecord
active_only collector_id none = err (unknown_collector collector_id)
active_only collector_id (some r) = raise_if (not r.active) (not_active collector_id) >> ok r

unfoldable pub get_collector : String → CollectorRegistry → Result IdentityError CollectorRecord
unfolding get
get_collector collector_id reg = active_only collector_id (get collector_id reg.records)

abbrev pub in_scope :
    String → String → String → CollectorRecord → Result IdentityError CollectorRecord
in_scope collector_id kind profile_id r = do
  raise_if (not (any (λ k. k == kind) r.allowed_kinds)) (kind_not_allowed collector_id kind)
  raise_if (not (any (λ p. p == profile_id) r.allowed_profiles))
      (profile_not_allowed collector_id profile_id)
  ok r

unfoldable pub require_scope :
    String → String → String → CollectorRegistry → Result IdentityError CollectorRecord
unfolding get_collector any
require_scope collector_id kind profile_id reg =
    get_collector collector_id reg >>= in_scope collector_id kind profile_id
