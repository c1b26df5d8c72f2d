-- ===== src/Catalog.antt =====
-- proofos/agent_catalog.py: a discovery view over the agent registry. A card is found by its identity,
-- the agent's id and version; `as_dict` and the texts of the errors are not modelled.
pub mod Grants
pub mod Tests
use proofos.Prelude.{
  String, Bool, true, false, not, ◌&&◌, ◌||◌, Option, none, some, List, [], ◌∷◌, ◌++◌,
}
use proofos.Prelude.Tests.{◌==◌, if◌then◌else◌}
use proofos.Prelude.Lists.{select}
use proofos.Prelude.Sets.{has, minus}
use proofos.Prelude.Sort.{leb_text, sorted_by}
use proofos.Prelude.Assoc.{get}
use proofos.Prelude.Results.{Result, ok, err, ◌>>=◌, ◌>>◌, raise_if}
use proofos.Registry.{Role, same_role, Runtime, AgentRecord, AgentRegistry}

pub data Lifecycle : Type 0 where
  active deprecated disabled : Lifecycle

pub data SecurityClass : Type 0 where
  observer actor adjudicator coordinator : SecurityClass

pub record AgentCard : Type 0 where
  pub agent_id : String
  pub version : String
  pub role : Role
  pub owner : String
  pub purpose : String
  pub capabilities : List String
  pub tools : List String
  pub tool_scope : String
  pub data_scope : String
  pub runtime : Runtime
  pub security_class : SecurityClass
  pub lifecycle : Lifecycle

unfoldable pub same_lifecycle : Lifecycle → Lifecycle → Bool
same_lifecycle active active = true
same_lifecycle deprecated deprecated = true
same_lifecycle disabled disabled = true
same_lifecycle _ _ = false

unfoldable pub assignable : AgentCard → Bool
unfolding same_lifecycle
assignable card = same_lifecycle card.lifecycle active

pub data CatalogError : Type 0 where
  version_mismatch role_mismatch extra_capabilities extra_tools not_registered :
      String → CatalogError
  duplicate_card no_card : String → String → CatalogError

abbrev pub no_names : List String → Bool
no_names [] = true
no_names (x ∷ xs) = false

-- `_validate`
unfoldable pub validate_card : AgentCard → AgentRecord → Result CatalogError (Unit {0})
unfolding same_role minus
validate_card card r = do
  raise_if (not (card.version == r.version)) (version_mismatch card.agent_id)
  raise_if (not (same_role card.role r.role)) (role_mismatch card.agent_id)
  raise_if (not (no_names (minus card.capabilities r.capabilities)))
      (extra_capabilities card.agent_id)
  raise_if (not (no_names (minus card.tools r.tools))) (extra_tools card.agent_id)

-- card.identity == (agent_id, version)
abbrev pub has_identity : String → String → AgentCard → Bool
has_identity agent_id version card = card.agent_id == agent_id && card.version == version

-- The index, by identity: `self._cards.get((agent_id, version))`
unfoldable pub get_card : String → String → List AgentCard → Option AgentCard
get_card agent_id version [] = none
get_card agent_id version (c ∷ cs) =
    if has_identity agent_id version c then some c else get_card agent_id version cs

abbrev pub present_card : Option AgentCard → Bool
present_card none = false
present_card (some c) = true

abbrev pub known_record : String → Option AgentRecord → Result CatalogError AgentRecord
known_record agent_id none = err (not_registered agent_id)
known_record agent_id (some r) = ok r

-- One round of the loop of `build`.
unfoldable pub index_card :
    AgentRegistry → AgentCard → List AgentCard → Result CatalogError (List AgentCard)
unfolding get validate_card get_card
index_card reg card index = do
  r ← known_record card.agent_id (get card.agent_id reg.records)
  validate_card card r
  raise_if (present_card (get_card card.agent_id card.version index))
      (duplicate_card card.agent_id card.version)
  ok (index ++ card ∷ [])

unfoldable pub index_cards :
    AgentRegistry → List AgentCard → List AgentCard → Result CatalogError (List AgentCard)
unfolding index_card
index_cards reg [] index = ok index
index_cards reg (c ∷ cs) index = index_card reg c index >>= index_cards reg cs

pub record AgentCatalog : Type 0 where
  pub registry : AgentRegistry
  pub cards : List AgentCard

unfoldable pub build : AgentRegistry → List AgentCard → Result CatalogError AgentCatalog
unfolding index_cards
build reg cards =
    index_cards reg cards [] >>= λ index. ok (record { registry = reg; cards = index })

abbrev pub found_card : String → String → Option AgentCard → Result CatalogError AgentCard
found_card agent_id version none = err (no_card agent_id version)
found_card agent_id version (some c) = ok c

unfoldable pub require_card : String → String → AgentCatalog → Result CatalogError AgentCard
unfolding get_card
require_card agent_id version cat =
    found_card agent_id version (get_card agent_id version cat.cards)

-- The filters of `find`; `none` is a filter that is not given.
pub record Filter : Type 0 where
  pub role : Option Role
  pub capability : Option String
  pub lifecycle : Option Lifecycle
  pub data_scope : Option String
  pub tool_scope : Option String
  pub assignable_only : Bool

abbrev pub given {ℓ} : {A : Type ℓ} → Option A → (A → Bool) → Bool
given none p = true
given (some a) p = p a

unfoldable pub matches_filter : Filter → AgentCard → Bool
unfolding same_role has same_lifecycle assignable
matches_filter f card =
    given f.role (same_role card.role)
    && (given f.capability (λ c. has c card.capabilities)
        && (given f.lifecycle (same_lifecycle card.lifecycle)
            && (given f.data_scope (λ s. card.data_scope == s)
                && (given f.tool_scope (λ s. card.tool_scope == s)
                    && (not f.assignable_only || assignable card)))))

-- identity order
abbrev pub leb_card : AgentCard → AgentCard → Bool
leb_card a b =
    if a.agent_id == b.agent_id
    then leb_text a.version b.version
    else leb_text a.agent_id b.agent_id

unfoldable pub find_cards : Filter → AgentCatalog → List AgentCard
unfolding matches_filter select sorted_by
find_cards f cat = select (matches_filter f) (sorted_by leb_card cat.cards)
