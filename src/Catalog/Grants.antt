-- ===== src/Catalog/Grants.antt =====
-- A card never describes an authority that the registry did not grant.
use mathlib.Core.Path.{subst}
use proofos.Prelude.{
  String, ◌≡◌, refl, sym, ap, ◌∙◌, inl, inr, Bool, true, false, ◌&&◌, Option, none, some, List, [],
  ◌∷◌, ◌++◌, arith,
}
use proofos.Prelude.Tests.{◌==◌, eq_iff, Bool-cases}
use proofos.Prelude.Lists.{◌∈◌}
use proofos.Prelude.Sets.{has, minus, minus-has}
use proofos.Prelude.Assoc.{get}
use proofos.Prelude.Results.{Result, ok, ◌>>◌, raise_if, bind-ok, then-ok, ok_inj}
use proofos.Ledger.Authority.{mem-snoc}
use proofos.Registry.{
  Role, orchestrator, planner, executor, collector, verifier, same_role, AgentRecord, AgentRegistry,
}
use proofos.Catalog.{
  AgentCard, AgentCatalog, CatalogError, duplicate_card, no_names, validate_card, has_identity,
  get_card, present_card, known_record, index_card, index_cards, build, found_card, require_card,
}

same_role_eq : (a b : Role) → same_role a b ≡ true → a ≡ b
unfolding same_role
same_role_eq orchestrator orchestrator h = refl
same_role_eq orchestrator planner h = cc
same_role_eq orchestrator executor h = cc
same_role_eq orchestrator collector h = cc
same_role_eq orchestrator verifier h = cc
same_role_eq planner orchestrator h = cc
same_role_eq planner planner h = refl
same_role_eq planner executor h = cc
same_role_eq planner collector h = cc
same_role_eq planner verifier h = cc
same_role_eq executor orchestrator h = cc
same_role_eq executor planner h = cc
same_role_eq executor executor h = refl
same_role_eq executor collector h = cc
same_role_eq executor verifier h = cc
same_role_eq collector orchestrator h = cc
same_role_eq collector planner h = cc
same_role_eq collector executor h = cc
same_role_eq collector collector h = refl
same_role_eq collector verifier h = cc
same_role_eq verifier orchestrator h = cc
same_role_eq verifier planner h = cc
same_role_eq verifier executor h = cc
same_role_eq verifier collector h = cc
same_role_eq verifier verifier h = refl

-- The card is no more than the registry's record of this agent.
pub record Granted (reg : AgentRegistry) (card : AgentCard) : Type 0 where
  pub agent : AgentRecord
  pub on_record : get card.agent_id reg.records ≡ some agent
  pub same_version : card.version ≡ agent.version
  pub role_granted : card.role ≡ agent.role
  pub capabilities_granted :
      (c : String) → has c card.capabilities ≡ true → has c agent.capabilities ≡ true
  pub tools_granted : (t : String) → has t card.tools ≡ true → has t agent.tools ≡ true

no_names-nil : (xs : List String) → no_names xs ≡ true → xs ≡ []
no_names-nil [] h = refl
no_names-nil (x ∷ xs) h = cc

known_record-ok :
    (k : String) (o : Option AgentRecord) {r : AgentRecord} → known_record k o ≡ ok r → o ≡ some r
known_record-ok k none h = cc
known_record-ok k (some r) h = ap some (ok_inj h)

validate_card-Granted :
    (reg : AgentRegistry) (card : AgentCard) (r : AgentRecord)
    → get card.agent_id reg.records ≡ some r
    → validate_card card r ≡ ok tt
    → Granted reg card
unfolding validate_card
validate_card-Granted reg card r at h = record {
  agent = r;
  on_record = at;
  same_version = (eq_iff card.version r.version).0 (ground arith);
  role_granted = same_role_eq card.role r.role (ground arith);
  capabilities_granted = λ c.
      minus-has c card.capabilities r.capabilities
        (no_names-nil (minus card.capabilities r.capabilities) (ground arith));
  tools_granted =
      λ t. minus-has t card.tools r.tools (no_names-nil (minus card.tools r.tools) (ground arith));
}

index_card-Granted :
    (reg : AgentRegistry) (card : AgentCard) (index after : List AgentCard)
    → index_card reg card index ≡ ok after
    → ((c : AgentCard) → c ∈ index → Granted reg c)
    → (c : AgentCard) → c ∈ after
    → Granted reg c
unfolding index_card
index_card-Granted reg card index after h old c m =
    let r = bind-ok (known_record card.agent_id (get card.agent_id reg.records)) after_known h in
    let v = then-ok (validate_card card r.0) unique r.2 in
    let u =
      then-ok
        (raise_if (present_card (get_card card.agent_id card.version index))
          (duplicate_card card.agent_id card.version))
        (ok (index ++ card ∷ [])) v.1 in
    elim (mem-snoc index card c (subst (λ (l : List AgentCard). c ∈ l) (sym (ok_inj u.1)) m)) [
      | inl before ↦ old c before
      | inr e ↦ subst (Granted reg) (sym e) (
          validate_card-Granted reg card r.0
            (known_record-ok card.agent_id (get card.agent_id reg.records) r.1) v.0)
    ]
  where
    unique : Result CatalogError (List AgentCard)
    unique =
        raise_if (present_card (get_card card.agent_id card.version index))
          (duplicate_card card.agent_id card.version)
        >> ok (index ++ card ∷ [])

    after_known : AgentRecord → Result CatalogError (List AgentCard)
    after_known r = validate_card card r >> unique

index_cards-Granted :
    (reg : AgentRegistry) (cards index after : List AgentCard)
    → index_cards reg cards index ≡ ok after
    → ((c : AgentCard) → c ∈ index → Granted reg c)
    → (c : AgentCard) → c ∈ after
    → Granted reg c
unfolding index_cards
index_cards-Granted reg [] index after h old c m =
    old c (subst (λ (l : List AgentCard). c ∈ l) (sym (ok_inj h)) m)
index_cards-Granted reg (x ∷ xs) index after h old c m =
    let s = bind-ok (index_card reg x index) (index_cards reg xs) h in
    index_cards-Granted reg xs s.0 after s.2 (index_card-Granted reg x index s.0 s.1 old) c m

both : (a b : Bool) → (a && b) ≡ true → (a ≡ true) × (b ≡ true)
both true b h = (refl, h)
both false b h = cc

get_card-found :
    (id version : String) (cards : List AgentCard) {c : AgentCard}
    → get_card id version cards ≡ some c
    → (c ∈ cards) × (c.agent_id ≡ id) × (c.version ≡ version)
unfolding get_card
get_card-found id version [] h = cc
get_card-found id version (x ∷ xs) {c} h = elim (Bool-cases (has_identity id version x)) [
  | inl e ↦
      let same : x ≡ c = cc (rw e at h) in
      let b = both (x.agent_id == id) (x.version == version) e in
      (
        inl (sym same),
        ap (λ (q : AgentCard). q.agent_id) (sym same) ∙ (eq_iff x.agent_id id).0 b.0,
        ap (λ (q : AgentCard). q.version) (sym same) ∙ (eq_iff x.version version).0 b.1,
      )
  | inr e ↦ let r = get_card-found id version xs {c = c} (rw e at h) in (inr r.0, r.1, r.2)
]

found_card-ok :
    (id version : String) (o : Option AgentCard) {c : AgentCard}
    → found_card id version o ≡ ok c
    → o ≡ some c
found_card-ok id version none h = cc
found_card-ok id version (some x) h = ap some (ok_inj h)

-- A card that `require` gives has exactly the id and the version that were asked for.
pub require_card-found :
    (id version : String) (cat : AgentCatalog) {c : AgentCard}
    → require_card id version cat ≡ ok c
    → (c ∈ cat.cards) × (c.agent_id ≡ id) × (c.version ≡ version)
unfolding require_card
require_card-found id version cat h =
    get_card-found id version cat.cards (found_card-ok id version (get_card id version cat.cards) h)

-- Whatever cards a catalog is built from: a card that it gives for an id and a version has exactly
-- these, and its role, capabilities and tools are granted by the registry to this agent.
pub required-Granted :
    (reg : AgentRegistry) (cards : List AgentCard) (cat : AgentCatalog) (id version : String)
    (card : AgentCard)
    → build reg cards ≡ ok cat
    → require_card id version cat ≡ ok card
    → (card.agent_id ≡ id) × (card.version ≡ version) × Granted reg card
unfolding build
required-Granted reg cards cat id version card h q =
    let b =
      bind-ok (index_cards reg cards []) (λ index. ok (record { registry = reg; cards = index }))
        h in
    let f = require_card-found id version cat q in
    (
      f.1,
      f.2,
      index_cards-Granted reg cards [] b.0 b.1 (λ c m. absurd m) card
          (subst (λ (l : List AgentCard). card ∈ l)
            (ap (λ (g : AgentCatalog). g.cards) (sym (ok_inj b.2))) f.0),
    )
