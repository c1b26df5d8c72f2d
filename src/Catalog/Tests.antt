-- ===== src/Catalog/Tests.antt =====
-- Concrete runs of the catalog.
use proofos.Prelude.{◌≡◌, refl, true, none, some, [], ◌∷◌}
use proofos.Prelude.Results.{ok, err}
use proofos.Registry.{executor, deterministic, AgentRegistry}
use proofos.Catalog.{
  AgentCard, AgentCatalog, active, deprecated, actor, extra_tools, no_card, build, require_card,
  find_cards,
}
use proofos.Catalog.Grants.{Granted, required-Granted}

abbrev on_record : AgentRegistry
on_record = record {
  records =
      (
        "worker",
        record {
          agent_id = "worker";
          role = executor;
          capabilities = "execute" ∷ "claim" ∷ [];
          tools = "perform_action" ∷ [];
          runtime = deterministic;
          version = "v1";
        },
      )
      ∷ [];
  sealed = true;
}

abbrev pub worker_card : AgentCard
worker_card = record {
  agent_id = "worker";
  version = "v1";
  role = executor;
  owner = "operations";
  purpose = "remediates";
  capabilities = "claim" ∷ [];
  tools = "perform_action" ∷ [];
  tool_scope = "perform_action";
  data_scope = "target";
  runtime = deterministic;
  security_class = actor;
  lifecycle = active;
}

abbrev pub one_card : AgentCatalog
one_card = record { registry = on_record; cards = worker_card ∷ [] }

builds : build on_record (worker_card ∷ []) ≡ ok one_card
unfolding build
builds = refl

overstated :
    build on_record (record worker_card { tools = "probe_http" ∷ [] } ∷ [])
    ≡ err (extra_tools "worker")
unfolding build
overstated = refl

gives : require_card "worker" "v1" one_card ≡ ok worker_card
unfolding require_card
gives = refl

no_substitute : require_card "worker" "v2" one_card ≡ err (no_card "worker" "v2")
unfolding require_card
no_substitute = refl

-- A deprecated card is not offered for new work.
retired :
    find_cards
      (record {
        role = some executor;
        capability = none;
        lifecycle = none;
        data_scope = none;
        tool_scope = none;
        assignable_only = true;
      })
      (record one_card {
        cards = record worker_card { lifecycle = deprecated; version = "v0" } ∷ worker_card ∷ [];
      })
    ≡ worker_card ∷ []
unfolding find_cards
retired = refl

required-Granted_example :
    (worker_card.agent_id ≡ "worker") × (worker_card.version ≡ "v1") × Granted on_record worker_card
required-Granted_example =
    required-Granted on_record (worker_card ∷ []) one_card "worker" "v1" worker_card builds gives
