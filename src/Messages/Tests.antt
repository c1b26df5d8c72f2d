-- ===== src/Messages/Tests.antt =====
-- Concrete runs: the executor sends a claim to the orchestrator.
use proofos.Prelude.{◌≡◌, ◌≢◌, refl, true, [], ◌∷◌}
use proofos.Prelude.Int.{pos}
use proofos.Prelude.Results.{ok, err}
use proofos.Registry.{executor, orchestrator, deterministic, AgentRegistry}
use proofos.Messages.{
  claim, verify_result, AgentMessage, MessageBus, new_bus, MessageSender, send, accept, replayed,
  not_issued,
}
use proofos.Messages.Delivery.{sends, here, next, accepted_once}
use proofos.Messages.Senders.{IsLogged, accepted-IsLogged, altered_message_accepted}

abbrev known : AgentRegistry
known = record {
  records =
      (
        "worker",
        record {
          agent_id = "worker";
          role = executor;
          capabilities = [];
          tools = [];
          runtime = deterministic;
          version = "v1";
        },
      )
      ∷ (
        "router",
        record {
          agent_id = "router";
          role = orchestrator;
          capabilities = [];
          tools = [];
          runtime = deterministic;
          version = "v1";
        },
      )
      ∷ [];
  sealed = true;
}

abbrev quiet : MessageBus
quiet = new_bus known "exec" "task" (pos 300)

abbrev worker_handle : MessageSender
worker_handle = record { agent_id = "worker" }

abbrev done_message : AgentMessage
done_message = record {
  message_id = "msg_1";
  execution_id = "exec";
  task_id = "task";
  sender_agent_id = "worker";
  recipient_agent_id = "router";
  message_type = claim;
  payload = ("text", "done") ∷ [];
  created_at = pos 10;
  correlation_id = "msg_2";
}

abbrev sent : MessageBus
sent = record {
  registry = known;
  execution_id = "exec";
  task_id = "task";
  max_age = pos 300;
  issued = ("msg_1", "worker") ∷ [];
  delivered = [];
  log = done_message ∷ [];
}

-- The sender in the payload is dropped.
sends_claim :
    send worker_handle "msg_1" "msg_2"
      (pos 10)
      "router"
      claim
      ""
      (("sender_agent_id", "router") ∷ ("text", "done") ∷ [])
      quiet
    ≡ ok (done_message, sent)
unfolding send new_bus
sends_claim = refl

abbrev delivered_state : MessageBus
delivered_state = record sent { delivered = "msg_1" ∷ [] }

accepts_claim : accept (pos 12) done_message "router" sent ≡ ok delivered_state
unfolding accept
accepts_claim = refl

again_refused : accept (pos 13) done_message "router" delivered_state ≡ err (replayed "msg_1")
unfolding accept
again_refused = refl

forged_refused :
    accept (pos 12) (record done_message { message_id = "msg_9" }) "router" sent
    ≡ err (not_issued "msg_9")
unfolding accept
forged_refused = refl

accepted_once_example : accept (pos 13) done_message "router" delivered_state ≢ ok delivered_state
accepted_once_example =
    accepted_once (pos 12) (pos 13) done_message done_message "router" "router" sent delivered_state
      delivered_state delivered_state accepts_claim here refl

accepted-IsLogged_example :
    IsLogged sent "msg_1" "worker" × (done_message.recipient_agent_id ≡ "router")
accepted-IsLogged_example =
    accepted-IsLogged known "exec" "task" (pos 300) sent (pos 12) done_message "router"
      delivered_state
      (next here (
        sends worker_handle "msg_1" "msg_2" (pos 10) "router" claim ""
          (("sender_agent_id", "router") ∷ ("text", "done") ∷ []) done_message sent sends_claim))
      accepts_claim

altered_message_accepted_example :
    accept
      (pos 12)
      (record done_message {
        payload = ("text", "verified") ∷ [];
        message_type = verify_result;
        correlation_id = "";
      })
      "router"
      sent
    ≡ ok delivered_state
altered_message_accepted_example =
    altered_message_accepted (pos 12) done_message "router" sent delivered_state
      (("text", "verified") ∷ []) verify_result "" accepts_claim
