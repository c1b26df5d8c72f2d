-- ===== src/Messages.antt =====
-- proofos/messages.py: typed envelopes with an identity that the runtime assigns. The bus is passed
-- along; fresh message ids and clock readings are arguments. A payload is its texts by key.
pub mod Delivery
pub mod Senders
mod Tests
use proofos.Prelude.{String, Bool, true, false, not, Option, none, some, List, [], ◌∷◌, ◌++◌}
use proofos.Prelude.Tests.{◌==◌, if◌then◌else◌}
use proofos.Prelude.Lists.{select}
use proofos.Prelude.Sets.{has}
use proofos.Prelude.Int.{ℤ, leb_ℤ, ◌-ℤ◌}
use proofos.Prelude.Assoc.{Dict, get, put}
use proofos.Prelude.Results.{Result, ok, err, ◌>>=◌, ◌>>◌, raise_if}
use proofos.Registry.{AgentRegistry, AuthorityError, get_agent}

pub data MessageType : Type 0 where
  plan action_request action_result claim collection_request evidence_result : MessageType
  verify_request verify_result recovery_request : MessageType

pub record AgentMessage : Type 0 where
  pub message_id : String
  pub execution_id : String
  pub task_id : String
  pub sender_agent_id : String
  pub recipient_agent_id : String
  pub message_type : MessageType
  pub payload : Dict String
  pub created_at : ℤ
  pub correlation_id : String

pub record MessageBus : Type 0 where
  pub registry : AgentRegistry
  pub execution_id : String
  pub task_id : String
  pub max_age : ℤ
  pub issued : Dict String
  pub delivered : List String
  pub log : List AgentMessage

unfoldable pub new_bus : AgentRegistry → String → String → ℤ → MessageBus
new_bus registry execution_id task_id max_age = record {
  registry = registry;
  execution_id = execution_id;
  task_id = task_id;
  max_age = max_age;
  issued = [];
  delivered = [];
  log = [];
}

-- The keys of a payload that look like an identity claim.
abbrev pub identity_keys : List String
identity_keys = "sender_agent_id" ∷ "execution_id" ∷ "task_id" ∷ []

-- correlation_id or new_message_id()
abbrev pub or_new : String → String → String
or_new correlation_id fresh = if correlation_id == "" then fresh else correlation_id

unfoldable pub new_message :
    MessageBus
    → String
    → String
    → ℤ
    → String
    → String
    → MessageType
    → String
    → Dict String
    → AgentMessage
unfolding select has
new_message bus fresh fresh_correlation clock sender recipient message_type correlation_id payload =
    record {
      message_id = fresh;
      execution_id = bus.execution_id;
      task_id = bus.task_id;
      sender_agent_id = sender;
      recipient_agent_id = recipient;
      message_type = message_type;
      payload = select (λ kv. not (has kv.0 identity_keys)) payload;
      created_at = clock;
      correlation_id = or_new correlation_id fresh_correlation;
    }

-- `_issue`
unfoldable pub issue_message :
    String
    → String
    → ℤ
    → String
    → String
    → MessageType
    → String
    → Dict String
    → MessageBus
    → Result AuthorityError (AgentMessage × MessageBus)
unfolding get_agent new_message put
issue_message fresh fresh_correlation clock sender recipient message_type correlation_id payload
      bus =
    get_agent sender bus.registry >>= λ s. get_agent recipient bus.registry >>= λ r.
    let m =
      new_message bus fresh fresh_correlation clock sender recipient message_type correlation_id
        payload in
    ok (m, record bus { issued = put fresh sender bus.issued; log = bus.log ++ m ∷ [] })

-- The handle that `sender_for` hands out.
pub record MessageSender : Type 0 where
  pub agent_id : String

unfoldable pub sender_for : String → MessageBus → Result AuthorityError MessageSender
unfolding get_agent
sender_for agent_id bus =
    get_agent agent_id bus.registry >>= λ r. ok (record { agent_id = agent_id })

-- MessageSender.send
unfoldable pub send :
    MessageSender
    → String
    → String
    → ℤ
    → String
    → MessageType
    → String
    → Dict String
    → MessageBus
    → Result AuthorityError (AgentMessage × MessageBus)
unfolding issue_message
send handle fresh fresh_correlation clock recipient message_type correlation_id payload bus =
    issue_message fresh fresh_correlation clock handle.agent_id recipient message_type
      correlation_id payload bus

pub data MessageRejected : Type 0 where
  not_issued wrong_sender wrong_execution wrong_task wrong_recipient replayed too_old :
      String → MessageRejected

abbrev pub check_sender : AgentMessage → Option String → Result MessageRejected (Unit {0})
check_sender m none = err (not_issued m.message_id)
check_sender m (some true_sender) =
    raise_if (not (true_sender == m.sender_agent_id)) (wrong_sender m.message_id)

unfoldable pub accept : ℤ → AgentMessage → String → MessageBus → Result MessageRejected MessageBus
unfolding get has ◌-ℤ◌
accept clock m recipient bus = do
  check_sender m (get m.message_id bus.issued)
  raise_if (not (m.execution_id == bus.execution_id)) (wrong_execution m.message_id)
  raise_if (not (m.task_id == bus.task_id)) (wrong_task m.message_id)
  raise_if (not (m.recipient_agent_id == recipient)) (wrong_recipient m.message_id)
  raise_if (has m.message_id bus.delivered) (replayed m.message_id)
  raise_if (not (leb_ℤ (clock -ℤ m.created_at) bus.max_age)) (too_old m.message_id)
  ok (record bus { delivered = m.message_id ∷ bus.delivered })
