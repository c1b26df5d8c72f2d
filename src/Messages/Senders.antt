-- ===== src/Messages/Senders.antt =====
-- Who sent an accepted message, and what the bus does not compare.
use mathlib.Core.Path.{subst}
use proofos.Prelude.{String, ◌≡◌, refl, sym, ap, ◌∙◌, inl, inr, some, List, [], ◌∷◌, ◌++◌}
use proofos.Prelude.Lists.{◌∈◌}
use proofos.Prelude.Int.{ℤ}
use proofos.Prelude.Assoc.{Dict, get, put, get-put_cases}
use proofos.Prelude.Results.{ok}
use proofos.Registry.{AgentRegistry}
use proofos.Messages.{MessageType, AgentMessage, MessageBus, new_bus, new_message, accept}
use proofos.Messages.Delivery.{Step, sends, accepts, Reach, here, next, send-ok, accept-Accepted}

-- A logged message with this id and sender, for the bus's own execution and task.
pub record IsLogged (b : MessageBus) (id sender : String) : Type 0 where
  pub message : AgentMessage
  pub logged : message ∈ b.log
  pub same_id : message.message_id ≡ id
  pub same_sender : message.sender_agent_id ≡ sender
  pub same_execution : message.execution_id ≡ b.execution_id
  pub same_task : message.task_id ≡ b.task_id

-- Every id that the bus has issued is in its log.
pub record IsAudited (b : MessageBus) : Type 0 where
  pub of_id : (id sender : String) → get id b.issued ≡ some sender → IsLogged b id sender

mem-snoc_left : (xs : List AgentMessage) (x y : AgentMessage) → y ∈ xs → y ∈ (xs ++ x ∷ [])
mem-snoc_left [] x y m = absurd m
mem-snoc_left (z ∷ xs) x y (inl e) = inl e
mem-snoc_left (z ∷ xs) x y (inr m) = inr (mem-snoc_left xs x y m)

mem-snoc_last : (xs : List AgentMessage) (x : AgentMessage) → x ∈ (xs ++ x ∷ [])
mem-snoc_last [] x = inl refl
mem-snoc_last (z ∷ xs) x = inr (mem-snoc_last xs x)

grown-IsLogged :
    (b : MessageBus) (issued : Dict String) (x : AgentMessage) (id sender : String)
    → IsLogged b id sender
    → IsLogged (record b { issued = issued; log = b.log ++ x ∷ [] }) id sender
grown-IsLogged b issued x id sender l = record {
  message = l.message;
  logged = mem-snoc_left b.log x l.message l.logged;
  same_id = l.same_id;
  same_sender = l.same_sender;
  same_execution = l.same_execution;
  same_task = l.same_task;
}

Step-IsAudited : {b c : MessageBus} → Step b c → IsAudited b → IsAudited c
unfolding new_message
Step-IsAudited {b} (sends handle fresh f clock r t k p m after h) audited =
    let s = send-ok handle fresh f clock r t k p b h in
    subst IsAudited (sym s.1) (record {
      of_id = λ id sender at. elim (get-put_cases fresh id handle.agent_id b.issued at) [
        | inl (e, q) ↦ record {
          message = m;
          logged = mem-snoc_last b.log m;
          same_id = ap (λ (x : AgentMessage). x.message_id) s.0 ∙ e;
          same_sender = ap (λ (x : AgentMessage). x.sender_agent_id) s.0 ∙ q;
          same_execution = ap (λ (x : AgentMessage). x.execution_id) s.0;
          same_task = ap (λ (x : AgentMessage). x.task_id) s.0;
        }
        | inr old ↦
            grown-IsLogged b (put fresh handle.agent_id b.issued) m id sender
              (audited.of_id id sender old)
      ];
    })
Step-IsAudited {b} (accepts clock m r after h) audited =
    subst IsAudited (sym (accept-Accepted clock m r b h).marked)
      (record { of_id = λ id sender at. marked-IsLogged id sender (audited.of_id id sender at) })
  where
    marked-IsLogged :
        (id sender : String)
        → IsLogged b id sender
        → IsLogged (record b { delivered = m.message_id ∷ b.delivered }) id sender
    marked-IsLogged id sender l = record {
      message = l.message;
      logged = l.logged;
      same_id = l.same_id;
      same_sender = l.same_sender;
      same_execution = l.same_execution;
      same_task = l.same_task;
    }

Reach-IsAudited : {b c : MessageBus} → Reach b c → IsAudited b → IsAudited c
Reach-IsAudited here a = a
Reach-IsAudited (next r s) a = Step-IsAudited s (Reach-IsAudited r a)

-- Whatever was sent and accepted on a new bus: a message that it accepts has the id and the sender
-- of a message in its log, for its own execution and task, and is addressed to the one who accepts.
pub accepted-IsLogged :
    (registry : AgentRegistry) (execution_id task_id : String) (max_age : ℤ) (b : MessageBus)
    (clock : ℤ) (m : AgentMessage) (recipient : String) (after : MessageBus)
    → Reach (new_bus registry execution_id task_id max_age) b
    → accept clock m recipient b ≡ ok after
    → IsLogged b m.message_id m.sender_agent_id × (m.recipient_agent_id ≡ recipient)
unfolding new_bus get
accepted-IsLogged registry execution_id task_id max_age b clock m recipient after r h =
    let a = accept-Accepted clock m recipient b h in
    (
      (Reach-IsAudited r (record { of_id = λ id sender at. cc })).of_id m.message_id
          m.sender_agent_id a.issued_by,
      a.same_recipient,
    )

-- A message that the bus accepts, it accepts as well with any other payload, type and correlation
-- id: none of them is compared with what was issued.
pub altered_message_accepted :
    (clock : ℤ) (m : AgentMessage) (recipient : String) (b after : MessageBus)
    (payload : Dict String) (message_type : MessageType) (correlation_id : String)
    → accept clock m recipient b ≡ ok after
    → accept clock
        (record m {
          payload = payload;
          message_type = message_type;
          correlation_id = correlation_id;
        })
        recipient
        b
      ≡ ok after
unfolding accept
altered_message_accepted clock m recipient b after payload message_type correlation_id h = h
