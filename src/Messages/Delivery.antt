-- ===== src/Messages/Delivery.antt =====
-- What a recipient may conclude from a message that the bus accepted.
use mathlib.Core.Bool.{false≢true}
use proofos.Prelude.{
  String, ◌≡◌, ◌≢◌, sym, ap, ◌∙◌, true, false, not, Option, none, some, [], ◌∷◌, ◌++◌, arith,
}
use proofos.Prelude.Tests.{◌==◌, eq_iff, eq_refl}
use proofos.Prelude.Sets.{has}
use proofos.Prelude.Int.{ℤ, leb_ℤ, ◌-ℤ◌}
use proofos.Prelude.Assoc.{Dict, get, put}
use proofos.Prelude.Results.{
  Result, ok, ◌>>=◌, ◌>>◌, raise_if, bind-ok, then-ok, raise_if-ok, passed_check, ok_inj,
}
use proofos.Registry.{AuthorityError, get_agent}
use proofos.Messages.{
  MessageType, AgentMessage, MessageBus, new_message, issue_message, MessageSender, send,
  MessageRejected, wrong_sender, wrong_execution, wrong_task, wrong_recipient, replayed, too_old,
  check_sender, accept,
}

pub data Step (b : MessageBus) : MessageBus → Type 0 where
  sends :
      (handle : MessageSender) (fresh fresh_correlation : String) (clock : ℤ) (recipient : String)
      (message_type : MessageType) (correlation_id : String) (payload : Dict String)
      (m : AgentMessage) (after : MessageBus)
      → send handle fresh fresh_correlation clock recipient message_type correlation_id payload b
        ≡ ok (m, after)
      → Step b after
  accepts :
      (clock : ℤ) (m : AgentMessage) (recipient : String) (after : MessageBus)
      → accept clock m recipient b ≡ ok after
      → Step b after

pub data Reach (b : MessageBus) : MessageBus → Type 0 where
  here : Reach b b
  next : {c d : MessageBus} → Reach b c → Step c d → Reach b d

-- What a successful `send` has done.
pub send-ok :
    (handle : MessageSender) (fresh fresh_correlation : String) (clock : ℤ) (recipient : String)
    (message_type : MessageType) (correlation_id : String) (payload : Dict String) (b : MessageBus)
    {m : AgentMessage} {after : MessageBus}
    → send handle fresh fresh_correlation clock recipient message_type correlation_id payload b
      ≡ ok (m, after)
    → (m
        ≡ new_message b fresh fresh_correlation clock handle.agent_id recipient message_type
            correlation_id payload)
      × (after ≡ record b { issued = put fresh handle.agent_id b.issued; log = b.log ++ m ∷ [] })
unfolding send issue_message
send-ok handle fresh fresh_correlation clock recipient message_type correlation_id payload b {m}
      {after} h =
    let s =
      bind-ok (get_agent handle.agent_id b.registry)
        (λ r. get_agent recipient b.registry >>= λ q. made) h in
    let r = bind-ok (get_agent recipient b.registry) (λ q. made) s.2 in
    let e = ok_inj r.2 in
    let same = ap (λ (p : AgentMessage × MessageBus). p.0) e in
    (
      sym same,
      sym (ap (λ (p : AgentMessage × MessageBus). p.1) e)
          ∙ ap
              (λ (x : AgentMessage). record b {
                issued = put fresh handle.agent_id b.issued;
                log = b.log ++ x ∷ [];
              })
              same,
    )
  where
    made : Result AuthorityError (AgentMessage × MessageBus)
    made = ok (
      new_message b fresh fresh_correlation clock handle.agent_id recipient message_type
          correlation_id payload,
      record b {
        issued = put fresh handle.agent_id b.issued;
        log =
            b.log
            ++ new_message b fresh fresh_correlation clock handle.agent_id recipient message_type
                correlation_id payload
              ∷ [];
      },
    )

-- What a successful `accept` has checked and done.
pub record Accepted (clock : ℤ) (m : AgentMessage) (recipient : String) (b after : MessageBus)
    : Type 0 where
  pub issued_by : get m.message_id b.issued ≡ some m.sender_agent_id
  pub same_execution : m.execution_id ≡ b.execution_id
  pub same_task : m.task_id ≡ b.task_id
  pub same_recipient : m.recipient_agent_id ≡ recipient
  pub undelivered : has m.message_id b.delivered ≡ false
  pub recent : leb_ℤ (clock -ℤ m.created_at) b.max_age ≡ true
  pub marked : after ≡ record b { delivered = m.message_id ∷ b.delivered }

check_sender-ok :
    (m : AgentMessage) (o : Option String) → check_sender m o ≡ ok tt → o ≡ some m.sender_agent_id
check_sender-ok m none h = cc
check_sender-ok m (some s) h = ap some (
    (eq_iff s m.sender_agent_id).0
      (passed_check (s == m.sender_agent_id) (wrong_sender m.message_id) h))

pub accept-Accepted :
    (clock : ℤ) (m : AgentMessage) (recipient : String) (b : MessageBus) {after : MessageBus}
    → accept clock m recipient b ≡ ok after
    → Accepted clock m recipient b after
unfolding accept
accept-Accepted clock m recipient b {after} h =
    let s = then-ok (check_sender m (get m.message_id b.issued)) from_execution h in
    let e =
      then-ok (raise_if (not (m.execution_id == b.execution_id)) (wrong_execution m.message_id))
        from_task s.1 in
    let t =
      then-ok (raise_if (not (m.task_id == b.task_id)) (wrong_task m.message_id)) from_recipient
        e.1 in
    let r =
      then-ok (raise_if (not (m.recipient_agent_id == recipient)) (wrong_recipient m.message_id))
        from_replay t.1 in
    let d =
      then-ok (raise_if (has m.message_id b.delivered) (replayed m.message_id)) from_age r.1 in
    let a =
      then-ok (raise_if (not (leb_ℤ (clock -ℤ m.created_at) b.max_age)) (too_old m.message_id))
        delivered d.1 in
    record {
      issued_by = check_sender-ok m (get m.message_id b.issued) s.0;
      same_execution = (eq_iff m.execution_id b.execution_id).0 (passed_check _ _ e.0);
      same_task = (eq_iff m.task_id b.task_id).0 (passed_check _ _ t.0);
      same_recipient = (eq_iff m.recipient_agent_id recipient).0 (passed_check _ _ r.0);
      undelivered = raise_if-ok (has m.message_id b.delivered) (replayed m.message_id) d.0;
      recent = passed_check _ _ a.0;
      marked = sym (ok_inj a.1);
    }
  where
    delivered : Result MessageRejected MessageBus
    delivered = ok (record b { delivered = m.message_id ∷ b.delivered })

    from_age : Result MessageRejected MessageBus
    from_age =
        raise_if (not (leb_ℤ (clock -ℤ m.created_at) b.max_age)) (too_old m.message_id) >> delivered

    from_replay : Result MessageRejected MessageBus
    from_replay = raise_if (has m.message_id b.delivered) (replayed m.message_id) >> from_age

    from_recipient : Result MessageRejected MessageBus
    from_recipient =
        raise_if (not (m.recipient_agent_id == recipient)) (wrong_recipient m.message_id)
        >> from_replay

    from_task : Result MessageRejected MessageBus
    from_task = raise_if (not (m.task_id == b.task_id)) (wrong_task m.message_id) >> from_recipient

    from_execution : Result MessageRejected MessageBus
    from_execution =
        raise_if (not (m.execution_id == b.execution_id)) (wrong_execution m.message_id)
        >> from_task

Step-delivered :
    (id : String) {b c : MessageBus}
    → Step b c
    → has id b.delivered ≡ true
    → has id c.delivered ≡ true
unfolding has
Step-delivered id {b} (sends handle f g clock r t k p m after h) d =
    ap (λ (x : MessageBus). has id x.delivered) (send-ok handle f g clock r t k p b h).1 ∙ d
Step-delivered id {b} (accepts clock m r after h) d =
    ap (λ (x : MessageBus). has id x.delivered) (accept-Accepted clock m r b h).marked
    ∙ rw d (ground arith)

Reach-delivered :
    (id : String) {b c : MessageBus}
    → Reach b c
    → has id b.delivered ≡ true
    → has id c.delivered ≡ true
Reach-delivered id here d = d
Reach-delivered id (next r s) d = Step-delivered id s (Reach-delivered id r d)

-- Once a message was accepted, no message with its id is accepted again, by any recipient, whatever
-- is sent or accepted in between.
pub accepted_once :
    (clock later : ℤ) (m again : AgentMessage) (recipient other : String)
    (b after now final : MessageBus)
    → accept clock m recipient b ≡ ok after
    → Reach after now
    → again.message_id ≡ m.message_id
    → accept later again other now ≢ ok final
unfolding has
accepted_once clock later m again recipient other b after now final h r same k =
    let marked =
      ap (λ (x : MessageBus). has m.message_id x.delivered)
        (accept-Accepted clock m recipient b h).marked
      ∙ rw eq_refl in
    let seen =
      ap (λ (i : String). has i now.delivered) same ∙ Reach-delivered m.message_id r marked in
    false≢true (sym (accept-Accepted later again other now k).undelivered ∙ seen)
