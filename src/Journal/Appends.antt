-- ===== src/Journal/Appends.antt =====
-- The chains that a sink's own appends build.
use proofos.Prelude.{
  String, ◌≡◌, refl, inl, inr, true, Option, none, some, List, [], ◌∷◌, ◌++◌, arith,
}
use mathlib.Core.Path.{subst}
use proofos.Prelude.Tests.{eq_refl, Option-cases}
use proofos.Prelude.Lists.{length}
use proofos.Prelude.Assoc.{Dict, get, put, get-put_self, get-put_cases}
use proofos.Integrity.{Hash}
use proofos.Journal.Events.{EventDraft, ExecutionEvent, genesis_hash, intact}
use proofos.Journal.Sink.{
  ChainingSink, empty_sink, or_nil, last_hash, next_event, add_event, append, verify_chain,
}
use proofos.Journal.Chain.{IsChain, IsChain-verify, IsChain-snoc, ordered-IsChain}

pub next_event_fields :
    (content_hash : Hash) (chain : List ExecutionEvent) (d : EventDraft)
    → (intact content_hash (next_event content_hash chain d) ≡ true)
      × ((next_event content_hash chain d).previous_hash ≡ last_hash genesis_hash chain)
      × ((next_event content_hash chain d).sequence ≡ length chain)
      × ((next_event content_hash chain d).event_id ≡ d.event_id)
      × ((next_event content_hash chain d).execution_id ≡ d.execution_id)
unfolding next_event intact
next_event_fields content_hash chain d = (rw eq_refl, refl, refl, refl, refl)

-- The chain of every execution is unbroken.
pub record IsLog (content_hash : Hash) (sink : ChainingSink) : Type 0 where
  pub chains :
      (k : String) (chain : List ExecutionEvent)
      → get k sink.events ≡ some chain
      → IsChain content_hash genesis_hash 0 chain

pub or_nil-IsChain :
    (content_hash : Hash) (o : Option (List ExecutionEvent))
    → ((chain : List ExecutionEvent) → o ≡ some chain → IsChain content_hash genesis_hash 0 chain)
    → IsChain content_hash genesis_hash 0 (or_nil o)
or_nil-IsChain content_hash none h = tt
or_nil-IsChain content_hash (some chain) h = h chain refl

module _ (content_hash : Hash) (d : EventDraft) (sink : ChainingSink) where
  abbrev pub existing : Dict ExecutionEvent
  existing = or_nil (get d.execution_id sink.event_ids)

  abbrev pub chain : List ExecutionEvent
  chain = or_nil (get d.execution_id sink.events)

  abbrev pub appended : ExecutionEvent
  appended = next_event content_hash chain d

  -- A draft with an id that was seen changes nothing.
  pub append_old :
      {e : ExecutionEvent}
      → get d.event_id existing ≡ some e
      → append content_hash d sink ≡ (sink, e)
  unfolding append
  append_old h = rw h

  pub append_fresh :
      get d.event_id existing ≡ none
      → append content_hash d sink
        ≡ (add_event d.execution_id chain existing appended sink, appended)
  unfolding append
  append_fresh h = rw h

  -- The id of a new event is found again.
  added_id :
      get d.event_id (
        or_nil
          (get d.execution_id (add_event d.execution_id chain existing appended sink).event_ids))
      ≡ some appended
  unfolding add_event
  added_id =
      rw (get-put_self d.execution_id (put appended.event_id appended existing) sink.event_ids) (
        subst (λ (i : String). get i (put appended.event_id appended existing) ≡ some appended)
          (next_event_fields content_hash chain d).3
          (get-put_self appended.event_id appended existing))

  grown-IsChain :
      IsLog content_hash sink → IsChain content_hash genesis_hash 0 (chain ++ appended ∷ [])
  grown-IsChain log =
      let f = next_event_fields content_hash chain d in
      IsChain-snoc content_hash genesis_hash 0 chain appended
        (or_nil-IsChain content_hash (get d.execution_id sink.events) (log.chains d.execution_id))
        f.0 f.1 (omega (arith, f.2))

  add_event-IsLog :
      IsLog content_hash sink
      → IsLog content_hash (add_event d.execution_id chain existing appended sink)
  unfolding add_event
  add_event-IsLog log = record {
    chains = λ k c at.
        elim (get-put_cases d.execution_id k (chain ++ appended ∷ []) sink.events at) [
          | inl (_, q) ↦ rw (← q) (grown-IsChain log)
          | inr old ↦ log.chains k c old
        ];
  }

  pub append-IsLog : IsLog content_hash sink → IsLog content_hash (append content_hash d sink).0
  append-IsLog log = elim (Option-cases (get d.event_id existing)) [
    | inl new ↦ rw (append_fresh new) (add_event-IsLog log)
    | inr (e, old) ↦ rw (append_old old) log
  ]

-- Drafts appended one after the other.
unfoldable pub append_all : Hash → List EventDraft → ChainingSink → ChainingSink
append_all content_hash [] sink = sink
append_all content_hash (d ∷ ds) sink = append_all content_hash ds (append content_hash d sink).0

append_all-IsLog :
    (content_hash : Hash) (ds : List EventDraft) (sink : ChainingSink)
    → IsLog content_hash sink
    → IsLog content_hash (append_all content_hash ds sink)
unfolding append_all
append_all-IsLog content_hash [] sink log = log
append_all-IsLog content_hash (d ∷ ds) sink log =
    append_all-IsLog content_hash ds (append content_hash d sink).0
      (append-IsLog content_hash d sink log)

pub empty-IsLog : (content_hash : Hash) → IsLog content_hash empty_sink
unfolding get
empty-IsLog content_hash = record { chains = λ k c at. cc }

-- Whatever drafts a new sink is given, in whatever order, with ids repeated or not, `verify_chain`
-- finds no problem in any execution.
pub appended_chains_verify :
    (content_hash : Hash) (ds : List EventDraft) (execution_id : String)
    → verify_chain content_hash execution_id (append_all content_hash ds empty_sink) ≡ (true, [])
unfolding verify_chain
appended_chains_verify content_hash ds execution_id =
    let c =
      or_nil-IsChain content_hash (get execution_id (append_all content_hash ds empty_sink).events)
        ((append_all-IsLog content_hash ds empty_sink (empty-IsLog content_hash)).chains
          execution_id) in
    rw
      (ordered-IsChain content_hash genesis_hash 0
        (or_nil (get execution_id (append_all content_hash ds empty_sink).events)) c)
      (IsChain-verify content_hash
        (or_nil (get execution_id (append_all content_hash ds empty_sink).events)) c)

-- A retried append, of any draft with the same execution and event id, gives the event of the first
-- append and changes nothing.
pub append_idempotent :
    (content_hash : Hash) (d retry : EventDraft) (sink : ChainingSink)
    → retry.execution_id ≡ d.execution_id
    → retry.event_id ≡ d.event_id
    → append content_hash retry (append content_hash d sink).0 ≡ append content_hash d sink
append_idempotent content_hash d retry sink same_execution same_id =
    elim (Option-cases (get d.event_id (existing content_hash d sink))) [
      | inl new ↦ rw (append_fresh content_hash d sink new) (
          append_old content_hash retry
            (add_event d.execution_id (chain content_hash d sink) (existing content_hash d sink)
              (appended content_hash d sink) sink)
            (rw (same_execution, same_id) (added_id content_hash d sink)))
      | inr (e, old) ↦
          rw (append_old content_hash d sink old)
            (append_old content_hash retry sink (rw (same_execution, same_id) old))
    ]
