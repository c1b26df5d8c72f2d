-- ===== src/Journal/Replica.antt =====
-- A replica behind a fan-out keeps step with its primary.
use mathlib.Core.Path.{ap₂}
use proofos.Prelude.{
  ℕ, ◌+◌, ◌≤◌, String, ◌≡◌, refl, ap, ◌∙◌, inl, inr, true, Option, none, some, List, [], ◌∷◌, arith,
}
use proofos.Prelude.Tests.{eq_refl, Option-cases}
use proofos.Prelude.Lists.{length}
use proofos.Prelude.Results.{Result, ok}
use proofos.Prelude.Assoc.{Dict, get, put, get-put_cases}
use proofos.Integrity.{Hash}
use proofos.Journal.Events.{EventDraft, ExecutionEvent, genesis_hash, intact}
use proofos.Journal.Sink.{
  ChainingSink, JournalError, empty_sink, or_nil, add_event, append, store, store_known, store_new,
  holder_of, Fanout, replicated, fanout_append,
}
use proofos.Journal.Chain.{IsChain}
use proofos.Journal.Appends.{
  IsLog, existing, chain, appended, append_old, append_fresh, append-IsLog, append_all, empty-IsLog,
  or_nil-IsChain, next_event_fields,
}

-- Every event stands under its own id and execution.
pub record IsIndexed (content_hash : Hash) (sink : ChainingSink) : Type 0 where
  pub own_id :
      (k i : String) (ids : Dict ExecutionEvent) (e : ExecutionEvent)
      → get k sink.event_ids ≡ some ids
      → get i ids ≡ some e
      → (e.event_id ≡ i) × (e.execution_id ≡ k) × (intact content_hash e ≡ true)

holder_of-IsChain :
    (content_hash : Hash) (p : String) (n s : ℕ) (es : List ExecutionEvent)
    → IsChain content_hash p n es
    → n + length es ≤ s
    → holder_of s es ≡ none
unfolding holder_of
holder_of-IsChain content_hash p n s [] c h = refl
holder_of-IsChain content_hash p n s (e ∷ es) c h =
    ground (arith, c.2, holder_of-IsChain content_hash e.content_hash (n + 1) s es c.3)

or_nil_found :
    (o : Option (Dict ExecutionEvent)) (i : String) (e : ExecutionEvent)
    → get i (or_nil o) ≡ some e
    → (ids : Dict ExecutionEvent) × (o ≡ some ids) × (get i ids ≡ some e)
unfolding get
or_nil_found none i e h = cc
or_nil_found (some ids) i e h = (ids, refl, h)

store_at :
    (content_hash : Hash) (e : ExecutionEvent) (sink : ChainingSink) {k i : String}
    → e.execution_id ≡ k
    → e.event_id ≡ i
    → intact content_hash e ≡ true
    → store content_hash e sink
      ≡ store_known e
          (or_nil (get k sink.events))
          (or_nil (get k sink.event_ids))
          sink
          (get i (or_nil (get k sink.event_ids)))
unfolding store
store_at content_hash e sink p q h = rw h (
    ap₂
      (λ (k i : String).
        store_known e (or_nil (get k sink.events)) (or_nil (get k sink.event_ids)) sink
          (get i (or_nil (get k sink.event_ids))))
      p q)

module _ (content_hash : Hash) (d : EventDraft) (sink : ChainingSink) where
  abbrev grown : ChainingSink
  grown =
      add_event d.execution_id (chain content_hash d sink) (existing content_hash d sink)
        (appended content_hash d sink) sink

  found_fields :
      (i : String) (e : ExecutionEvent)
      → IsIndexed content_hash sink
      → get i (existing content_hash d sink) ≡ some e
      → (e.event_id ≡ i) × (e.execution_id ≡ d.execution_id) × (intact content_hash e ≡ true)
  found_fields i e index h =
      let o = or_nil_found (get d.execution_id sink.event_ids) i e h in
      index.own_id d.execution_id i o.0 e o.1 o.2

  grown-IsIndexed : IsIndexed content_hash sink → IsIndexed content_hash grown
  unfolding add_event
  grown-IsIndexed index = record {
    own_id = λ k i ids e at found.
        elim (get-put_cases d.execution_id k
          (put (appended content_hash d sink).event_id (appended content_hash d sink)
            (existing content_hash d sink))
          sink.event_ids at) [
            | inl (same, q) ↦ rw (← same) (in_own i e (rw (← q) at found))
            | inr old ↦ index.own_id k i ids e old found
          ];
  }
    where
      new : ExecutionEvent
      new = appended content_hash d sink

      in_own :
          (i : String) (e : ExecutionEvent)
          → get i (put new.event_id new (existing content_hash d sink)) ≡ some e
          → (e.event_id ≡ i) × (e.execution_id ≡ d.execution_id) × (intact content_hash e ≡ true)
      in_own i e found =
          elim (get-put_cases new.event_id i new (existing content_hash d sink) found) [
            | inl (same, q) ↦
                let f = next_event_fields content_hash (chain content_hash d sink) d in
                rw (← q) (same, f.4, f.0)
            | inr old ↦ found_fields i e index old
          ]

  -- Storing the event that an append made in an equal sink is that append.
  store_fresh :
      IsLog content_hash sink
      → get d.event_id (existing content_hash d sink) ≡ none
      → store content_hash (appended content_hash d sink) sink ≡ ok grown
  store_fresh log new =
      let f = next_event_fields content_hash (chain content_hash d sink) d in
      let e = appended content_hash d sink in
      let free : holder_of e.sequence (chain content_hash d sink) ≡ none =
        holder_of-IsChain content_hash genesis_hash 0 e.sequence (chain content_hash d sink)
          (or_nil-IsChain content_hash (get d.execution_id sink.events) (log.chains d.execution_id))
          (omega (arith, f.2)) in
      store_at content_hash e sink f.4 f.3 f.0
      ∙ ap (store_known e (chain content_hash d sink) (existing content_hash d sink) sink) new
      ∙ ap (store_new e (chain content_hash d sink) (existing content_hash d sink) sink) free
      ∙ ap {B = Result JournalError ChainingSink}
          (λ (k : String).
            ok (add_event k (chain content_hash d sink) (existing content_hash d sink) e sink))
          f.4

  store_again :
      (e : ExecutionEvent)
      → IsIndexed content_hash sink
      → get d.event_id (existing content_hash d sink) ≡ some e
      → store content_hash e sink ≡ ok sink
  store_again e index old =
      let f = found_fields d.event_id e index old in
      store_at content_hash e sink f.1 f.0 f.2
      ∙ ap (store_known e (chain content_hash d sink) (existing content_hash d sink) sink) old
      ∙ rw eq_refl

-- The replica is equal to the primary, which is well formed.
pub record InStep (content_hash : Hash) (f : Fanout) : Type 0 where
  pub same : f.replica ≡ f.primary
  pub log : IsLog content_hash f.primary
  pub index : IsIndexed content_hash f.primary

append-IsIndexed :
    (content_hash : Hash) (d : EventDraft) (sink : ChainingSink)
    → IsIndexed content_hash sink
    → IsIndexed content_hash (append content_hash d sink).0
append-IsIndexed content_hash d sink index =
    elim (Option-cases (get d.event_id (existing content_hash d sink))) [
      | inl new ↦
          rw (append_fresh content_hash d sink new) (grown-IsIndexed content_hash d sink index)
      | inr (e, old) ↦ rw (append_old content_hash d sink old) index
    ]

store-append :
    (content_hash : Hash) (d : EventDraft) (sink : ChainingSink)
    → IsLog content_hash sink
    → IsIndexed content_hash sink
    → store content_hash (append content_hash d sink).1 sink ≡ ok (append content_hash d sink).0
store-append content_hash d sink log index =
    elim (Option-cases (get d.event_id (existing content_hash d sink))) [
      | inl new ↦
          rw (append_fresh content_hash d sink new) (store_fresh content_hash d sink log new)
      | inr (e, old) ↦
          rw (append_old content_hash d sink old) (store_again content_hash d sink e index old)
    ]

fanout_lem :
    (content_hash : Hash) (d : EventDraft) (f : Fanout)
    → InStep content_hash f
    → fanout_append content_hash d f ≡ (
      record {
        primary = (append content_hash d f.primary).0;
        replica = (append content_hash d f.primary).0;
      },
      ok (append content_hash d f.primary).1,
    )
unfolding fanout_append
fanout_lem content_hash d f step =
    ap
      (λ (r : ChainingSink).
        replicated (append content_hash d f.primary).0 r (append content_hash d f.primary).1
          (store content_hash (append content_hash d f.primary).1 r))
      step.same
    ∙ ap
        (replicated (append content_hash d f.primary).0 f.primary
          (append content_hash d f.primary).1)
        (store-append content_hash d f.primary step.log step.index)

-- While the replica is in step, an append through the fan-out gives the primary's event with no
-- error, leaves the primary as its own append would, and leaves the replica in step.
pub fanout_append-InStep :
    (content_hash : Hash) (d : EventDraft) (f : Fanout)
    → InStep content_hash f
    → ((fanout_append content_hash d f).1 ≡ ok (append content_hash d f.primary).1)
      × ((fanout_append content_hash d f).0.primary ≡ (append content_hash d f.primary).0)
      × InStep content_hash (fanout_append content_hash d f).0
fanout_append-InStep content_hash d f step =
    let e = fanout_lem content_hash d f step in
    (
      ap (λ t. t.1) e,
      ap (λ t. t.0.primary) e,
      rw e (record {
        same = refl;
        log = append-IsLog content_hash d f.primary step.log;
        index = append-IsIndexed content_hash d f.primary step.index;
      }),
    )

-- Drafts appended through the fan-out, one after the other.
unfoldable pub fanout_all : Hash → List EventDraft → Fanout → Fanout
fanout_all content_hash [] f = f
fanout_all content_hash (d ∷ ds) f = fanout_all content_hash ds (fanout_append content_hash d f).0

fanout_all-InStep :
    (content_hash : Hash) (ds : List EventDraft) (f : Fanout)
    → InStep content_hash f
    → ((fanout_all content_hash ds f).primary ≡ append_all content_hash ds f.primary)
      × InStep content_hash (fanout_all content_hash ds f)
unfolding fanout_all append_all
fanout_all-InStep content_hash [] f step = (refl, step)
fanout_all-InStep content_hash (d ∷ ds) f step =
    let one = fanout_append-InStep content_hash d f step in
    let rest = fanout_all-InStep content_hash ds (fanout_append content_hash d f).0 one.2 in
    (rest.0 ∙ ap (append_all content_hash ds) one.1, rest.1)

-- Whatever drafts two new sinks are given through a fan-out, the primary is what its own appends
-- make of them, and the replica is equal to it.
pub replica_in_step :
    (content_hash : Hash) (ds : List EventDraft)
    → ((fanout_all content_hash ds (record { primary = empty_sink; replica = empty_sink })).primary
        ≡ append_all content_hash ds empty_sink)
      × ((fanout_all content_hash ds
            (record { primary = empty_sink; replica = empty_sink })).replica
          ≡ append_all content_hash ds empty_sink)
unfolding get
replica_in_step content_hash ds =
    let r =
      fanout_all-InStep content_hash ds (record { primary = empty_sink; replica = empty_sink })
        (record {
          same = refl;
          log = empty-IsLog content_hash;
          index = record { own_id = λ k i ids e at found. cc };
        }) in
    (r.0, (r.1).same ∙ r.0)
