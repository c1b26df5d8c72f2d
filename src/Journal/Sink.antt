-- ===== src/Journal/Sink.antt =====
-- proofos/journal.py: the sinks. `emitted` are the events given to `_emit`, in order.
use proofos.Prelude.{ℕ, String, Bool, not, Option, none, some, List, [], ◌∷◌, ◌++◌}
use proofos.Prelude.Tests.{◌==◌, nat_eq, if◌then◌else◌}
use proofos.Prelude.Lists.{length}
use proofos.Prelude.Results.{Result, ok, err}
use proofos.Prelude.Assoc.{Dict, get, put}
use proofos.Integrity.{Hash}
use proofos.Journal.Events.{EventDraft, ExecutionEvent, genesis_hash, intact, finalize}
use proofos.Journal.Check.{Problem, ordered, verify_events}

-- JournalUnavailableError, by its cause
pub data JournalError : Type 0 where
  not_intact id_conflict : String → JournalError
  sequence_conflict : ℕ → String → JournalError

pub record ChainingSink : Type 0 where
  pub events : Dict (List ExecutionEvent)
  pub event_ids : Dict (Dict ExecutionEvent)
  pub emitted : List ExecutionEvent

abbrev pub empty_sink : ChainingSink
empty_sink = record { events = []; event_ids = []; emitted = [] }

-- d.setdefault(k, empty): the value found, and the dict afterwards
abbrev pub or_nil {ℓ} : {V : Type ℓ} → Option (List V) → List V
or_nil none = []
or_nil (some v) = v

-- chain[-1].content_hash if chain else GENESIS_HASH
unfoldable pub last_hash : String → List ExecutionEvent → String
last_hash previous [] = previous
last_hash previous (e ∷ es) = last_hash e.content_hash es

-- The event at the end of `append`: placed behind the chain.
unfoldable pub next_event : Hash → List ExecutionEvent → EventDraft → ExecutionEvent
unfolding finalize last_hash
next_event content_hash chain draft =
    finalize content_hash draft (length chain) (last_hash genesis_hash chain)

-- What `append` and `store` write: the chain, the id and the emission.
unfoldable pub add_event :
    String
    → List ExecutionEvent
    → Dict ExecutionEvent
    → ExecutionEvent
    → ChainingSink
    → ChainingSink
unfolding put
add_event execution_id chain existing e sink = record {
  events = put execution_id (chain ++ e ∷ []) sink.events;
  event_ids = put execution_id (put e.event_id e existing) sink.event_ids;
  emitted = sink.emitted ++ e ∷ [];
}

abbrev pub append_new :
    Hash
    → EventDraft
    → Dict ExecutionEvent
    → ChainingSink
    → Option ExecutionEvent
    → ChainingSink × ExecutionEvent
append_new content_hash draft existing sink (some e) = (sink, e)
append_new content_hash draft existing sink none =
    let chain = or_nil (get draft.execution_id sink.events) in
    let e = next_event content_hash chain draft in
    (add_event draft.execution_id chain existing e sink, e)

-- An empty `setdefault` entry shows in no method, and is not kept.
unfoldable pub append : Hash → EventDraft → ChainingSink → ChainingSink × ExecutionEvent
unfolding get next_event add_event
append content_hash draft sink =
    let existing = or_nil (get draft.execution_id sink.event_ids) in
    append_new content_hash draft existing sink (get draft.event_id existing)

-- The loop over the chain: the first event with this sequence.
unfoldable pub holder_of : ℕ → List ExecutionEvent → Option ExecutionEvent
holder_of s [] = none
holder_of s (x ∷ xs) = if nat_eq x.sequence s then some x else holder_of s xs

abbrev pub store_new :
    ExecutionEvent
    → List ExecutionEvent
    → Dict ExecutionEvent
    → ChainingSink
    → Option ExecutionEvent
    → Result JournalError ChainingSink
store_new e chain existing sink (some recorded) =
    err (sequence_conflict e.sequence recorded.event_id)
store_new e chain existing sink none = ok (add_event e.execution_id chain existing e sink)

abbrev pub store_known :
    ExecutionEvent
    → List ExecutionEvent
    → Dict ExecutionEvent
    → ChainingSink
    → Option ExecutionEvent
    → Result JournalError ChainingSink
store_known e chain existing sink (some by_id) =
    if by_id.content_hash == e.content_hash then ok sink else err (id_conflict e.event_id)
store_known e chain existing sink none =
    store_new e chain existing sink (holder_of e.sequence chain)

unfoldable pub store : Hash → ExecutionEvent → ChainingSink → Result JournalError ChainingSink
unfolding intact get holder_of add_event
store content_hash e sink =
    let existing = or_nil (get e.execution_id sink.event_ids) in
    let chain = or_nil (get e.execution_id sink.events) in
    if not (intact content_hash e)
    then err (not_intact e.event_id)
    else store_known e chain existing sink (get e.event_id existing)

unfoldable pub list_execution : String → ChainingSink → List ExecutionEvent
unfolding ordered get
list_execution execution_id sink = ordered (or_nil (get execution_id sink.events))

unfoldable pub verify_chain : Hash → String → ChainingSink → Bool × List Problem
unfolding verify_events list_execution
verify_chain content_hash execution_id sink =
    verify_events content_hash (list_execution execution_id sink)

-- FanoutJournalSink with one replica: append through the primary, store the event in the replica.
pub record Fanout : Type 0 where
  pub primary : ChainingSink
  pub replica : ChainingSink

-- If the replica raises, the primary keeps the event.
abbrev pub replicated :
    ChainingSink
    → ChainingSink
    → ExecutionEvent
    → Result JournalError ChainingSink
    → Fanout × Result JournalError ExecutionEvent
replicated primary replica e (ok replica') =
    (record { primary = primary; replica = replica' }, ok e)
replicated primary replica e (err x) = (record { primary = primary; replica = replica }, err x)

unfoldable pub fanout_append :
    Hash → EventDraft → Fanout → Fanout × Result JournalError ExecutionEvent
fanout_append content_hash draft f =
    let (primary, e) = append content_hash draft f.primary in
    replicated primary f.replica e (store content_hash e f.replica)
