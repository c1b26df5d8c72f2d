-- ===== src/Journal/Tamper.antt =====
-- What the hash chain protects: the contents behind a known last digest.
use proofos.Prelude.{String, ◌≡◌, refl, true, List, [], ◌∷◌, ◌++◌, arith}
use proofos.Prelude.Tests.{◌==◌, eq_iff, nat_eq, if◌then◌else◌}
use proofos.Integrity.{Json, text, Fields, Hash}
use proofos.Journal.Events.{ExecutionEvent, genesis_hash, intact, compute_hash}
use proofos.Journal.Check.{
  Problem, no_problem, ordered, duplicates, missing, report_missing, wrong_start, problems_of,
  broken_links, verify_events,
}

-- Each event intact, behind its predecessor.
abbrev pub IsLinked : Hash → String → List ExecutionEvent → Type 0
IsLinked content_hash previous [] = Unit
IsLinked content_hash previous (e ∷ es) =
    (e.content_hash ≡ compute_hash content_hash e)
    × (e.previous_hash ≡ previous)
    × IsLinked content_hash e.content_hash es

previous_of : Fields → Json
previous_of [] = Json.null
previous_of ((k, v) ∷ rest) = if k == "previous_hash" then v else previous_of rest

text_of : Json → String
text_of (text s) = s
text_of _ = ""

intact-hash :
    (content_hash : Hash) (e : ExecutionEvent)
    → intact content_hash e ≡ true
    → e.content_hash ≡ compute_hash content_hash e
unfolding intact
intact-hash content_hash e h = (eq_iff e.content_hash (compute_hash content_hash e)).0 h

no_problem-nil : (ps : List Problem) → no_problem ps ≡ true → ps ≡ []
no_problem-nil [] h = refl
no_problem-nil (p ∷ ps) h = cc

append-nil_right : (ps qs : List Problem) → ps ++ qs ≡ [] → qs ≡ []
append-nil_right [] qs h = h
append-nil_right (p ∷ ps) qs h = cc

links_of_problems :
    (content_hash : Hash) (x : ExecutionEvent) (xs : List ExecutionEvent)
    → problems_of content_hash (x ∷ xs) ≡ []
    → broken_links content_hash genesis_hash (x ∷ xs) ≡ []
unfolding problems_of
links_of_problems content_hash x xs h =
    append-nil_right (if nat_eq x.sequence 0 then [] else wrong_start x.sequence ∷ [])
      (broken_links content_hash genesis_hash (x ∷ xs))
      (append-nil_right (report_missing (missing x xs)) _
        (append-nil_right (duplicates [] (x ∷ xs)) _ h))

links-IsLinked :
    (content_hash : Hash) (p : String) (es : List ExecutionEvent)
    → broken_links content_hash p es ≡ []
    → IsLinked content_hash p es
unfolding broken_links
links-IsLinked content_hash p [] h = tt
links-IsLinked content_hash p (e ∷ es) h = (
  intact-hash content_hash e (ground arith),
  (eq_iff e.previous_hash p).0 (ground arith),
  links-IsLinked content_hash e.content_hash es (ground arith),
)

-- A set of events in which `verify_events` finds no problem is linked from the genesis hash.
pub verify-IsLinked :
    (content_hash : Hash) (es : List ExecutionEvent)
    → (verify_events content_hash es).0 ≡ true
    → IsLinked content_hash genesis_hash (ordered es)
unfolding verify_events
verify-IsLinked content_hash es h =
    by_events (ordered es) (no_problem-nil (problems_of content_hash (ordered es)) h)
  where
    by_events :
        (xs : List ExecutionEvent)
        → problems_of content_hash xs ≡ []
        → IsLinked content_hash genesis_hash xs
    by_events [] e = tt
    by_events (x ∷ xs) e =
        links-IsLinked content_hash genesis_hash (x ∷ xs) (links_of_problems content_hash x xs e)

-- Two intact events with sequence 0 and one id, the second linked behind the first, pass the
-- check: a repeated sequence is reported only if the ids differ.
pub repeated_sequence_accepted :
    (content_hash : Hash) (a b : ExecutionEvent)
    → intact content_hash a ≡ true
    → intact content_hash b ≡ true
    → a.sequence ≡ 0
    → b.sequence ≡ 0
    → a.event_id ≡ b.event_id
    → a.previous_hash ≡ genesis_hash
    → b.previous_hash ≡ a.content_hash
    → verify_events content_hash (a ∷ b ∷ []) ≡ (true, [])
unfolding verify_events
repeated_sequence_accepted content_hash a b ia ib sa sb i pa pb = ground (
  arith,
  eq_iff a.event_id b.event_id,
  eq_iff a.previous_hash genesis_hash,
  eq_iff b.previous_hash a.content_hash,
)
