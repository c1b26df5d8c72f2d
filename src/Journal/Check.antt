-- ===== src/Journal/Check.antt =====
-- proofos/journal.py, `verify_events`: does a set of events form an unbroken chain? The messages
-- are constructors.
use proofos.Prelude.{
  ℕ, zero, suc, ◌+◌, ◌-◌, String, Bool, true, false, not, Option, none, some, List, [], ◌∷◌, ◌++◌,
}
use proofos.Prelude.Tests.{◌==◌, nat_eq, leb, if◌then◌else◌}
use proofos.Prelude.Lists.{any, select}
use proofos.Integrity.{Hash}
use proofos.Journal.Events.{ExecutionEvent, genesis_hash, intact}

pub data Problem : Type 0 where
  duplicate_sequence wrong_start altered unlinked : ℕ → Problem
  missing_sequences : List ℕ → Problem

-- sorted(events, key=lambda e: e.sequence): the sort is stable.
unfoldable pub insert_event : ExecutionEvent → List ExecutionEvent → List ExecutionEvent
insert_event e [] = e ∷ []
insert_event e (x ∷ xs) = if leb e.sequence x.sequence then e ∷ x ∷ xs else x ∷ insert_event e xs

unfoldable pub ordered : List ExecutionEvent → List ExecutionEvent
unfolding insert_event
ordered [] = []
ordered (e ∷ es) = insert_event e (ordered es)

-- `seen`, the last write first
unfoldable pub last_seen : ℕ → List (ℕ × String) → Option String
last_seen s [] = none
last_seen s ((t, i) ∷ seen) = if nat_eq t s then some i else last_seen s seen

abbrev pub other_id : Option String → String → Bool
other_id none i = false
other_id (some j) i = not (j == i)

-- The first loop.
unfoldable pub duplicates : List (ℕ × String) → List ExecutionEvent → List Problem
unfolding last_seen
duplicates seen [] = []
duplicates seen (e ∷ es) =
    (if other_id (last_seen e.sequence seen) e.event_id
      then duplicate_sequence e.sequence ∷ []
      else [])
    ++ duplicates ((e.sequence, e.event_id) ∷ seen) es

-- range(lo, lo + n)
unfoldable pub range_from : ℕ → ℕ → List ℕ
range_from lo zero = []
range_from lo (suc n) = lo ∷ range_from (lo + 1) n

-- the sequence of ordered[-1], for events after a first one
unfoldable pub last_sequence : ExecutionEvent → List ExecutionEvent → ℕ
last_sequence e [] = e.sequence
last_sequence e (x ∷ xs) = last_sequence x xs

unfoldable pub missing : ExecutionEvent → List ExecutionEvent → List ℕ
unfolding range_from last_sequence select any
missing e es =
    select (λ s. not (any (λ x. nat_eq x.sequence s) (e ∷ es)))
      (range_from e.sequence (last_sequence e es + 1 - e.sequence))

abbrev pub report_missing : List ℕ → List Problem
report_missing [] = []
report_missing (s ∷ ss) = missing_sequences (s ∷ ss) ∷ []

-- The last loop.
unfoldable pub broken_links : Hash → String → List ExecutionEvent → List Problem
unfolding intact
broken_links content_hash previous [] = []
broken_links content_hash previous (e ∷ es) =
    (if intact content_hash e then [] else altered e.sequence ∷ [])
    ++ ((if e.previous_hash == previous then [] else unlinked e.sequence ∷ [])
        ++ broken_links content_hash e.content_hash es)

unfoldable pub problems_of : Hash → List ExecutionEvent → List Problem
unfolding duplicates missing broken_links
problems_of content_hash [] = []
problems_of content_hash (e ∷ es) =
    duplicates [] (e ∷ es)
    ++ (report_missing (missing e es)
        ++ ((if nat_eq e.sequence 0 then [] else wrong_start e.sequence ∷ [])
            ++ broken_links content_hash genesis_hash (e ∷ es)))

abbrev pub no_problem : List Problem → Bool
no_problem [] = true
no_problem (p ∷ ps) = false

unfoldable pub verify_events : Hash → List ExecutionEvent → Bool × List Problem
unfolding ordered problems_of
verify_events content_hash events =
    let problems = problems_of content_hash (ordered events) in (no_problem problems, problems)
