-- ===== src/Journal/Chain.antt =====
-- What an unbroken chain is, and that `verify_events` finds no problem in one.
use proofos.Prelude.{
  ℕ, zero, suc, ◌+◌, ◌-◌, ◌≤◌, ◌<◌, String, ◌≡◌, refl, ap, inl, inr, Bool, true, false, not, none,
  List, [], ◌∷◌, ◌++◌, arith,
}
use proofos.Prelude.Tests.{eq_iff, nat_eq, nat_eq_iff}
use proofos.Prelude.Lists.{◌∈◌, length, any, select}
use proofos.Integrity.{Hash}
use proofos.Journal.Events.{ExecutionEvent, genesis_hash, intact}
use proofos.Journal.Check.{
  ordered, last_seen, duplicates, range_from, last_sequence, missing, broken_links, problems_of,
  verify_events,
}
use proofos.Journal.Sink.{last_hash}

-- Each event intact, behind its predecessor, with the next sequence.
abbrev pub IsChain : Hash → String → ℕ → List ExecutionEvent → Type 0
IsChain content_hash previous n [] = Unit
IsChain content_hash previous n (e ∷ es) =
    (intact content_hash e ≡ true)
    × (e.previous_hash ≡ previous)
    × (e.sequence ≡ n)
    × IsChain content_hash e.content_hash (n + 1) es

module _ (content_hash : Hash) where
  pub ordered-IsChain :
      (p : String) (n : ℕ) (es : List ExecutionEvent)
      → IsChain content_hash p n es
      → ordered es ≡ es
  unfolding ordered
  ordered-IsChain p n [] c = refl
  ordered-IsChain p n (e ∷ []) c = refl
  ordered-IsChain p n (e ∷ x ∷ es) c =
      rw (ordered-IsChain e.content_hash (n + 1) (x ∷ es) c.3) (ground arith)

  AllBelow : ℕ → List (ℕ × String) → Type 0
  AllBelow n seen = (s : ℕ) → n ≤ s → last_seen s seen ≡ none

  duplicates-IsChain :
      (p : String) (n : ℕ) (es : List ExecutionEvent) (seen : List (ℕ × String))
      → ((s : ℕ) → n ≤ s → last_seen s seen ≡ none)
      → IsChain content_hash p n es
      → duplicates seen es ≡ []
  unfolding duplicates last_seen
  duplicates-IsChain p n [] seen below c = refl
  duplicates-IsChain p n (e ∷ es) seen below c = rw (below e.sequence (omega (arith, c.2))) (
      duplicates-IsChain e.content_hash (n + 1) es ((e.sequence, e.event_id) ∷ seen)
        (λ s h. ground (arith, c.2, below s)) c.3)

  links-IsChain :
      (p : String) (n : ℕ) (es : List ExecutionEvent)
      → IsChain content_hash p n es
      → broken_links content_hash p es ≡ []
  unfolding broken_links
  links-IsChain p n [] c = refl
  links-IsChain p n (e ∷ es) c =
      rw (c.0, (eq_iff e.previous_hash p).1 c.1, links-IsChain e.content_hash (n + 1) es c.3)

  pub last_sequence-IsChain :
      (p : String) (n : ℕ) (e : ExecutionEvent) (es : List ExecutionEvent)
      → IsChain content_hash p n (e ∷ es)
      → last_sequence e es ≡ n + length es
  unfolding last_sequence
  last_sequence-IsChain p n e [] c = omega (arith, c.2)
  last_sequence-IsChain p n e (x ∷ es) c =
      omega (arith, last_sequence-IsChain e.content_hash (n + 1) x es c.3)

  -- Every sequence of the range is there.
  present-IsChain :
      (p : String) (n : ℕ) (es : List ExecutionEvent) (s : ℕ)
      → IsChain content_hash p n es
      → n ≤ s
      → s < n + length es
      → any (λ x. nat_eq x.sequence s) es ≡ true
  unfolding any
  present-IsChain p n [] s c lo hi = absurd (omega arith)
  present-IsChain p n (e ∷ es) s c lo hi =
      ground (arith, c.2, present-IsChain e.content_hash (n + 1) es s c.3)

select-nil : (p : ℕ → Bool) (xs : List ℕ) → ((x : ℕ) → x ∈ xs → p x ≡ false) → select p xs ≡ []
unfolding select
select-nil p [] h = refl
select-nil p (x ∷ xs) h = rw (h x (inl refl)) (select-nil p xs (λ y m. h y (inr m)))

mem-range_from : (lo n s : ℕ) → s ∈ range_from lo n → (lo ≤ s) × (s < lo + n)
unfolding range_from
mem-range_from lo zero s m = absurd m
mem-range_from lo (suc n) s (inl e) = (omega arith, omega arith)
mem-range_from lo (suc n) s (inr m) =
    let r = mem-range_from (lo + 1) n s m in (omega (arith, r.0), omega (arith, r.1))

module _ (content_hash : Hash) where
  missing-IsChain :
      (p : String) (n : ℕ) (e : ExecutionEvent) (es : List ExecutionEvent)
      → IsChain content_hash p n (e ∷ es)
      → missing e es ≡ []
  unfolding missing
  missing-IsChain p n e es c =
      select-nil (λ s. not (any (λ x. nat_eq x.sequence s) (e ∷ es)))
        (range_from e.sequence (last_sequence e es + 1 - e.sequence))
        (λ s m.
          let r = mem-range_from e.sequence (last_sequence e es + 1 - e.sequence) s m in
          let l = last_sequence-IsChain content_hash p n e es c in
          ap not (
            present-IsChain content_hash p n (e ∷ es) s c (omega (arith, r.0, c.2))
              (omega (arith, r.1, c.2, l))))

  problems-IsChain :
      (e : ExecutionEvent) (es : List ExecutionEvent)
      → IsChain content_hash genesis_hash 0 (e ∷ es)
      → problems_of content_hash (e ∷ es) ≡ []
  unfolding problems_of
  problems-IsChain e es c = rw (
    duplicates-IsChain content_hash e.content_hash 1 es ((e.sequence, e.event_id) ∷ [])
        (λ s h. ground (arith, c.2)) c.3,
    missing-IsChain genesis_hash 0 e es c,
    (nat_eq_iff e.sequence 0).1 c.2,
    c.0,
    (eq_iff e.previous_hash genesis_hash).1 c.1,
    links-IsChain content_hash e.content_hash 1 es c.3,
  )

  -- `verify_events` finds no problem in an unbroken chain from the genesis hash.
  pub IsChain-verify :
      (es : List ExecutionEvent)
      → IsChain content_hash genesis_hash 0 es
      → verify_events content_hash es ≡ (true, [])
  unfolding verify_events
  IsChain-verify [] c = refl
  IsChain-verify (e ∷ es) c =
      rw (ordered-IsChain content_hash genesis_hash 0 (e ∷ es) c, problems-IsChain e es c)

  -- One more event at the end.
  pub IsChain-snoc :
      (p : String) (n : ℕ) (es : List ExecutionEvent) (x : ExecutionEvent)
      → IsChain content_hash p n es
      → intact content_hash x ≡ true
      → x.previous_hash ≡ last_hash p es
      → x.sequence ≡ n + length es
      → IsChain content_hash p n (es ++ x ∷ [])
  unfolding last_hash
  IsChain-snoc p n [] x c i h s = (i, h, omega (arith, s), tt)
  IsChain-snoc p n (e ∷ es) x c i h s =
      (c.0, c.1, c.2, IsChain-snoc e.content_hash (n + 1) es x c.3 i h (omega (arith, s)))
