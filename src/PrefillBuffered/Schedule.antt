-- ===== src/PrefillBuffered/Schedule.antt =====
-- The double-buffered schedule of prefill_buffered.rs against a loop that prepares each layer when it
-- is computed.
use machserve.Common.{
  ℕ, zero, suc, ◌+◌, ◌%◌, ◌≡◌, refl, ap, ◌∙◌, ◌⊎◌, inl, inr, true, false, Bool-cases, Option, none,
  some, List, [], ◌∷◌, ◌++◌, ltb, ◌==◌, arith, Outcome, returns,
}
use machserve.PrefillBuffered.{
  Result, ok, err, Slots, slot, set_slot, buffered_from, run_double_buffered, attempt,
}

other_slot :
    (i : ℕ)
    → (((i % 2 == 0) ≡ true) × (((i + 1) % 2 == 0) ≡ false))
      ⊎ (((i % 2 == 0) ≡ false) × (((i + 1) % 2 == 0) ≡ true))
other_slot i = elim (Bool-cases (i % 2 == 0)) [
  | inl p ↦ inl (p, ground (arith, p))
  | inr p ↦ inr (p, ground (arith, p))
]

-- To fill the other slot leaves this one.
slot-set_next :
    {P : Type 0} (slots : Slots P) (i : ℕ) (v : Option P)
    → slot (set_slot slots (i + 1) v) i ≡ slot slots i
slot-set_next slots i v = elim (other_slot i) [
  | inl (p, q) ↦ rw q (rw p refl)
  | inr (p, q) ↦ rw q (rw p refl)
]

-- What was put into the other slot is there when this one was taken.
slot-taken :
    {P : Type 0} (slots : Slots P) (i : ℕ) (v : Option P)
    → slot (set_slot (set_slot slots (i + 1) v) i none) (suc i) ≡ v
slot-taken slots i v =
    let place : suc i ≡ i + 1 = omega arith in
    ap (slot (set_slot (set_slot slots (i + 1) v) i none)) place
    ∙ elim (other_slot i) [ inl (p, q) ↦ rw q (rw p refl) | inr (p, q) ↦ rw q (rw p refl) ]

module _ {P S O E X : Type 0} (prepare : ℕ → X → Result E P × X)
    (compute : ℕ → P → S → Result E O × S) where
  abbrev pub sequential_from : ℕ → ℕ → X → S → List O → Result E (List O) × S
  sequential_from zero i x state outputs = (ok outputs, state)
  sequential_from (suc left) i x state outputs =
      attempt (prepare i x) (λ e _. (err e, state))
        (λ p x'.
          attempt (compute i p state) (λ e state'. (err e, state'))
            (λ output state'. sequential_from left (suc i) x' state' (outputs ++ output ∷ [])))

  -- No call of `prepare` fails.
  abbrev pub Prepares : Type 0
  Prepares = (i : ℕ) (x : X) → (p : P) × (x' : X) × (prepare i x ≡ (ok p, x'))

  same_step :
      (c : Result E O × S) (f : O → S → Outcome (Result E (List O) × S))
      (g : O → S → Result E (List O) × S)
      → ((o : O) (s : S) → f o s ≡ returns (g o s))
      → attempt c (λ e s. returns (err e, s)) f ≡ returns (attempt c (λ e s. (err e, s)) g)
  same_step (err e, s) f g same = refl
  same_step (ok o, s) f g same = same o s

  buffered_from-sequential_from :
      (prepares : Prepares) (n left i : ℕ) (slots : Slots P) (x x' : X) (p : P) (state : S)
      (outputs : List O)
      → i + left ≡ n
      → prepare i x ≡ (ok p, x')
      → slot slots i ≡ some p
      → buffered_from prepare compute n left i slots x' state outputs
        ≡ returns (sequential_from left i x state outputs)
  unfolding buffered_from
  buffered_from-sequential_from prepares n zero i slots x x' p state outputs size run ready = refl
  buffered_from-sequential_from prepares n (suc zero) i slots x x' p state outputs size run ready =
      let last : ltb (i + 1) n ≡ false = ground (arith, size) in
      rw (last, buffered_from)
        (rw (ready, attempt)
          (rw (run, sequential_from)
            (same_step (compute i p state) (λ o s. returns (ok (outputs ++ o ∷ []), s))
              (λ o s. (ok (outputs ++ o ∷ []), s)) (λ o s. refl))))
  buffered_from-sequential_from prepares n (suc (suc left)) i slots x x' p state outputs size run
        ready =
      let more : ltb (i + 1) n ≡ true = ground (arith, size) in
      let (p', x'', next) = prepares (i + 1) x' in
      let slots' = set_slot slots (i + 1) (some p') in
      let here = slot-set_next slots i (some p') ∙ ready in
      rw (more, buffered_from)
        (rw (next, attempt)
          (rw (here, attempt)
            (rw (run, sequential_from)
              (same_step (compute i p state)
                (λ o s.
                  buffered_from prepare compute n (suc left) (suc i) (set_slot slots' i none) x'' s
                    (outputs ++ o ∷ []))
                (λ o s. sequential_from (suc left) (suc i) x' s (outputs ++ o ∷ []))
                (λ o s.
                  buffered_from-sequential_from prepares n (suc left) (suc i)
                    (set_slot slots' i none) x' x'' p' s (outputs ++ o ∷ []) (omega (arith, size))
                    (ap (λ k. prepare k x') (omega arith) ∙ next)
                    (slot-taken slots i (some p')))))))

  -- When no preparation fails, the double-buffered schedule never panics, and returns the outputs, or the
  -- first error, and the state that the sequential loop returns.
  pub run_double_buffered-sequential_from :
      (n : ℕ) (x : X) (state : S)
      → Prepares
      → run_double_buffered prepare compute n x state ≡ returns (sequential_from n 0 x state [])
  unfolding run_double_buffered
  run_double_buffered-sequential_from zero x state prepares = refl
  run_double_buffered-sequential_from (suc n) x state prepares =
      let (p, x', run) = prepares 0 x in
      let slots = set_slot (record { even = none; odd = none }) 0 (some p) in
      let begun : run_double_buffered prepare compute (suc n) x state
          ≡ buffered_from prepare compute (suc n) (suc n) 0 slots x' state [] =
        rw (run, run_double_buffered) refl in
      begun
      ∙ buffered_from-sequential_from prepares (suc n) (suc n) 0 slots x x' p state [] (omega arith)
          run refl
