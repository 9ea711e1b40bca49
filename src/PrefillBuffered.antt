-- ===== src/PrefillBuffered.antt =====
-- crates/mach-model/src/prefill_buffered.rs: the double-buffered schedule of a prefill. The closures
-- `prepare` and `compute` are parameters; what `prepare` captures is the state `X` that it threads.
pub mod Schedule
use machserve.Common.{
  ℕ, zero, suc, ◌+◌, ◌%◌, ◌≡◌, true, false, Option, none, some, List, [], ◌∷◌, ◌++◌, ltb, ◌==◌,
  if◌then◌else◌, Outcome, returns, panics, ◌>>=◌,
}

pub data Result (E A : Type 0) : Type 0 where
  ok : A → Result E A
  err : E → Result E A

pub record Slots (P : Type 0) : Type 0 where
  pub even : Option P
  pub odd : Option P

abbrev pub slot : {P : Type 0} → Slots P → ℕ → Option P
slot slots i = if i % 2 == 0 then slots.even else slots.odd

abbrev pub set_slot : {P : Type 0} → Slots P → ℕ → Option P → Slots P
set_slot slots i p =
    if i % 2 == 0
    then record { even = p; odd = slots.odd }
    else record { even = slots.even; odd = p }

-- What is done with the error or the value that a call returns beside its new state.
abbrev pub attempt : {E A W R : Type 0} → Result E A × W → (E → W → R) → (A → W → R) → R
attempt (ok a, w) fail go = go a w
attempt (err e, w) fail go = fail e w

module _ {P S O E X : Type 0} (prepare : ℕ → X → Result E P × X)
    (compute : ℕ → P → S → Result E O × S) where
  -- The layer after `i` is prepared, if there is one.
  abbrev pub prefetch : ℕ → ℕ → Slots P → X → Result E (Slots P) × X
  prefetch n i slots x =
      if ltb (i + 1) n
      then attempt (prepare (i + 1) x) (λ e x'. (err e, x'))
          (λ p x'. (ok (set_slot slots (i + 1) (some p)), x'))
      else (ok slots, x)

  -- The loop from layer `i` on, for the layers that are left.
  unfoldable pub buffered_from :
      ℕ → ℕ → ℕ → Slots P → X → S → List O → Outcome (Result E (List O) × S)
  buffered_from n zero i slots x state outputs = returns (ok outputs, state)
  buffered_from n (suc left) i slots x state outputs =
      attempt (prefetch n i slots x) (λ e _. returns (err e, state))
        (λ slots' x'. elim (slot slots' i) [
          | none ↦ panics
          | some prepared ↦
              attempt (compute i prepared state) (λ e state'. returns (err e, state'))
                (λ output state'.
                  buffered_from n left (suc i) (set_slot slots' i none) x' state'
                    (outputs ++ output ∷ []))
        ])

  unfoldable pub run_double_buffered : ℕ → X → S → Outcome (Result E (List O) × S)
  run_double_buffered zero x state = returns (ok [], state)
  run_double_buffered (suc n) x state =
      attempt (prepare 0 x) (λ e _. returns (err e, state))
        (λ p x'.
          buffered_from (suc n) (suc n) 0 (set_slot (record { even = none; odd = none }) 0 (some p))
            x' state [])
