-- ===== src/Tests/Buffered.antt =====
-- crates/mach-model/src/prefill_buffered.rs: three layers, in sequence and double-buffered.
use machserve.Common.{ℕ, ◌+◌, ◌==◌, ◌≡◌, refl, [], ◌∷◌, if◌then◌else◌, returns}
use machserve.PrefillBuffered.{Result, ok, err, buffered_from, run_double_buffered}
use machserve.PrefillBuffered.Schedule.{
  sequential_from, Prepares, run_double_buffered-sequential_from,
}

-- The weights of a layer are its number, and ten times the calls so far.
abbrev prepare : ℕ → ℕ → Result ℕ ℕ × ℕ
prepare i calls = (ok (i + calls + calls), calls + 1)

-- Layer 5 fails.
abbrev compute : ℕ → ℕ → ℕ → Result ℕ ℕ × ℕ
compute i p state = if i == 5 then (err state, state) else (ok (p + state), state + p + 1)

layers : run_double_buffered prepare compute 3 0 0 ≡ returns (ok (0 ∷ 4 ∷ 11 ∷ []), 12)
unfolding run_double_buffered buffered_from
layers = refl

prepare-Prepares : Prepares prepare compute
prepare-Prepares = λ i x. (i + x + x, x + 1, refl)

run_double_buffered-sequential_from_example :
    run_double_buffered prepare compute 3 0 0 ≡ returns (sequential_from prepare compute 3 0 0 0 [])
run_double_buffered-sequential_from_example =
    run_double_buffered-sequential_from prepare compute 3 0 0 prepare-Prepares
