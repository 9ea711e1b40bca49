-- ===== src/SchedulerFsm/Prefill.antt =====
-- Chunked prefill in scheduler_fsm.rs: it ends after as many chunks as the prompt needs.
use machserve.Common.{
  ℕ, zero, suc, ◌≡◌, refl, ap, ◌∙◌, ◌<◌, ◌≤◌, ◌+◌, ◌*◌, ◌^◌, List, [], ◌∷◌, length, replicate,
  returns, arith,
}
use machserve.Common.Int.{ℤ, pos, as_i32_small, add_i32_small}
use machserve.SchedulerFsm.{
  RequestState, FsmEvent, schedule_prefill_first_chunk, schedule_prefill, Submitted, Prefilling,
  SchedulePrefillFirstChunk, SchedulePrefill, done_of, first_chunk, next_chunk, transition, run,
}
use machserve.SchedulerFsm.Table.{apply-transition}

abbrev chunk_of : ℕ → SchedulePrefill
chunk_of c = record { chunk_size = pos c }

-- One chunk in the middle of a prompt, where nothing wraps.
next_chunk_part :
    (s : Prefilling) (c n : ℕ)
    → s.num_prefill_tokens ≡ pos n
    → n + c < length s.tokens
    → length s.tokens < 2 ^ 31
    → next_chunk s (chunk_of c)
      ≡ RequestState.prefilling (record s { num_prefill_tokens = pos (n + c) })
unfolding next_chunk
next_chunk_part s c n e part fits =
    rw (e, as_i32_small (length s.tokens) fits, add_i32_small n c (omega arith)) (ground arith)

next_chunk_last :
    (s : Prefilling) (c n : ℕ)
    → s.num_prefill_tokens ≡ pos n
    → length s.tokens ≤ n + c
    → n + c < 2 ^ 31
    → next_chunk s (chunk_of c) ≡ done_of s s.tokens
unfolding next_chunk
next_chunk_last s c n e whole fits =
    rw (e, as_i32_small (length s.tokens) (omega arith), add_i32_small n c fits) (ground arith)

-- The events that continue a prefill, `k` of them.
abbrev pub continue_prefill : ℕ → ℕ → List FsmEvent
continue_prefill k c = replicate k (schedule_prefill (chunk_of c))

run-chunk :
    (s : Prefilling) (ev : SchedulePrefill) (evs : List FsmEvent)
    → run (schedule_prefill ev ∷ evs) (RequestState.prefilling s) ≡ run evs (next_chunk s ev)
unfolding run transition
run-chunk s ev evs = rw (apply-transition (schedule_prefill ev) (RequestState.prefilling s))

-- From `n` computed tokens, `k + 1` more chunks complete the prompt.
run-rest :
    (k : ℕ) (s : Prefilling) (c n : ℕ)
    → s.num_prefill_tokens ≡ pos n
    → n + c * k < length s.tokens
    → length s.tokens ≤ n + c * suc k
    → n + c * suc k < 2 ^ 31
    → run (continue_prefill (suc k) c) (RequestState.prefilling s) ≡ returns (done_of s s.tokens)
unfolding run done_of
run-rest zero s c n e part whole fits =
    run-chunk s (chunk_of c) [] ∙ ap returns (next_chunk_last s c n e (omega arith) (omega arith))
run-rest (suc k) s c n e part whole fits =
    let rest = continue_prefill (suc k) c in
    run-chunk s (chunk_of c) rest
    ∙ ap (run rest) (next_chunk_part s c n e (omega arith) (omega arith))
    ∙ run-rest k (record s { num_prefill_tokens = pos (n + c) }) c (n + c) refl (omega arith)
        (omega arith) (omega arith)

abbrev prefilled : Submitted → ℤ → RequestState
prefilled s reserve = RequestState.prefill_done (record {
  tokens = s.tokens;
  num_decoded_tokens = s.num_decoded_tokens;
  reserve_tokens = reserve;
  max_new_tokens = s.max_new_tokens;
})

first_chunk_part :
    (s : Submitted) (c : ℕ) (reserve : ℤ)
    → c < length s.tokens
    → length s.tokens < 2 ^ 31
    → first_chunk s (record { chunk_size = pos c; reserve_tokens = reserve })
      ≡ RequestState.prefilling (record {
        tokens = s.tokens;
        num_prefill_tokens = pos c;
        num_decoded_tokens = s.num_decoded_tokens;
        reserve_tokens = reserve;
        max_new_tokens = s.max_new_tokens;
      })
unfolding first_chunk
first_chunk_part s c reserve part fits = rw (as_i32_small (length s.tokens) fits) (ground arith)

first_chunk_whole :
    (s : Submitted) (c : ℕ) (reserve : ℤ)
    → length s.tokens ≤ c
    → length s.tokens < 2 ^ 31
    → first_chunk s (record { chunk_size = pos c; reserve_tokens = reserve }) ≡ prefilled s reserve
unfolding first_chunk
first_chunk_whole s c reserve whole fits = rw (as_i32_small (length s.tokens) fits) (ground arith)

run-first :
    (s : Submitted) (ev : SchedulePrefillFirstChunk) (evs : List FsmEvent)
    → run (schedule_prefill_first_chunk ev ∷ evs) (RequestState.submitted s)
      ≡ run evs (first_chunk s ev)
unfolding run transition
run-first s ev evs =
    rw (apply-transition (schedule_prefill_first_chunk ev) (RequestState.submitted s))

-- A submitted prompt that needs `k + 1` chunks of `c` tokens, which add up to less than 2 ^ 31, is
-- prefilled after exactly so many events: one more chunk is legal after each of the first `k`, and the last one completes it.
pub run-prefill :
    (k : ℕ) (s : Submitted) (c : ℕ) (reserve : ℤ)
    → c * k < length s.tokens
    → length s.tokens ≤ c * suc k
    → c * suc k < 2 ^ 31
    → run
        (schedule_prefill_first_chunk (record { chunk_size = pos c; reserve_tokens = reserve })
          ∷ continue_prefill k c)
        (RequestState.submitted s)
      ≡ returns (prefilled s reserve)
unfolding run done_of
run-prefill zero s c reserve part whole fits =
    run-first s _ [] ∙ ap returns (first_chunk_whole s c reserve (omega arith) (omega arith))
run-prefill (suc k) s c reserve part whole fits =
    let rest = continue_prefill (suc k) c in
    run-first s _ rest
    ∙ ap (run rest) (first_chunk_part s c reserve (omega arith) (omega arith))
    ∙ run-rest k _ c c refl (omega arith) (omega arith) (omega arith)
