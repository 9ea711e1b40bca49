-- ===== src/Tests/Scheduler.antt =====
-- crates/mach-model/src/scheduler_fsm.rs on concrete requests.
use machserve.Common.{◌≡◌, refl, List, [], ◌∷◌, returns, panics, arith}
use machserve.Common.Int.{pos, negsuc, as_i32, add_i32}
use machserve.SchedulerFsm.{
  RequestState, FsmEvent, finish, retraction, extend_result, schedule_decode,
  schedule_prefill_first_chunk, Submitted, Decoding, resubmitted, first_chunk, transition,
  apply_with_hook, apply, run, num_prefill_tokens,
}
use machserve.SchedulerFsm.Stream.{Keeps, produced_by, run-Keeps}
use machserve.SchedulerFsm.Prefill.{continue_prefill, run-prefill}

abbrev prompt : Submitted
prompt = record {
  tokens = pos 1 ∷ pos 2 ∷ pos 3 ∷ pos 4 ∷ pos 5 ∷ [];
  num_decoded_tokens = pos 0;
  max_new_tokens = pos 16;
}

abbrev busy : Decoding
busy = record {
  tokens = pos 1 ∷ pos 2 ∷ [];
  num_decoded_tokens = pos 1;
  reserve_tokens = pos 0;
  max_new_tokens = pos 8;
}

-- The token stream survives an eviction and a resume.
abbrev resume : List FsmEvent
resume =
    extend_result (pos 7 ∷ [])
    ∷ retraction
    ∷ schedule_prefill_first_chunk (record { chunk_size = pos 8; reserve_tokens = pos 2 })
    ∷ schedule_decode (record { reserve_tokens = pos 2 })
    ∷ []

abbrev resumed : Decoding
resumed = record {
  tokens = pos 1 ∷ pos 2 ∷ pos 7 ∷ [];
  num_decoded_tokens = pos 2;
  reserve_tokens = pos 2;
  max_new_tokens = pos 8;
}

run-resume : run resume (RequestState.decoding busy) ≡ returns (RequestState.decoding resumed)
unfolding run apply apply_with_hook transition first_chunk add_i32 as_i32 resubmitted
run-resume = refl

run-Keeps_example :
    Keeps (RequestState.decoding busy) (produced_by resume) (RequestState.decoding resumed)
run-Keeps_example =
    run-Keeps resume (RequestState.decoding busy) (RequestState.decoding resumed) tt run-resume

run-prefill_example :
    run
      (schedule_prefill_first_chunk (record { chunk_size = pos 2; reserve_tokens = pos 3 })
        ∷ continue_prefill 2 2)
      (RequestState.submitted prompt)
    ≡ returns (
        RequestState.prefill_done (record {
          tokens = prompt.tokens;
          num_decoded_tokens = pos 0;
          reserve_tokens = pos 3;
          max_new_tokens = pos 16;
        }))
run-prefill_example = run-prefill 2 prompt 2 (pos 3) (omega arith) (omega arith) (omega arith)

-- A negative chunk size starts a prefill with a negative count.
negative_chunk :
    num_prefill_tokens
      (first_chunk prompt (record { chunk_size = negsuc 2; reserve_tokens = pos 0 }))
    ≡ negsuc 2
unfolding num_prefill_tokens first_chunk as_i32
negative_chunk = refl

finish_submitted : apply finish (RequestState.submitted prompt) ≡ panics
unfolding apply apply_with_hook transition
finish_submitted = refl
