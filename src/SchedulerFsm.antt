-- ===== src/SchedulerFsm.antt =====
-- crates/mach-model/src/scheduler_fsm.rs: the lifecycle of a request as a state machine.
-- An illegal event panics; a hook runs once on each legal transition.
pub mod Table
pub mod Stream
pub mod Prefill
use machserve.Common.{
  ℕ, ◌≡◌, Bool, true, false, List, [], ◌∷◌, ◌++◌, length, Outcome, returns, panics, ◌>>=◌,
  if◌then◌else◌,
}
use machserve.Common.Int.{ℤ, pos, leb_ℤ, min_ℤ, as_i32, add_i32}

-- Tokens known, waiting for the first prefill schedule.
pub record Submitted : Type 0 where
  pub tokens : List ℤ
  pub num_decoded_tokens : ℤ
  pub max_new_tokens : ℤ

-- `num_prefill_tokens` of `tokens` are in the cache.
pub record Prefilling : Type 0 where
  pub tokens : List ℤ
  pub num_prefill_tokens : ℤ
  pub num_decoded_tokens : ℤ
  pub reserve_tokens : ℤ
  pub max_new_tokens : ℤ

pub record PrefillDone : Type 0 where
  pub tokens : List ℤ
  pub num_decoded_tokens : ℤ
  pub reserve_tokens : ℤ
  pub max_new_tokens : ℤ

pub record Decoding : Type 0 where
  pub tokens : List ℤ
  pub num_decoded_tokens : ℤ
  pub reserve_tokens : ℤ
  pub max_new_tokens : ℤ

pub record Retracted : Type 0 where
  pub tokens : List ℤ
  pub num_decoded_tokens : ℤ
  pub max_new_tokens : ℤ

pub data RequestState : Type 0 where
  bootstrapping : RequestState
  submitted : Submitted → RequestState
  prefilling : Prefilling → RequestState
  prefill_done : PrefillDone → RequestState
  decoding : Decoding → RequestState
  retracted : Retracted → RequestState
  finished : RequestState

pub record SchedulePrefillFirstChunk : Type 0 where
  pub chunk_size : ℤ
  pub reserve_tokens : ℤ

pub record SchedulePrefill : Type 0 where
  pub chunk_size : ℤ

pub record ScheduleDecode : Type 0 where
  pub reserve_tokens : ℤ

pub data FsmEvent : Type 0 where
  bootstrapped : FsmEvent
  schedule_prefill_first_chunk : SchedulePrefillFirstChunk → FsmEvent
  schedule_prefill : SchedulePrefill → FsmEvent
  schedule_decode : ScheduleDecode → FsmEvent
  finish abort retraction retract : FsmEvent
  update_reserve_num_tokens : ℤ → FsmEvent
  extend_result : List ℤ → FsmEvent
  succeeded : FsmEvent
  remote_prefill_done : ℤ → FsmEvent

-- Submitted to Prefilling or PrefillDone, by the first chunk.
unfoldable pub first_chunk : Submitted → SchedulePrefillFirstChunk → RequestState
first_chunk s ev =
    let total = as_i32 (length s.tokens) in
    let chunk = min_ℤ ev.chunk_size total in
    if leb_ℤ total chunk
    then prefill_done (record {
      tokens = s.tokens;
      num_decoded_tokens = s.num_decoded_tokens;
      reserve_tokens = ev.reserve_tokens;
      max_new_tokens = s.max_new_tokens;
    })
    else prefilling (record {
      tokens = s.tokens;
      num_prefill_tokens = chunk;
      num_decoded_tokens = s.num_decoded_tokens;
      reserve_tokens = ev.reserve_tokens;
      max_new_tokens = s.max_new_tokens;
    })

unfoldable pub resubmitted : Retracted → Submitted
resubmitted s = record {
  tokens = s.tokens;
  num_decoded_tokens = s.num_decoded_tokens;
  max_new_tokens = s.max_new_tokens;
}

-- The body of `SchedulePrefill` and the hand-over of a prefilled request.
done_of : Prefilling → List ℤ → RequestState
done_of s tokens = prefill_done (record {
  tokens = tokens;
  num_decoded_tokens = s.num_decoded_tokens;
  reserve_tokens = s.reserve_tokens;
  max_new_tokens = s.max_new_tokens;
})

unfoldable pub next_chunk : Prefilling → SchedulePrefill → RequestState
unfolding done_of
next_chunk s ev =
    let total = as_i32 (length s.tokens) in
    let computed = min_ℤ (add_i32 s.num_prefill_tokens ev.chunk_size) total in
    if leb_ℤ total computed
    then done_of s s.tokens
    else prefilling (record s { num_prefill_tokens = computed })

decoding_of : PrefillDone → ScheduleDecode → Decoding
decoding_of s ev = record {
  tokens = s.tokens;
  num_decoded_tokens = s.num_decoded_tokens;
  reserve_tokens = ev.reserve_tokens;
  max_new_tokens = s.max_new_tokens;
}

submitted_of : List ℤ → ℤ → ℤ → RequestState
submitted_of tokens decoded max_new =
    submitted (record { tokens = tokens; num_decoded_tokens = decoded; max_new_tokens = max_new })

-- The transition table of `apply_with_hook`.
unfoldable pub transition : FsmEvent → RequestState → Outcome RequestState
unfolding done_of decoding_of submitted_of
transition bootstrapped bootstrapping = returns (submitted_of [] (pos 0) (pos 0))
transition bootstrapped _ = panics
transition (schedule_prefill_first_chunk ev) (submitted s) = returns (first_chunk s ev)
transition (schedule_prefill_first_chunk ev) (retracted s) =
    returns (first_chunk (resubmitted s) ev)
transition (schedule_prefill_first_chunk ev) _ = panics
transition (schedule_prefill ev) (prefilling s) = returns (next_chunk s ev)
transition (schedule_prefill ev) _ = panics
transition (schedule_decode ev) (prefill_done s) = returns (decoding (decoding_of s ev))
transition (schedule_decode ev) (decoding s) =
    returns (decoding (record s { reserve_tokens = ev.reserve_tokens }))
transition (schedule_decode ev) _ = panics
transition finish (prefill_done s) = returns finished
transition finish (decoding s) = returns finished
transition finish (retracted s) = returns finished
transition finish _ = panics
transition abort _ = returns finished
transition retraction (decoding s) = returns (
    retracted (record {
      tokens = s.tokens;
      num_decoded_tokens = s.num_decoded_tokens;
      max_new_tokens = s.max_new_tokens;
    }))
transition retraction _ = panics
transition retract (prefill_done s) =
    returns (submitted_of s.tokens s.num_decoded_tokens s.max_new_tokens)
transition retract (decoding s) =
    returns (submitted_of s.tokens s.num_decoded_tokens s.max_new_tokens)
transition retract _ = panics
transition (update_reserve_num_tokens v) (decoding s) =
    returns (decoding (record s { reserve_tokens = v }))
transition (update_reserve_num_tokens v) finished = returns finished
transition (update_reserve_num_tokens v) _ = panics
transition (extend_result tokens) (prefill_done s) =
    returns (prefill_done (record s { tokens = s.tokens ++ tokens }))
transition (extend_result tokens) (decoding s) = returns (
    decoding (record s {
      num_decoded_tokens = add_i32 s.num_decoded_tokens (as_i32 (length tokens));
      tokens = s.tokens ++ tokens;
    }))
transition (extend_result tokens) finished = returns finished
transition (extend_result tokens) _ = panics
transition succeeded (decoding s) = returns finished
transition succeeded _ = panics
transition (remote_prefill_done bootstrap_token) (prefilling s) =
    returns (done_of s (s.tokens ++ bootstrap_token ∷ []))
transition (remote_prefill_done bootstrap_token) _ = panics

-- The hook is any state with a function that updates it from (event, from, to).
unfoldable pub apply_with_hook {ℓ} :
    {H : Type ℓ} (on_transition : FsmEvent → RequestState → RequestState → H → H)
    → FsmEvent
    → RequestState
    → H
    → Outcome (RequestState × H)
apply_with_hook on_transition event from hook = do
  to ← transition event from
  returns (to, on_transition event from to hook)

-- `apply` runs with the hook that does nothing.
unfoldable pub apply : FsmEvent → RequestState → Outcome RequestState
unfolding apply_with_hook
apply event state = do
  (to, _) ← apply_with_hook {H = Unit {0}} (λ _ _ _ hook. hook) event state tt
  returns to

-- A schedule: events applied in order.
unfoldable pub run : List FsmEvent → RequestState → Outcome RequestState
run [] s = returns s
run (ev ∷ evs) s = do s' ← apply ev s; run evs s'

-- Prefix tokens computed so far.
unfoldable pub num_prefill_tokens : RequestState → ℤ
num_prefill_tokens (prefilling s) = s.num_prefill_tokens
num_prefill_tokens (prefill_done s) = as_i32 (length s.tokens)
num_prefill_tokens _ = pos 0
