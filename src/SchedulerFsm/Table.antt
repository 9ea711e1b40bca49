-- ===== src/SchedulerFsm/Table.antt =====
-- The legal transitions of scheduler_fsm.rs, as a relation on the names of the states.
use machserve.Common.{◌≡◌, ◌≢◌, ◌⊎◌, inl, inr, List, panics, Outcome-cases}
use machserve.Common.Int.{ℤ}
use machserve.SchedulerFsm.{
  RequestState, FsmEvent, bootstrapped, schedule_prefill_first_chunk, schedule_prefill,
  schedule_decode, finish, abort, retraction, retract, update_reserve_num_tokens, extend_result,
  succeeded, remote_prefill_done, SchedulePrefillFirstChunk, SchedulePrefill, ScheduleDecode,
  transition, apply, apply_with_hook,
}

-- `RequestState::state_name`, with a constructor for each string.
pub data StateName : Type 0 where
  bootstrapping submitted prefilling prefill_done decoding retracted finished : StateName

pub state_name : RequestState → StateName
state_name RequestState.bootstrapping = StateName.bootstrapping
state_name (RequestState.submitted s) = StateName.submitted
state_name (RequestState.prefilling s) = StateName.prefilling
state_name (RequestState.prefill_done s) = StateName.prefill_done
state_name (RequestState.decoding s) = StateName.decoding
state_name (RequestState.retracted s) = StateName.retracted
state_name RequestState.finished = StateName.finished

-- The module's diagram, an arrow with two targets being two edges; `*` is any state.
pub data Diagram : StateName → FsmEvent → StateName → Type 0 where
  boot : Diagram StateName.bootstrapping bootstrapped StateName.submitted
  first_part :
      (ev : SchedulePrefillFirstChunk)
      → Diagram StateName.submitted (schedule_prefill_first_chunk ev) StateName.prefilling
  first_whole :
      (ev : SchedulePrefillFirstChunk)
      → Diagram StateName.submitted (schedule_prefill_first_chunk ev) StateName.prefill_done
  more :
      (ev : SchedulePrefill)
      → Diagram StateName.prefilling (schedule_prefill ev) StateName.prefilling
  last :
      (ev : SchedulePrefill)
      → Diagram StateName.prefilling (schedule_prefill ev) StateName.prefill_done
  enter :
      (ev : ScheduleDecode) → Diagram StateName.prefill_done (schedule_decode ev) StateName.decoding
  continue :
      (ev : ScheduleDecode) → Diagram StateName.decoding (schedule_decode ev) StateName.decoding
  evict : Diagram StateName.decoding retraction StateName.retracted
  requeue_done : Diagram StateName.prefill_done retract StateName.submitted
  requeue_decoding : Diagram StateName.decoding retract StateName.submitted
  resume_part :
      (ev : SchedulePrefillFirstChunk)
      → Diagram StateName.retracted (schedule_prefill_first_chunk ev) StateName.prefilling
  resume_whole :
      (ev : SchedulePrefillFirstChunk)
      → Diagram StateName.retracted (schedule_prefill_first_chunk ev) StateName.prefill_done
  finish_any : (n : StateName) → Diagram n finish StateName.finished
  abort_any : (n : StateName) → Diagram n abort StateName.finished
  success : Diagram StateName.decoding succeeded StateName.finished

-- The events that the diagram leaves out: two that keep the state, and the end of a remote prefill.
pub data Undrawn (n : StateName) : FsmEvent → StateName → Type 0 where
  reserve : (v : ℤ) → Undrawn n (update_reserve_num_tokens v) n
  extend : (ts : List ℤ) → Undrawn n (extend_result ts) n
  remote :
      (t : ℤ) → n ≡ StateName.prefilling → Undrawn n (remote_prefill_done t) StateName.prefill_done

-- The states in which a request is not complete, or was already.
abbrev pub NotToFinish : StateName → Type 0
NotToFinish StateName.prefill_done = ⊥
NotToFinish StateName.decoding = ⊥
NotToFinish StateName.retracted = ⊥
NotToFinish _ = Unit

abbrev Follows : RequestState → FsmEvent → RequestState → Type 0
Follows s ev s' =
    Diagram (state_name s) ev (state_name s') ⊎ Undrawn (state_name s) ev (state_name s')

-- `apply` is `apply_with_hook` with a hook that keeps nothing.
pub apply-transition : (ev : FsmEvent) (s : RequestState) → apply ev s ≡ transition ev s
unfolding apply apply_with_hook
apply-transition ev s = elim (Outcome-cases (transition ev s)) [
  | inl (to, e) ↦ rw (e, apply_with_hook)
  | inr e ↦ rw e
]

abbrev Accepted : FsmEvent → RequestState → Type 0
Accepted ev s =
    (transition ev s ≢ panics)
    ⊎ ((ev ≡ finish) × NotToFinish (state_name s) × (transition ev s ≡ panics))
