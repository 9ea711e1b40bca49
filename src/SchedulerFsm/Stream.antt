-- ===== src/SchedulerFsm/Stream.antt =====
-- What scheduler_fsm.rs keeps of a request over evictions and resumes: its tokens and its budget.
use machserve.Common.{
  ◌≡◌, refl, sym, ap, ◌∙◌, ◌⊎◌, inl, inr, List, [], ◌∷◌, ◌++◌, length, returns, >>=-eq-returns,
  Ensures, Ensures-returns, returns-injective, Bool-cases,
}
use mathlib.Core.List.{append-nil, append_assoc}
use machserve.Common.Int.{ℤ, pos, leb_ℤ, min_ℤ, as_i32, add_i32}
use machserve.SchedulerFsm.{
  RequestState, FsmEvent, bootstrapped, schedule_prefill_first_chunk, schedule_prefill,
  schedule_decode, finish, abort, retraction, retract, update_reserve_num_tokens, extend_result,
  succeeded, remote_prefill_done, Submitted, Prefilling, SchedulePrefillFirstChunk, SchedulePrefill,
  resubmitted, first_chunk, next_chunk, transition, apply, run,
}
use machserve.SchedulerFsm.Table.{apply-transition}

-- The token stream of a request: `none` before the tokens are known and after the end.
abbrev pub request_of : RequestState → List ℤ × ℤ
request_of RequestState.bootstrapping = ([], pos 0)
request_of (RequestState.submitted s) = (s.tokens, s.max_new_tokens)
request_of (RequestState.prefilling s) = (s.tokens, s.max_new_tokens)
request_of (RequestState.prefill_done s) = (s.tokens, s.max_new_tokens)
request_of (RequestState.decoding s) = (s.tokens, s.max_new_tokens)
request_of (RequestState.retracted s) = (s.tokens, s.max_new_tokens)
request_of RequestState.finished = ([], pos 0)

abbrev pub IsActive : RequestState → Type 0
IsActive RequestState.bootstrapping = ⊥
IsActive RequestState.finished = ⊥
IsActive _ = Unit

-- Tokens that an event brings.
abbrev pub produced : FsmEvent → List ℤ
produced (extend_result tokens) = tokens
produced (remote_prefill_done t) = t ∷ []
produced _ = []

abbrev pub produced_by : List FsmEvent → List ℤ
produced_by [] = []
produced_by (ev ∷ evs) = produced ev ++ produced_by evs

-- The request goes on with its tokens, those that came, and its budget.
pub record Continues (s : RequestState) (ts : List ℤ) (s' : RequestState) : Type 0 where
  pub active : IsActive s'
  pub tokens : (request_of s').0 ≡ (request_of s).0 ++ ts
  pub budget : (request_of s').1 ≡ (request_of s).1

abbrev pub Keeps : RequestState → List ℤ → RequestState → Type 0
Keeps s ts s' = Continues s ts s' ⊎ (s' ≡ RequestState.finished)

stays : (s s' : RequestState) → IsActive s' → request_of s' ≡ request_of s → Keeps s [] s'
stays s s' a e = inl (record {
  active = a;
  tokens = ap (λ r. r.0) e ∙ sym (append-nil (request_of s).0);
  budget = ap (λ r. r.1) e;
})

first_chunk-request :
    (s : Submitted) (ev : SchedulePrefillFirstChunk)
    → IsActive (first_chunk s ev) × (request_of (first_chunk s ev) ≡ (s.tokens, s.max_new_tokens))
unfolding first_chunk
first_chunk-request s ev =
    elim (Bool-cases
      (leb_ℤ (as_i32 (length s.tokens)) (min_ℤ ev.chunk_size (as_i32 (length s.tokens))))) [
        | inl e ↦ rw e (tt, refl)
        | inr e ↦ rw e (tt, refl)
      ]

next_chunk-request :
    (s : Prefilling) (ev : SchedulePrefill)
    → IsActive (next_chunk s ev) × (request_of (next_chunk s ev) ≡ (s.tokens, s.max_new_tokens))
unfolding next_chunk
next_chunk-request s ev =
    let total = as_i32 (length s.tokens) in
    elim (Bool-cases (leb_ℤ total (min_ℤ (add_i32 s.num_prefill_tokens ev.chunk_size) total))) [
      | inl e ↦ rw e (tt, refl)
      | inr e ↦ rw e (tt, refl)
    ]

transition-Keeps :
    (ev : FsmEvent) (s : RequestState)
    → IsActive s
    → Ensures (Keeps s (produced ev)) (transition ev s)
unfolding transition resubmitted
transition-Keeps bootstrapped RequestState.bootstrapping a = absurd a
transition-Keeps bootstrapped _ a = tt
transition-Keeps (schedule_prefill_first_chunk ev) (RequestState.submitted s) a =
    let (b, e) = first_chunk-request s ev in stays _ _ b e
transition-Keeps (schedule_prefill_first_chunk ev) (RequestState.retracted s) a =
    let (b, e) = first_chunk-request (resubmitted s) ev in stays _ _ b e
transition-Keeps (schedule_prefill_first_chunk ev) _ a = tt
transition-Keeps (schedule_prefill ev) (RequestState.prefilling s) a =
    let (b, e) = next_chunk-request s ev in stays _ _ b e
transition-Keeps (schedule_prefill ev) _ a = tt
transition-Keeps (schedule_decode ev) (RequestState.prefill_done s) a = stays _ _ tt refl
transition-Keeps (schedule_decode ev) (RequestState.decoding s) a = stays _ _ tt refl
transition-Keeps (schedule_decode ev) _ a = tt
transition-Keeps finish (RequestState.prefill_done s) a = inr refl
transition-Keeps finish (RequestState.decoding s) a = inr refl
transition-Keeps finish (RequestState.retracted s) a = inr refl
transition-Keeps finish _ a = tt
transition-Keeps abort s a = inr refl
transition-Keeps retraction (RequestState.decoding s) a = stays _ _ tt refl
transition-Keeps retraction _ a = tt
transition-Keeps retract (RequestState.prefill_done s) a = stays _ _ tt refl
transition-Keeps retract (RequestState.decoding s) a = stays _ _ tt refl
transition-Keeps retract _ a = tt
transition-Keeps (update_reserve_num_tokens v) (RequestState.decoding s) a = stays _ _ tt refl
transition-Keeps (update_reserve_num_tokens v) RequestState.finished a = absurd a
transition-Keeps (update_reserve_num_tokens v) _ a = tt
transition-Keeps (extend_result ts) (RequestState.prefill_done s) a =
    inl (record { active = tt; tokens = refl; budget = refl })
transition-Keeps (extend_result ts) (RequestState.decoding s) a =
    inl (record { active = tt; tokens = refl; budget = refl })
transition-Keeps (extend_result ts) RequestState.finished a = absurd a
transition-Keeps (extend_result ts) _ a = tt
transition-Keeps succeeded (RequestState.decoding s) a = inr refl
transition-Keeps succeeded _ a = tt
transition-Keeps (remote_prefill_done t) (RequestState.prefilling s) a =
    inl (record { active = tt; tokens = refl; budget = refl })
transition-Keeps (remote_prefill_done t) _ a = tt

apply-Keeps :
    (ev : FsmEvent) (s s' : RequestState)
    → IsActive s
    → apply ev s ≡ returns s'
    → Keeps s (produced ev) s'
apply-Keeps ev s s' a h =
    Ensures-returns (Keeps s (produced ev)) (transition ev s) (transition-Keeps ev s a)
      (sym (apply-transition ev s) ∙ h)

-- `finished` is final.
finished-final :
    (ev : FsmEvent)
    → Ensures (λ s'. s' ≡ RequestState.finished) (transition ev RequestState.finished)
unfolding transition
finished-final bootstrapped = tt
finished-final abort = refl
finished-final (update_reserve_num_tokens v) = refl
finished-final (extend_result ts) = refl
finished-final _ = tt

run-finished :
    (evs : List FsmEvent) (s' : RequestState)
    → run evs RequestState.finished ≡ returns s'
    → s' ≡ RequestState.finished
unfolding run
run-finished [] s' h = sym (returns-injective h)
run-finished (ev ∷ evs) s' h =
    let (t, here, there) = >>=-eq-returns (apply ev RequestState.finished) (run evs) h in
    let e =
      Ensures-returns (λ s'. s' ≡ RequestState.finished) (transition ev RequestState.finished)
        (finished-final ev) (sym (apply-transition ev RequestState.finished) ∙ here) in
    run-finished evs s' (sym (ap (run evs) e) ∙ there)

Continues-trans :
    {s t u : RequestState} {xs ys : List ℤ} → Continues s xs t → Keeps t ys u → Keeps s (xs ++ ys) u
Continues-trans {s} {xs = xs} {ys = ys} c (inl d) = inl (record {
  active = d.active;
  tokens = d.tokens ∙ ap (λ l. l ++ ys) c.tokens ∙ append_assoc (request_of s).0 xs ys;
  budget = d.budget ∙ c.budget;
})
Continues-trans c (inr e) = inr e

pub run-Keeps :
    (evs : List FsmEvent) (s s' : RequestState)
    → IsActive s
    → run evs s ≡ returns s'
    → Keeps s (produced_by evs) s'
unfolding run
run-Keeps [] s s' a h =
    rw (← returns-injective h)
      (inl (record { active = a; tokens = sym (append-nil (request_of s).0); budget = refl }))
run-Keeps (ev ∷ evs) s s' a h =
    let (t, here, there) = >>=-eq-returns (apply ev s) (run evs) h in
    elim (apply-Keeps ev s t a here) [
      | inl c ↦ Continues-trans c (run-Keeps evs t s' c.active there)
      | inr e ↦ inr (run-finished evs s' (sym (ap (run evs) e) ∙ there))
    ]
