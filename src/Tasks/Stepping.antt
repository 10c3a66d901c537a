-- ===== src/Tasks/Stepping.antt =====
-- firmware/rtos/runtime.c: the hand-over of single cycles to an owner outside, for stepped motion. A
-- task's handle is a number; the notifications given are kept in order.
use real_time_embedded_motio.Base.{
  ℕ, ◌≡◌, ◌≢◌, refl, sym, ap, ◌∙◌, inl, inr, Bool, true, false, not, ◌||◌, Option, none, some, List,
  [], ◌∷◌, ◌++◌, arith, if◌then◌else◌, if_true, if_false, ◌==◌, Bool-cases,
}
use real_time_embedded_motio.Tasks.Services.{TaskId}

-- Who is notified.
pub data Notified : Type 0 where
  task : TaskId → Notified
  caller : ℕ → Notified

-- `stepped_motion`, `stopping` and `step_owner`.
pub record Stepping : Type 0 where
  pub stepped_motion : Bool
  pub stopping : Bool
  pub step_owner : Option ℕ
  pub given : List Notified

-- Past the checks; `reply` is what `ulTaskNotifyTake` returns.
unfoldable pub hand_over : TaskId → ℕ → ℕ → Stepping → Stepping × Bool
hand_over id handle reply s =
    (record s { step_owner = some handle; given = s.given ++ (task id ∷ []) }, reply == 1)

-- `step_owner != NULL && step_owner != caller`.
unfoldable pub is_other : ℕ → Option ℕ → Bool
is_other handle none = false
is_other handle (some owner) = not (owner == handle)

-- `runtime_step_safety` and `runtime_step_motion`, for the task that each wakes.
unfoldable pub runtime_step : TaskId → ℕ → ℕ → Stepping → Stepping × Bool
runtime_step id handle reply s =
    if not s.stepped_motion || s.stopping
    then (s, false)
    else if is_other handle s.step_owner
    then (s, false)
    else hand_over id handle reply s

unfoldable pub runtime_step_safety : ℕ → ℕ → Stepping → Stepping × Bool
runtime_step_safety handle reply s = runtime_step TaskId.safety handle reply s

unfoldable pub runtime_step_motion : ℕ → ℕ → Stepping → Stepping × Bool
runtime_step_motion handle reply s = runtime_step TaskId.motion handle reply s

unfoldable pub runtime_request_stop : Stepping → Stepping
runtime_request_stop s =
    if s.stepped_motion
    then record s {
      stopping = true;
      given = s.given ++ (task TaskId.motion ∷ task TaskId.safety ∷ []);
    }
    else record s { stopping = true }

-- The end of a cycle of `runtime_motion_end` and `runtime_safety_end` in stepped motion.
unfoldable pub cycle_end : Stepping → Stepping
cycle_end s = elim s.step_owner [
  | none ↦ s
  | some owner ↦ record s { given = s.given ++ (caller owner ∷ []) }
]

-- What is called: a step by a caller with its reply, a stop, the end of a cycle.
pub data Request : Type 0 where
  step : TaskId → ℕ → ℕ → Request
  stop cycle : Request

unfoldable pub run_request : Request → Stepping → Stepping
run_request (step id handle reply) s = (runtime_step id handle reply s).0
run_request stop s = runtime_request_stop s
run_request cycle s = cycle_end s

unfoldable pub run_requests : List Request → Stepping → Stepping
run_requests [] s = s
run_requests (c ∷ cs) s = run_requests cs (run_request c s)

same_handle : (owner handle : ℕ) → is_other handle (some owner) ≡ false → handle ≡ owner
unfolding is_other
same_handle owner handle h = ground (arith, h)

run_request-owner :
    (owner : ℕ) (c : Request) (s : Stepping)
    → s.step_owner ≡ some owner
    → (run_request c s).step_owner ≡ some owner
unfolding run_request runtime_step runtime_request_stop cycle_end hand_over is_other
run_request-owner owner (step id handle reply) s h =
    elim (Bool-cases (not s.stepped_motion || s.stopping)) [
      | inl closed ↦ rw (closed, run_request) h
      | inr free ↦ elim (Bool-cases (is_other handle s.step_owner)) [
        | inl other ↦ rw (free, other, run_request) h
        | inr own ↦
            let same : is_other handle (some owner) ≡ false = ap (is_other handle) (sym h) ∙ own in
            rw (free, own, run_request) (ap some (same_handle owner handle same))
      ]
    ]
run_request-owner owner stop s h = ground (arith, h)
run_request-owner owner cycle s h = rw (h, cycle_end) h

run_requests-owner :
    (owner : ℕ) (cs : List Request) (s : Stepping)
    → s.step_owner ≡ some owner
    → (run_requests cs s).step_owner ≡ some owner
unfolding run_requests
run_requests-owner owner [] s h = h
run_requests-owner owner (c ∷ cs) s h =
    run_requests-owner owner cs (run_request c s) (run_request-owner owner c s h)

closed_step :
    (id : TaskId) (handle reply : ℕ) (s : Stepping)
    → (not s.stepped_motion || s.stopping) ≡ true
    → runtime_step id handle reply s ≡ (s, false)
unfolding runtime_step
closed_step id handle reply s h = if_true (not s.stepped_motion || s.stopping) _ _ h

other_step :
    (id : TaskId) (handle reply : ℕ) (s : Stepping)
    → is_other handle s.step_owner ≡ true
    → runtime_step id handle reply s ≡ (s, false)
unfolding runtime_step
other_step id handle reply s h = elim (Bool-cases (not s.stepped_motion || s.stopping)) [
  | inl closed ↦ closed_step id handle reply s closed
  | inr free ↦
      if_false (not s.stepped_motion || s.stopping) _ _ free
      ∙ if_true (is_other handle s.step_owner) _ _ h
]

failed_step : {s : Stepping} {p : Stepping × Bool} → p ≡ (s, false) → p.1 ≡ true → ⊥
failed_step e h = let wrong : true ≡ false = sym h ∙ ap (λ (x : Stepping × Bool). x.1) e in cc

owner_of_step :
    (id : TaskId) (handle reply : ℕ) (s : Stepping)
    → (runtime_step id handle reply s).1 ≡ true
    → (runtime_step id handle reply s).0.step_owner ≡ some handle
unfolding runtime_step hand_over
owner_of_step id handle reply s h = elim (Bool-cases (not s.stepped_motion || s.stopping)) [
  | inl closed ↦ absurd (failed_step (closed_step id handle reply s closed) h)
  | inr free ↦ elim (Bool-cases (is_other handle s.step_owner)) [
    | inl other ↦ absurd (failed_step (other_step id handle reply s other) h)
    | inr own ↦ rw (free, own) refl
  ]
]

different : (owner handle : ℕ) → handle ≢ owner → is_other handle (some owner) ≡ true
unfolding is_other
different owner handle n = ground (arith, n)

-- Once a step of a caller has succeeded, and after any further steps of any callers, ends of cycles and
-- stops, a step of either task by another caller is refused and changes nothing: the cycles have one
-- owner.
pub runtime_step-one_owner :
    (first : TaskId) (owner reply : ℕ) (s : Stepping) (cs : List Request)
    → (runtime_step first owner reply s).1 ≡ true
    → (id : TaskId) (handle other_reply : ℕ) → handle ≢ owner
    → let after = run_requests cs (runtime_step first owner reply s).0 in
      runtime_step id handle other_reply after ≡ (after, false)
runtime_step-one_owner first owner reply s cs h id handle other_reply n =
    let started = (runtime_step first owner reply s).0 in
    let after = run_requests cs started in
    let kept = run_requests-owner owner cs started (owner_of_step first owner reply s h) in
    other_step id handle other_reply after (ap (is_other handle) kept ∙ different owner handle n)
