-- ===== src/Rotation.antt =====
-- internal/crypto/rotation_state.go: the state machine of a key rotation. The clock is an argument,
-- a time that is not set is `none`, and each critical section of the mutex is one function. At a tick
-- the poller's goroutine loads the counter outside the mutex (`is_drained`), and then either leaves
-- the draining phase or checks the deadline, each in a critical section of its own. Its two channels
-- carry no data and are not modelled: ticks may come at any time.
pub mod Reach
pub mod Moves
use s3_encryption_gateway.Prelude.{
  ℕ, zero, suc, ◌+◌, Bool, true, false, not, ◌||◌, ◌&&◌, List, [], ◌∷◌, Option, none, some, ltb,
  if◌then◌else◌, Bytes, ℤ, pos, negsuc, ltb_ℤ,
}

pub data RotationPhase : Type 0 where
  rotation_idle rotation_draining rotation_ready_to_cutover : RotationPhase
  rotation_committing rotation_committed rotation_aborted : RotationPhase

-- `P` is the type of a plan, which the state only carries.
pub record RotationState (P : Type 0) : Type 0 where
  pub phase : RotationPhase
  pub rotation_id : Bytes
  pub current_version : ℤ
  pub target_version : ℤ
  pub provider : Bytes
  pub plan : Option P
  pub started_at : Option ℕ
  pub completed_at : Option ℕ
  pub grace_deadline : Option ℕ
  pub last_error : Bytes
  pub in_flight_wraps : ℤ

abbrev pub new_rotation_state : {P : Type 0} → RotationState P
new_rotation_state = record {
  phase = rotation_idle;
  rotation_id = [];
  current_version = pos 0;
  target_version = pos 0;
  provider = [];
  plan = none;
  started_at = none;
  completed_at = none;
  grace_deadline = none;
  last_error = [];
  in_flight_wraps = pos 0;
}

-- The atomic counter, which nothing keeps from going below 0.
unfoldable pub increment : ℤ → ℤ
increment (pos n) = pos (n + 1)
increment (negsuc zero) = pos 0
increment (negsuc (suc n)) = negsuc n

unfoldable pub decrement : ℤ → ℤ
decrement (pos zero) = negsuc 0
decrement (pos (suc n)) = pos n
decrement (negsuc n) = negsuc (n + 1)

unfoldable pub begin_wrap : {P : Type 0} → RotationState P → RotationState P
begin_wrap s = record s { in_flight_wraps = increment s.in_flight_wraps }

unfoldable pub end_wrap : {P : Type 0} → RotationState P → RotationState P
end_wrap s = record s { in_flight_wraps = decrement s.in_flight_wraps }

deadline_after : ℕ → ℤ → Option ℕ → Option ℕ
deadline_after now (pos zero) old = old
deadline_after now (pos (suc n)) old = some (now + suc n)
deadline_after now (negsuc n) old = old

-- The result's second part: no error (else ErrRotationConflict).
unfoldable pub start_drain :
    {P : Type 0}
    → ℕ
    → Bytes
    → ℤ
    → ℤ
    → Bytes
    → Option P
    → ℤ
    → RotationState P
    → RotationState P × Bool
unfolding deadline_after
start_drain now id current target provider plan grace s = elim s.phase [
  | rotation_idle ↦ (
    record s {
      phase = rotation_draining;
      rotation_id = id;
      current_version = current;
      target_version = target;
      provider = provider;
      plan = plan;
      started_at = some now;
      completed_at = none;
      last_error = [];
      grace_deadline = deadline_after now grace s.grace_deadline;
    },
    true,
  )
  | _ ↦ (s, false)
]

-- `count <= 0`, for the atomic load of the counter.
unfoldable pub is_drained : {P : Type 0} → RotationState P → Bool
is_drained s = not (ltb_ℤ (pos 0) s.in_flight_wraps)

unfoldable pub grace_is_over : ℕ → Option ℕ → Bool
grace_is_over now none = false
grace_is_over now (some d) = ltb d now

leave : {P : Type 0} → RotationState P → RotationState P
leave s = elim s.phase [
  | rotation_draining ↦ record s { phase = rotation_ready_to_cutover }
  | _ ↦ s
]

-- The poller's critical section after it loaded a count of 0 or less, whatever the count is by now.
unfoldable pub leave_drain : {P : Type 0} → RotationState P → RotationState P
unfolding leave
leave_drain s = leave s

-- Its critical section after it loaded a positive count.
unfoldable pub check_grace : {P : Type 0} → ℕ → RotationState P → RotationState P
unfolding leave
check_grace now s = if grace_is_over now s.grace_deadline then leave s else s

unfoldable pub commit : {P : Type 0} → Bool → RotationState P → RotationState P × Bool
commit force s = elim s.phase [
  | rotation_ready_to_cutover ↦ (record s { phase = rotation_committing }, true)
  | rotation_draining ↦
      if force || is_drained s then (record s { phase = rotation_committing }, true) else (s, false)
  | _ ↦ (s, false)
]

unfoldable pub mark_committed : {P : Type 0} → ℕ → RotationState P → RotationState P
mark_committed now s = record s { phase = rotation_committed; completed_at = some now }

-- `none`: a nil error.
unfoldable pub mark_failed : {P : Type 0} → ℕ → Option Bytes → RotationState P → RotationState P
mark_failed now none s = record s { phase = rotation_aborted; completed_at = some now }
mark_failed now (some e) s = record s {
  phase = rotation_aborted;
  completed_at = some now;
  last_error = e;
}

unfoldable pub abort : {P : Type 0} → ℕ → RotationState P → RotationState P × Bool
abort now s = elim s.phase [
  | rotation_draining ↦ (record s { phase = rotation_aborted; completed_at = some now }, true)
  | rotation_ready_to_cutover ↦
      (record s { phase = rotation_aborted; completed_at = some now }, true)
  | _ ↦ (s, false)
]

unfoldable pub reset : {P : Type 0} → RotationState P → RotationState P
reset s = record (new_rotation_state) { in_flight_wraps = s.in_flight_wraps }
