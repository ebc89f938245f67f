-- ===== src/Tests/Keys.antt =====
-- A circuit breaker, a rotation, a key wrap and a key manager at work.
use s3_encryption_gateway.Prelude.{
  ℕ, ◌≡◌, refl, ◌<◌, ◌+◌, List, [], ◌∷◌, Option, none, some, Bytes, replicate, pos, pos_part,
  neg_part, ok, err, ◌⊎◌, ◌↔◌, arith, true, false,
}
use s3_encryption_gateway.Breaker.{
  CircuitBreaker, cb_state_closed, cb_state_open, default_circuit_breaker_config,
  new_circuit_breaker, close, guarded_call, provider_unavailable,
}
use s3_encryption_gateway.Breaker.Reach.{
  allowing, recording, sections, IsBreaker, sections-IsBreaker, guarded_call-close,
}
use s3_encryption_gateway.Breaker.Rows.{Outcome, recorded, HasRow, sections-HasRow}
use s3_encryption_gateway.Rotation.{
  new_rotation_state, rotation_idle, rotation_draining, rotation_ready_to_cutover,
  rotation_committing, rotation_aborted, commit, is_drained, start_drain, abort, reset, leave_drain,
  check_grace, end_wrap, decrement, begin_wrap, increment, grace_is_over,
}
use s3_encryption_gateway.Rotation.Reach.{
  Event, wrap_begins, wrap_ends, starts, looks, leaves_drain, checks_grace, commits, aborts, resets,
  Rotating, rotate, rotate_all, is_past_drain, is_begin, is_end, count, IsIdle, Cutover,
  rotate_all-Cutover, rotate_all-in_flight,
}
use s3_encryption_gateway.Rotation.Moves.{Moves, operator-Moves}
use s3_encryption_gateway.Aad.Encoding.{AreBytes}
use s3_encryption_gateway.KeyWrap.{Block, aes_key_wrap, aes_key_unwrap, pad_key}
use s3_encryption_gateway.KeyWrap.Rows.{IsBlock}
use s3_encryption_gateway.KeyWrap.Inverse.{IsPadded, aes_key_unwrap-wrap}
use s3_encryption_gateway.KeyManager.{
  KeyEnvelope, InMemoryKeyManager, wrap_key, unwrap_key, find_key,
}
use s3_encryption_gateway.KeyManager.Versions.{
  adds, promotes, RotationStep, rotation_steps, unwrap_key-wrap_key,
}

-- Two failures, in a breaker that opens at five.
sections-IsBreaker_example : IsBreaker default_circuit_breaker_config (
    sections default_circuit_breaker_config new_circuit_breaker
      (allowing 10 ∷ recording 20 false ∷ recording 30 false ∷ []))
sections-IsBreaker_example =
    sections-IsBreaker default_circuit_breaker_config new_circuit_breaker
      (allowing 10 ∷ recording 20 false ∷ recording 30 false ∷ []) (omega arith) (omega arith)
      (omega arith, refl)

guarded_call-close_example :
    let cb =
      sections default_circuit_breaker_config
        (close 30 new_circuit_breaker).0
        (recording 40 true ∷ allowing 50 ∷ []) in
    ((guarded_call {E = ℕ} {A = Bytes} default_circuit_breaker_config 99 100 (ok (7 ∷ [])) cb).1
      ≡ err provider_unavailable)
    × ((guarded_call {E = ℕ} {A = Bytes} default_circuit_breaker_config 99 100 (ok (7 ∷ [])) cb).2
        ≡ false)
guarded_call-close_example =
    guarded_call-close {E = ℕ} {A = Bytes} default_circuit_breaker_config new_circuit_breaker 30
      (recording 40 true ∷ allowing 50 ∷ []) refl 99 100 (ok (7 ∷ []))

abbrev open_breaker : CircuitBreaker
open_breaker = record {
  state = cb_state_open;
  failures = 0;
  successes = 0;
  opened_at = 100;
  closed = false;
}

-- Two failures, a success, and five failures in a row.
abbrev outcomes : List Outcome
outcomes =
    (70, false)
    ∷ (71, false)
    ∷ (72, true)
    ∷ (73, false)
    ∷ (74, false)
    ∷ (75, false)
    ∷ (76, false)
    ∷ (77, false)
    ∷ []

sections-HasRow_example :
    let cb = sections default_circuit_breaker_config new_circuit_breaker (recorded outcomes) in
    ((cb.state ≡ cb_state_open) ↔ HasRow 5 outcomes)
    × ((cb.state ≡ cb_state_open) ⊎ ((cb.state ≡ cb_state_closed) × (cb.failures < 5)))
sections-HasRow_example =
    sections-HasRow default_circuit_breaker_config new_circuit_breaker outcomes (omega arith) refl
      refl

abbrev idle : Rotating ℕ
idle = record { state = new_rotation_state; seen = 0 }

-- A rotation with one wrap in flight, which ends before the poller looks.
abbrev one_rotation : List (Event ℕ)
one_rotation =
    wrap_begins
    ∷ starts 5 (1 ∷ []) (pos 1) (pos 2) [] none (pos 0)
    ∷ looks
    ∷ checks_grace 6
    ∷ wrap_ends
    ∷ looks
    ∷ leaves_drain
    ∷ commits false
    ∷ []

rotate_all-Cutover_example : Cutover ℕ idle one_rotation
unfolding is_past_drain rotate_all rotate commit leave_drain check_grace is_drained end_wrap
    decrement start_drain begin_wrap increment grace_is_over
rotate_all-Cutover_example = rotate_all-Cutover idle one_rotation refl refl

-- A poller that loaded the count in one rotation ends the draining of the next one.
abbrev stale_run : List (Event ℕ)
stale_run =
    starts 5 (1 ∷ []) (pos 1) (pos 2) [] none (pos 0)
    ∷ looks
    ∷ aborts 6
    ∷ resets
    ∷ wrap_begins
    ∷ starts 7 (2 ∷ []) (pos 1) (pos 2) [] none (pos 0)
    ∷ leaves_drain
    ∷ []

stale_poller :
    ((rotate_all idle stale_run).state.phase ≡ rotation_ready_to_cutover)
    × ((rotate_all idle stale_run).state.in_flight_wraps ≡ pos 1)
unfolding rotate_all rotate leave_drain check_grace is_drained start_drain begin_wrap increment
    abort reset
stale_poller = (refl, refl)

rotate_all-in_flight_example :
    pos_part (rotate_all idle one_rotation).state.in_flight_wraps + 0 + count is_end one_rotation
    ≡ 0
      + neg_part (rotate_all idle one_rotation).state.in_flight_wraps
      + count is_begin one_rotation
rotate_all-in_flight_example = rotate_all-in_flight idle one_rotation

operator-Moves_example :
    Moves
      (idle.state.phase ≡ rotation_idle)
      rotation_draining
      idle.state
      (start_drain 5 [] (pos 1) (pos 2) [] none (pos 60) idle.state)
    × Moves
        ((idle.state.phase ≡ rotation_ready_to_cutover)
          ⊎ ((idle.state.phase ≡ rotation_draining) × ((true ≡ true) ⊎ IsIdle idle.state)))
        rotation_committing
        idle.state
        (commit true idle.state)
    × Moves
        ((idle.state.phase ≡ rotation_draining) ⊎ (idle.state.phase ≡ rotation_ready_to_cutover))
        rotation_aborted
        idle.state
        (abort 5 idle.state)
operator-Moves_example = operator-Moves idle.state 5 [] (pos 1) (pos 2) [] none (pos 60) true

-- A block cipher that leaves a block as it is.
abbrev same : Block
same = record { encrypt = λ b. b; decrypt = λ b. b }

same-IsBlock : IsBlock same
same-IsBlock = record {
  decrypt-encrypt = λ b l h. refl;
  length-encrypt = λ b l. l;
  AreBytes-encrypt = λ b l h. h;
}

abbrev same_cipher : Bytes → Option Block
same_cipher = λ k. some same

abbrev short_key : Bytes
short_key = 1 ∷ 2 ∷ 3 ∷ []

short_key-AreBytes : AreBytes short_key
short_key-AreBytes = (omega arith, (omega arith, (omega arith, tt)))

aes_key_unwrap-wrap_example :
    (sealed : Bytes) × (aes_key_wrap same_cipher [] short_key ≡ ok sealed)
    × (aes_key_unwrap same_cipher [] sealed ≡ ok (pad_key short_key))
    × (IsPadded short_key → pad_key short_key ≡ short_key)
aes_key_unwrap-wrap_example =
    aes_key_unwrap-wrap same_cipher [] short_key same refl same-IsBlock short_key-AreBytes

abbrev manager : InMemoryKeyManager
manager = record {
  provider_name = [];
  keys = (pos 1, replicate 32 8) ∷ [];
  active_version = pos 1;
  closed = false;
}

abbrev to_two : List RotationStep
to_two =
    adds (pos 2) (replicate 32 6)
    ∷ promotes (record { current_version = pos 1; target_version = pos 2 })
    ∷ []

manager_run : find_key (pos 1) manager.keys ≡ some (replicate 32 8)
unfolding find_key
manager_run = refl

unwrap_key-wrap_key_example :
    (e : KeyEnvelope) × (wrap_key same_cipher false short_key manager ≡ ok e)
    × (unwrap_key same_cipher false (some e) (rotation_steps manager to_two)
        ≡ ok (pad_key short_key))
unwrap_key-wrap_key_example =
    unwrap_key-wrap_key same_cipher short_key (replicate 32 8) same manager to_two manager_run refl
      refl (omega arith) refl same-IsBlock short_key-AreBytes
