-- ===== src/Rotation/Moves.antt =====
-- What the operators' calls do in each phase of a rotation.
use s3_encryption_gateway.Prelude.{ℕ, ◌↔◌, Bool, true, false, Option, Bytes, ℤ, ◌≡◌, arith, ◌⊎◌}
use s3_encryption_gateway.Rotation.{
  RotationPhase, rotation_idle, rotation_draining, rotation_ready_to_cutover, rotation_committing,
  rotation_aborted, RotationState, start_drain, is_drained, commit, abort,
}
use s3_encryption_gateway.Rotation.Reach.{IsIdle}

-- An operation succeeds just when `allowed` holds; it then leads to the phase `target`, and else it
-- changes nothing.
abbrev pub Moves :
    {P : Type 0} → Type 0 → RotationPhase → RotationState P → RotationState P × Bool → Type 0
Moves allowed target s r =
    ((r.1 ≡ true) ↔ allowed)
    × (((r.1 ≡ true) × (r.0.phase ≡ target) × (r.0.in_flight_wraps ≡ s.in_flight_wraps))
        ⊎ (r ≡ (s, false)))

-- The operators' moves: a drain starts just from the idle phase; a commit succeeds just when the
-- rotation is ready, or draining with no wrap in flight or by force; an abort succeeds just before the
-- commit. Each leads to its phase and leaves the count of wraps as it is, or fails and changes nothing.
pub operator-Moves :
    {P : Type 0} (s : RotationState P) (now : ℕ) (id : Bytes) (current target : ℤ)
    (provider : Bytes) (plan : Option P) (grace : ℤ) (force : Bool)
    → Moves
        (s.phase ≡ rotation_idle)
        rotation_draining
        s
        (start_drain now id current target provider plan grace s)
      × Moves
          ((s.phase ≡ rotation_ready_to_cutover)
            ⊎ ((s.phase ≡ rotation_draining) × ((force ≡ true) ⊎ IsIdle s)))
          rotation_committing
          s
          (commit force s)
      × Moves
          ((s.phase ≡ rotation_draining) ⊎ (s.phase ≡ rotation_ready_to_cutover))
          rotation_aborted
          s
          (abort now s)
unfolding start_drain commit abort is_drained
operator-Moves s now id current target provider plan grace force =
    (ground arith, ground arith, ground arith)
