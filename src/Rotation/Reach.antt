-- ===== src/Rotation/Reach.antt =====
-- The rotations that can happen when operators, the poller and the wrapping callers interleave.
use s3_encryption_gateway.Prelude.{
  ℕ, zero, suc, some, ◌<◌, ◌+◌, if◌then◌else◌, ap, pos_part, neg_part, Bool, true, false, List, [],
  ◌∷◌, ◌++◌, Option, Bytes, ℤ, ◌≡◌, refl, arith, Bool-cases, inl, inr, ◌⊎◌,
}
use s3_encryption_gateway.Rotation.{
  RotationPhase, rotation_draining, rotation_ready_to_cutover, rotation_committing, RotationState,
  increment, decrement, begin_wrap, end_wrap, start_drain, is_drained, grace_is_over, leave_drain,
  check_grace, commit, mark_committed, mark_failed, abort, reset,
}

pub data Event (P : Type 0) : Type 0 where
  wrap_begins wrap_ends resets looks leaves_drain : Event P
  starts : ℕ → Bytes → ℤ → ℤ → Bytes → Option P → ℤ → Event P
  checks_grace : ℕ → Event P
  commits : Bool → Event P
  is_committed : ℕ → Event P
  fails : ℕ → Option Bytes → Event P
  aborts : ℕ → Event P

-- The state, and the number of pollers (of this rotation or of an earlier one) that have loaded a
-- count of 0 or less and have not yet taken the mutex.
pub record Rotating (P : Type 0) : Type 0 where
  pub state : RotationState P
  pub seen : ℕ

look : {P : Type 0} → Rotating P → Rotating P
look s = if is_drained s.state then record s { seen = s.seen + 1 } else s

take_mutex : {P : Type 0} → RotationState P → ℕ → Rotating P
take_mutex s zero = record { state = s; seen = 0 }
take_mutex s (suc n) = record { state = leave_drain s; seen = n }

unfoldable pub rotate : {P : Type 0} → Rotating P → Event P → Rotating P
unfolding look take_mutex
rotate s wrap_begins = record s { state = begin_wrap s.state }
rotate s wrap_ends = record s { state = end_wrap s.state }
rotate s resets = record s { state = reset s.state }
rotate s looks = look s
rotate s leaves_drain = take_mutex s.state s.seen
rotate s (starts now id c t p plan grace) = record s {
  state = (start_drain now id c t p plan grace s.state).0;
}
rotate s (checks_grace now) = record s { state = check_grace now s.state }
rotate s (commits force) = record s { state = (commit force s.state).0 }
rotate s (is_committed now) = record s { state = mark_committed now s.state }
rotate s (fails now e) = record s { state = mark_failed now e s.state }
rotate s (aborts now) = record s { state = (abort now s.state).0 }

unfoldable pub rotate_all : {P : Type 0} → Rotating P → List (Event P) → Rotating P
rotate_all s [] = s
rotate_all s (e ∷ es) = rotate_all (rotate s e) es

unfoldable pub is_past_drain : RotationPhase → Bool
is_past_drain rotation_ready_to_cutover = true
is_past_drain rotation_committing = true
is_past_drain p = false

abbrev pub IsIdle : {P : Type 0} → RotationState P → Type 0
IsIdle s = pos_part s.in_flight_wraps ≡ 0

-- At some moment of the run `es` from `s`, a poller loads the counter and no wrap is in flight.
pub record Looked (P : Type 0) (s : Rotating P) (es : List (Event P)) : Type 0 where
  pub earlier : List (Event P)
  pub later : List (Event P)
  pub moment : es ≡ earlier ++ looks ∷ later
  pub none_in_flight : IsIdle (rotate_all s earlier).state

-- Why a rotation may leave the draining phase for the cutover: `looked` is what is known of the
-- pollers that take the mutex.
abbrev pub Permits : {P : Type 0} → RotationState P → Type 0 → Event P → Type 0
Permits s looked leaves_drain = looked
Permits s looked (checks_grace now) = (d : ℕ) × (s.grace_deadline ≡ some d) × (d < now)
Permits s looked (commits force) = (force ≡ true) ⊎ IsIdle s
Permits s looked e = ⊥

rotate_past_drain :
    {P : Type 0} (s : Rotating P) (e : Event P)
    → is_past_drain s.state.phase ≡ false
    → is_past_drain (rotate s e).state.phase ≡ true
    → Permits s.state (0 < s.seen) e × (s.state.phase ≡ rotation_draining)
unfolding rotate is_past_drain begin_wrap end_wrap start_drain check_grace leave_drain is_drained
    grace_is_over commit mark_committed mark_failed abort reset
rotate_past_drain s e h g = ground (arith, h, g)

rotate-seen :
    {P : Type 0} (s : Rotating P) (e : Event P)
    → 0 < (rotate s e).seen
    → (0 < s.seen) ⊎ ((e ≡ looks) × IsIdle s.state)
unfolding rotate is_drained
rotate-seen s e h = ground (arith, h)

Looked-later :
    {P : Type 0} (s : Rotating P) (e : Event P) (es : List (Event P))
    → Looked P (rotate s e) es
    → Looked P s (e ∷ es)
unfolding rotate_all
Looked-later s e es k = record {
  earlier = e ∷ k.earlier;
  later = k.later;
  moment = ap (λ l. e ∷ l) k.moment;
  none_in_flight = k.none_in_flight;
}

-- The event that ends the draining, in the run `es` from `s`, after the events `before`.
pub record Cutover (P : Type 0) (s : Rotating P) (es : List (Event P)) : Type 0 where
  pub before : List (Event P)
  pub event : Event P
  pub after : List (Event P)
  pub split : es ≡ before ++ event ∷ after
  pub was_draining : (rotate_all s before).state.phase ≡ rotation_draining
  pub permitted : Permits (rotate_all s before).state ((0 < s.seen) ⊎ Looked P s before) event

permit :
    {P : Type 0} (s : RotationState P) (e : Event P) (A B : Type 0)
    → (A → B)
    → Permits s A e
    → Permits s B e
permit s leaves_drain A B f h = f h
permit s (checks_grace now) A B f h = h
permit s (commits force) A B f h = h
permit s wrap_begins A B f h = absurd h
permit s wrap_ends A B f h = absurd h
permit s resets A B f h = absurd h
permit s looks A B f h = absurd h
permit s (starts now id c t p plan grace) A B f h = absurd h
permit s (is_committed now) A B f h = absurd h
permit s (fails now e) A B f h = absurd h
permit s (aborts now) A B f h = absurd h

earlier_seen :
    {P : Type 0} (s : Rotating P) (e : Event P) (es : List (Event P))
    → (0 < (rotate s e).seen) ⊎ Looked P (rotate s e) es
    → (0 < s.seen) ⊎ Looked P s (e ∷ es)
unfolding rotate_all
earlier_seen s e es (inr k) = inr (Looked-later s e es k)
earlier_seen s e es (inl k) = elim (rotate-seen s e k) [
  | inl x ↦ inl x
  | inr x ↦
      inr (record { earlier = []; later = es; moment = ap (λ f. f ∷ es) x.0; none_in_flight = x.1 })
]

-- In every run that starts before the cutover and ends ready for it or committing, whatever wraps,
-- operators and pollers do in between: some event ends a draining phase, and it is a commit that is
-- forced or finds no wrap in flight, or a poller that finds the deadline passed, or a poller that takes
-- the mutex after some earlier moment of the run at which it loaded the counter and no wrap was in
-- flight (or that was on its way when the run started). By then other wraps may have begun.
pub rotate_all-Cutover :
    {P : Type 0} (s : Rotating P) (es : List (Event P))
    → is_past_drain s.state.phase ≡ false
    → is_past_drain (rotate_all s es).state.phase ≡ true
    → Cutover P s es
unfolding rotate_all
rotate_all-Cutover s [] h g = ground (arith, h, g)
rotate_all-Cutover {P} s (e ∷ es) h g = elim (Bool-cases (is_past_drain (rotate s e).state.phase)) [
  | inl x ↦
      let k = rotate_past_drain s e h x in
      record {
        before = [];
        event = e;
        after = es;
        split = refl;
        was_draining = k.1;
        permitted = permit s.state e (0 < s.seen) ((0 < s.seen) ⊎ Looked P s []) inl k.0;
      }
  | inr x ↦
      let c = rotate_all-Cutover (rotate s e) es x g in
      record {
        before = e ∷ c.before;
        event = c.event;
        after = c.after;
        split = ap (λ l. e ∷ l) c.split;
        was_draining = c.was_draining;
        permitted =
            permit (rotate_all (rotate s e) c.before).state c.event
              ((0 < (rotate s e).seen) ⊎ Looked P (rotate s e) c.before)
              ((0 < s.seen) ⊎ Looked P s (e ∷ c.before)) (earlier_seen s e c.before) c.permitted;
      }
]

unfoldable pub is_begin : {P : Type 0} → Event P → Bool
is_begin wrap_begins = true
is_begin e = false

unfoldable pub is_end : {P : Type 0} → Event P → Bool
is_end wrap_ends = true
is_end e = false

unfoldable pub count : {P : Type 0} → (Event P → Bool) → List (Event P) → ℕ
count f [] = 0
count f (e ∷ es) = (if f e then 1 else 0) + count f es

rotate-in_flight :
    {P : Type 0} (s : Rotating P) (e : Event P)
    → pos_part (rotate s e).state.in_flight_wraps
        + neg_part s.state.in_flight_wraps
        + (if is_end e then 1 else 0)
      ≡ pos_part s.state.in_flight_wraps
        + neg_part (rotate s e).state.in_flight_wraps
        + (if is_begin e then 1 else 0)
unfolding rotate is_begin is_end begin_wrap end_wrap increment decrement start_drain leave_drain
    check_grace commit mark_committed mark_failed abort reset
rotate-in_flight s e = ground arith

-- The counter is exact in every run, resets included: the wraps begun less those ended.
pub rotate_all-in_flight :
    {P : Type 0} (s : Rotating P) (es : List (Event P))
    → pos_part (rotate_all s es).state.in_flight_wraps
        + neg_part s.state.in_flight_wraps
        + count is_end es
      ≡ pos_part s.state.in_flight_wraps
        + neg_part (rotate_all s es).state.in_flight_wraps
        + count is_begin es
unfolding rotate_all count is_begin is_end
rotate_all-in_flight s [] = ground arith
rotate_all-in_flight s (e ∷ es) =
    ground (arith, rotate_all-in_flight (rotate s e) es, rotate-in_flight s e)
