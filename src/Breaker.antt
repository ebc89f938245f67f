-- ===== src/Breaker.antt =====
-- internal/crypto/keymanager_circuitbreaker.go: the circuit breaker around a key manager. The
-- clock is an argument, each critical section of the mutex is one function, and the wrapped key
-- manager is a parameter of the calls. Counters and durations are natural numbers.
pub mod Reach
pub mod Rows
use s3_encryption_gateway.Prelude.{
  ℕ, ◌+◌, ◌-◌, ◌*◌, Bool, true, false, List, [], ◌∷◌, leb, if◌then◌else◌, Result, ok, err,
}

pub data CbState : Type 0 where
  cb_state_closed cb_state_open cb_state_half_open : CbState

pub record CircuitBreakerConfig : Type 0 where
  pub consecutive_failures : ℕ
  pub open_timeout : ℕ
  pub success_threshold : ℕ

-- DefaultCircuitBreakerConfig, with the time in nanoseconds.
abbrev pub default_circuit_breaker_config : CircuitBreakerConfig
default_circuit_breaker_config = record {
  consecutive_failures = 5;
  open_timeout = 30 * 1000000000;
  success_threshold = 2;
}

pub record CircuitBreaker : Type 0 where
  pub state : CbState
  pub failures : ℕ
  pub successes : ℕ
  pub opened_at : ℕ
  pub closed : Bool

abbrev pub new_circuit_breaker : CircuitBreaker
new_circuit_breaker = record {
  state = cb_state_closed;
  failures = 0;
  successes = 0;
  opened_at = 0;
  closed = false;
}

allow_in : CircuitBreakerConfig → ℕ → CircuitBreaker → CbState → CircuitBreaker × Bool
allow_in cfg now cb cb_state_closed = (cb, true)
allow_in cfg now cb cb_state_open =
    if leb cfg.open_timeout (now - cb.opened_at)
    then (record cb { state = cb_state_half_open; successes = 0 }, true)
    else (cb, false)
allow_in cfg now cb cb_state_half_open = (cb, true)

-- The new state, and whether the request may proceed (else ErrProviderUnavailable).
unfoldable pub allow_request : CircuitBreakerConfig → ℕ → CircuitBreaker → CircuitBreaker × Bool
unfolding allow_in
allow_request cfg now cb = if cb.closed then (cb, false) else allow_in cfg now cb cb.state

record_success : CircuitBreakerConfig → CircuitBreaker → CbState → CircuitBreaker
record_success cfg cb cb_state_closed = record cb { failures = 0 }
record_success cfg cb cb_state_open = cb
record_success cfg cb cb_state_half_open =
    if leb cfg.success_threshold (cb.successes + 1)
    then record cb { state = cb_state_closed; failures = 0; successes = 0 }
    else record cb { successes = cb.successes + 1 }

record_failure : CircuitBreakerConfig → ℕ → CircuitBreaker → CbState → CircuitBreaker
record_failure cfg now cb cb_state_closed =
    if leb cfg.consecutive_failures (cb.failures + 1)
    then record cb { state = cb_state_open; opened_at = now; failures = 0 }
    else record cb { failures = cb.failures + 1 }
record_failure cfg now cb cb_state_open = cb
record_failure cfg now cb cb_state_half_open = record cb {
  state = cb_state_open;
  opened_at = now;
  successes = 0;
}

-- `success`: the call of the key manager returned no error.
unfoldable pub record_result : CircuitBreakerConfig → ℕ → Bool → CircuitBreaker → CircuitBreaker
unfolding record_success record_failure
record_result cfg now success cb =
    if success then record_success cfg cb cb.state else record_failure cfg now cb cb.state

-- The new state, and whether the wrapped key manager is closed too.
unfoldable pub close : ℕ → CircuitBreaker → CircuitBreaker × Bool
close now cb =
    if cb.closed
    then (cb, false)
    else (record cb { closed = true; state = cb_state_open; opened_at = now }, true)

pub data CbError (E : Type 0) : Type 0 where
  provider_unavailable : CbError E
  inner_error : E → CbError E

is_ok {ℓ κ} : {E : Type ℓ} {A : Type κ} → Result E A → Bool
is_ok (ok a) = true
is_ok (err e) = false

unfoldable pub lift_error : {E A : Type 0} → Result E A → Result (CbError E) A
lift_error (ok a) = ok a
lift_error (err e) = err (inner_error e)

-- WrapKey and UnwrapKey: `answer` is what the wrapped key manager returns, if it is called, and
-- `now` and `later` are the times before and after. The result ends with whether it was called.
unfoldable pub guarded_call :
    {E A : Type 0}
    → CircuitBreakerConfig
    → ℕ
    → ℕ
    → Result E A
    → CircuitBreaker
    → CircuitBreaker × Result (CbError E) A × Bool
unfolding is_ok lift_error
guarded_call cfg now later answer cb =
    let (cb1, allowed) = allow_request cfg now cb in
    if allowed
    then (record_result cfg later (is_ok answer) cb1, lift_error answer, true)
    else (cb1, err provider_unavailable, false)
