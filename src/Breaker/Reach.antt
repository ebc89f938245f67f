-- ===== src/Breaker/Reach.antt =====
-- The states that a circuit breaker reaches when any number of callers interleave.
use s3_encryption_gateway.Prelude.{
  ℕ, ◌<◌, Bool, true, false, List, [], ◌∷◌, Result, err, ◌≡◌, arith,
}
use s3_encryption_gateway.Breaker.{
  CbState, cb_state_closed, cb_state_open, cb_state_half_open, CircuitBreakerConfig, CircuitBreaker,
  allow_request, record_result, close, guarded_call, provider_unavailable,
}

-- The critical sections, in the order in which the mutex lets them run. A caller's `recorded` may
-- come long after its `allowed`, in another state of the breaker.
pub data Section : Type 0 where
  allowing : ℕ → Section
  recording : ℕ → Bool → Section
  closing : ℕ → Section

unfoldable pub section_step : CircuitBreakerConfig → CircuitBreaker → Section → CircuitBreaker
section_step cfg cb (allowing now) = (allow_request cfg now cb).0
section_step cfg cb (recording now success) = record_result cfg now success cb
section_step cfg cb (closing now) = (close now cb).0

unfoldable pub sections : CircuitBreakerConfig → CircuitBreaker → List Section → CircuitBreaker
sections cfg cb [] = cb
sections cfg cb (s ∷ ss) = sections cfg (section_step cfg cb s) ss

-- The counters stay below the limits at which they change the state, and a breaker that is shut
-- down is open.
abbrev pub CountersOk : CircuitBreakerConfig → CircuitBreaker → CbState → Type 0
CountersOk cfg cb cb_state_closed = (cb.failures < cfg.consecutive_failures) × (cb.closed ≡ false)
CountersOk cfg cb cb_state_open = cb.failures < cfg.consecutive_failures
CountersOk cfg cb cb_state_half_open =
    (cb.successes < cfg.success_threshold)
    × (cb.failures < cfg.consecutive_failures)
    × (cb.closed ≡ false)

abbrev pub IsBreaker : CircuitBreakerConfig → CircuitBreaker → Type 0
IsBreaker cfg cb = CountersOk cfg cb cb.state

section_step-IsBreaker :
    (cfg : CircuitBreakerConfig) (cb : CircuitBreaker) (s : Section)
    → 0 < cfg.consecutive_failures
    → 0 < cfg.success_threshold
    → IsBreaker cfg cb
    → IsBreaker cfg (section_step cfg cb s)
unfolding section_step allow_request record_result close
section_step-IsBreaker cfg cb s hf hs w = ground (arith, w)

-- However the callers interleave, a breaker with positive limits keeps its counters below them: it
-- is closed only with fewer failures in a row than the limit, and probing only with fewer successes.
pub sections-IsBreaker :
    (cfg : CircuitBreakerConfig) (cb : CircuitBreaker) (ss : List Section)
    → 0 < cfg.consecutive_failures
    → 0 < cfg.success_threshold
    → IsBreaker cfg cb
    → IsBreaker cfg (sections cfg cb ss)
unfolding sections
sections-IsBreaker cfg cb [] hf hs w = w
sections-IsBreaker cfg cb (s ∷ ss) hf hs w =
    sections-IsBreaker cfg (section_step cfg cb s) ss hf hs
      (section_step-IsBreaker cfg cb s hf hs w)

IsShut : CircuitBreaker → Type 0
IsShut cb = (cb.closed ≡ true) × (cb.state ≡ cb_state_open)

sections-IsShut :
    (cfg : CircuitBreakerConfig) (cb : CircuitBreaker) (ss : List Section)
    → IsShut cb
    → IsShut (sections cfg cb ss)
unfolding sections section_step allow_request record_result close IsShut
sections-IsShut cfg cb [] c = c
sections-IsShut cfg cb (s ∷ ss) c =
    sections-IsShut cfg (section_step cfg cb s) ss (ground (arith, c))

close-IsShut : (cb : CircuitBreaker) (at : ℕ) → cb.closed ≡ false → IsShut (close at cb).0
unfolding close IsShut
close-IsShut cb at h = ground (arith, h)

-- Once the breaker is shut down, no later call reaches the key manager, whatever other callers do
-- in between and however much time passes: it returns that the provider is unavailable.
pub guarded_call-close :
    {E A : Type 0} (cfg : CircuitBreakerConfig) (cb : CircuitBreaker) (at : ℕ) (ss : List Section)
    → cb.closed ≡ false
    → (now later : ℕ) (answer : Result E A)
    → ((guarded_call cfg now later answer (sections cfg (close at cb).0 ss)).1
        ≡ err provider_unavailable)
      × ((guarded_call cfg now later answer (sections cfg (close at cb).0 ss)).2 ≡ false)
unfolding guarded_call allow_request IsShut
guarded_call-close cfg cb at ss w now later answer =
    let k = sections-IsShut cfg (close at cb).0 ss (close-IsShut cb at w) in (simp k.0, simp k.0)
