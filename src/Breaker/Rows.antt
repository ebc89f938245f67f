-- ===== src/Breaker/Rows.antt =====
-- When failures in a row open the breaker.
use mathlib.Core.List.{append_assoc}
use mathlib.Core.Path.{subst}
use s3_encryption_gateway.Prelude.{
  ℕ, ◌+◌, ◌≤◌, ◌<◌, Bool, true, false, List, [], ◌∷◌, ◌++◌, length, length-append, ◌≡◌, ◌↔◌, refl,
  sym, arith, inl, inr, ◌⊎◌, ap, ◌∙◌,
}
use s3_encryption_gateway.Breaker.{
  cb_state_closed, cb_state_open, CircuitBreakerConfig, CircuitBreaker, record_result,
}
use s3_encryption_gateway.Breaker.Reach.{recording, Section, section_step, sections}

-- A time, and whether the call succeeded whose result is recorded at that time.
abbrev pub Outcome : Type 0
Outcome = ℕ × Bool

unfoldable pub recorded : List Outcome → List Section
recorded [] = []
recorded (o ∷ os) = recording o.0 o.1 ∷ recorded os

abbrev pub AreFailures : List Outcome → Type 0
AreFailures [] = Unit
AreFailures (o ∷ os) = (o.1 ≡ false) × AreFailures os

-- Somewhere in a list of outcomes, `n` in a row are failures.
pub record HasRow (n : ℕ) (os : List Outcome) : Type 0 where
  pub before : List Outcome
  pub row : List Outcome
  pub after : List Outcome
  pub split : os ≡ before ++ (row ++ after)
  pub size : length row ≡ n
  pub fails : AreFailures row

record_failure_cases :
    (cfg : CircuitBreakerConfig) (cb : CircuitBreaker) (at : ℕ)
    → cb.state ≡ cb_state_closed
    → ((cfg.consecutive_failures ≤ cb.failures + 1)
        × ((record_result cfg at false cb).state ≡ cb_state_open)
        × ((record_result cfg at false cb).opened_at ≡ at))
      ⊎ ((cb.failures + 1 < cfg.consecutive_failures)
          × ((record_result cfg at false cb).state ≡ cb_state_closed)
          × ((record_result cfg at false cb).failures ≡ cb.failures + 1))
unfolding record_result
record_failure_cases cfg cb at h = ground (arith, h)

record_success_closed :
    (cfg : CircuitBreakerConfig) (cb : CircuitBreaker) (at : ℕ)
    → cb.state ≡ cb_state_closed
    → ((record_result cfg at true cb).state ≡ cb_state_closed)
      × ((record_result cfg at true cb).failures ≡ 0)
unfolding record_result
record_success_closed cfg cb at h = ground (arith, h)

AreFailures-append :
    (os us : List Outcome) → AreFailures os → AreFailures us → AreFailures (os ++ us)
AreFailures-append [] us h k = k
AreFailures-append (o ∷ os) us h k = (h.0, AreFailures-append os us h.1 k)

recorded-append :
    (cfg : CircuitBreakerConfig) (cb : CircuitBreaker) (os us : List Outcome)
    → sections cfg cb (recorded (os ++ us))
      ≡ sections cfg (sections cfg cb (recorded os)) (recorded us)
unfolding sections recorded
recorded-append cfg cb [] us = refl
recorded-append cfg cb (o ∷ os) us =
    recorded-append cfg (section_step cfg cb (recording o.0 o.1)) os us

recorded-open :
    (cfg : CircuitBreakerConfig) (cb : CircuitBreaker) (os : List Outcome)
    → cb.state ≡ cb_state_open
    → (sections cfg cb (recorded os)).state ≡ cb_state_open
unfolding sections section_step record_result recorded
recorded-open cfg cb [] h = h
recorded-open cfg cb (o ∷ os) h =
    recorded-open cfg (record_result cfg o.0 o.1 cb) os (ground (arith, h))

-- Recording leads from a closed breaker to a closed one below the limit, or to an open one.
recorded_cases :
    (cfg : CircuitBreakerConfig) (cb : CircuitBreaker) (os : List Outcome)
    → cb.state ≡ cb_state_closed
    → cb.failures < cfg.consecutive_failures
    → (((sections cfg cb (recorded os)).state ≡ cb_state_closed)
        × ((sections cfg cb (recorded os)).failures < cfg.consecutive_failures))
      ⊎ ((sections cfg cb (recorded os)).state ≡ cb_state_open)
unfolding sections section_step recorded
recorded_cases cfg cb [] h l = inl (h, l)
recorded_cases cfg cb ((at, true) ∷ os) h l =
    let k = record_success_closed cfg cb at h in
    recorded_cases cfg (record_result cfg at true cb) os k.0 (omega (arith, k, l))
recorded_cases cfg cb ((at, false) ∷ os) h l = elim (record_failure_cases cfg cb at h) [
  | inl x ↦ inr (recorded-open cfg (record_result cfg at false cb) os x.1)
  | inr x ↦ recorded_cases cfg (record_result cfg at false cb) os x.1 (omega (arith, x))
]

row_opens :
    (cfg : CircuitBreakerConfig) (cb : CircuitBreaker) (row : List Outcome)
    → cb.state ≡ cb_state_closed
    → cb.failures < cfg.consecutive_failures
    → cfg.consecutive_failures ≤ cb.failures + length row
    → AreFailures row
    → (sections cfg cb (recorded row)).state ≡ cb_state_open
unfolding sections section_step recorded
row_opens cfg cb [] h l m f = absurd (omega (arith, l, m))
row_opens cfg cb ((at, true) ∷ row) h l m f = absurd (ground (arith, f))
row_opens cfg cb ((at, false) ∷ row) h l m f = elim (record_failure_cases cfg cb at h) [
  | inl x ↦ recorded-open cfg (record_result cfg at false cb) row x.1
  | inr x ↦
      row_opens cfg (record_result cfg at false cb) row x.1 (omega (arith, x)) (omega (arith, x, m))
        f.1
]

HasRow-open :
    (cfg : CircuitBreakerConfig) (cb : CircuitBreaker) (os : List Outcome)
    → cb.state ≡ cb_state_closed
    → cb.failures < cfg.consecutive_failures
    → HasRow cfg.consecutive_failures os
    → (sections cfg cb (recorded os)).state ≡ cb_state_open
HasRow-open cfg cb os h l k =
    let mid = sections cfg cb (recorded k.before) in
    let end : (sections cfg mid (recorded k.row)).state ≡ cb_state_open =
      elim (recorded_cases cfg cb k.before h l) [
        | inl x ↦ row_opens cfg mid k.row x.0 x.1 (omega (arith, k.size)) k.fails
        | inr x ↦ recorded-open cfg mid k.row x
      ] in
    ap (λ l. (sections cfg cb (recorded l)).state) k.split
    ∙ ap (λ c. c.state) (recorded-append cfg cb k.before (k.row ++ k.after))
    ∙ ap (λ c. c.state) (recorded-append cfg mid k.row k.after)
    ∙ recorded-open cfg (sections cfg mid (recorded k.row)) k.after end

-- The failures counted so far, `counted`, are part of the row.
open-HasRow :
    (cfg : CircuitBreakerConfig) (cb : CircuitBreaker) (counted os : List Outcome)
    → AreFailures counted
    → length counted ≡ cb.failures
    → cb.state ≡ cb_state_closed
    → cb.failures < cfg.consecutive_failures
    → (sections cfg cb (recorded os)).state ≡ cb_state_open
    → HasRow cfg.consecutive_failures (counted ++ os)
unfolding sections section_step recorded
open-HasRow cfg cb counted [] f n h l o = absurd (ground (arith, h, o))
open-HasRow cfg cb counted ((at, true) ∷ os) f n h l o =
    let k = record_success_closed cfg cb at h in
    let r =
      open-HasRow cfg (record_result cfg at true cb) [] os tt (sym k.1) k.0 (omega (arith, k, l))
        o in
    record {
      before = counted ++ (at, true) ∷ r.before;
      row = r.row;
      after = r.after;
      split =
          ap (λ l. counted ++ (at, true) ∷ l) r.split
          ∙ sym (append_assoc counted ((at, true) ∷ r.before) (r.row ++ r.after));
      size = r.size;
      fails = r.fails;
    }
open-HasRow cfg cb counted ((at, false) ∷ os) f n h l o =
    let more = AreFailures-append counted ((at, false) ∷ []) f (refl, tt) in
    let same = append_assoc counted ((at, false) ∷ []) os in
    let size = length-append counted ((at, false) ∷ []) in
    elim (record_failure_cases cfg cb at h) [
      | inl x ↦ record {
        before = [];
        row = counted ++ (at, false) ∷ [];
        after = os;
        split = sym same;
        size = omega (arith, size, n, x, l);
        fails = more;
      }
      | inr x ↦ subst (HasRow cfg.consecutive_failures) same (
          open-HasRow cfg (record_result cfg at false cb) (counted ++ (at, false) ∷ []) os more
            (omega (arith, size, n, x)) x.1 (omega (arith, x)) o)
    ]

-- The breaker opens just when the configured number of calls in a row fail. From a closed breaker
-- with no failures counted, a positive limit, and any outcomes recorded at any times with no other
-- section in between: it is open at the end if some failures in a row are as many as the limit, and
-- only then; else it is closed with fewer failures counted than the limit.
pub sections-HasRow :
    (cfg : CircuitBreakerConfig) (cb : CircuitBreaker) (os : List Outcome)
    → 0 < cfg.consecutive_failures
    → cb.state ≡ cb_state_closed
    → cb.failures ≡ 0
    → (((sections cfg cb (recorded os)).state ≡ cb_state_open) ↔ HasRow cfg.consecutive_failures os)
      × (((sections cfg cb (recorded os)).state ≡ cb_state_open)
          ⊎ (((sections cfg cb (recorded os)).state ≡ cb_state_closed)
              × ((sections cfg cb (recorded os)).failures < cfg.consecutive_failures)))
sections-HasRow cfg cb os p h n =
    let l : cb.failures < cfg.consecutive_failures = omega (arith, p, n) in
    (
      (λ o. open-HasRow cfg cb [] os tt (sym n) h l o, λ k. HasRow-open cfg cb os h l k),
      elim (recorded_cases cfg cb os h l) [ inl x ↦ inr x | inr x ↦ inl x ],
    )
