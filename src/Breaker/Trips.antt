-- ===== src/Breaker/Trips.antt =====
-- When the breaker of src/fallback/circuit-breaker.ts trips: a description by runs of failures.
use mathlib.Core.List.{append_assoc}
use prism_pipe.Prelude.{
  ℕ, suc, ◌+◌, ◌≡◌, ◌<◌, ◌≤◌, List, [], ◌∷◌, ◌++◌, ◌⊎◌, ◌↔◌, refl, arith, String, get_or, map, sym,
  ◌∙◌, ap, inl, inr, length, length-append, Bool-cases, leb, leb→le,
}
use prism_pipe.Breaker.{
  CircuitBreaker, CircuitBreakerOptions, closed, opened, new, record_success, record_failure,
}

-- The outcome of one request, with the time at which it is recorded.
pub data Outcome : Type 0 where
  succeeded failed : ℕ → Outcome

unfoldable pub record_outcome : CircuitBreaker → Outcome → CircuitBreaker
record_outcome b (succeeded now) = record_success now b
record_outcome b (failed now) = record_failure now b

unfoldable pub record_all : CircuitBreaker → List Outcome → CircuitBreaker
unfolding record_outcome
record_all b [] = b
record_all b (o ∷ os) = record_all (record_outcome b o) os

-- The outcomes contain `n` failures in a row, recorded at the given times.
pub record HasRun (n : ℕ) (os : List Outcome) : Type 0 where
  pub before : List Outcome
  pub times : List ℕ
  pub after : List Outcome
  pub split : os ≡ before ++ (map failed times ++ after)
  pub long : length times ≡ n

record_all-append :
    (b : CircuitBreaker) (xs ys : List Outcome)
    → record_all b (xs ++ ys) ≡ record_all (record_all b xs) ys
unfolding record_all
record_all-append b [] ys = refl
record_all-append b (x ∷ xs) ys = record_all-append (record_outcome b x) xs ys

-- While nothing asks `allowRequest`, a tripped breaker stays open.
record_all-opened :
    (b : CircuitBreaker) (os : List Outcome) → b.state ≡ opened → (record_all b os).state ≡ opened
unfolding record_all record_success record_failure
record_all-opened b [] e = e
record_all-opened b (succeeded now ∷ os) e =
    record_all-opened (record_success now b) os (ground arith)
record_all-opened b (failed now ∷ os) e = record_all-opened (record_failure now b) os (ground arith)

-- What the run loop keeps: the breaker is open, or closed below its threshold.
abbrev Armed : ℕ → CircuitBreaker → Type 0
Armed n b =
    (b.failure_threshold ≡ n)
    × ((b.state ≡ opened) ⊎ ((b.state ≡ closed) × (b.consecutive_failures < n)))

record_all-Armed :
    (n : ℕ) (b : CircuitBreaker) (os : List Outcome) → Armed n b → Armed n (record_all b os)
unfolding record_all record_success record_failure
record_all-Armed n b [] h = h
record_all-Armed n b (succeeded now ∷ os) h =
    record_all-Armed n (record_success now b) os (ground arith)
record_all-Armed n b (failed now ∷ os) h =
    record_all-Armed n (record_failure now b) os (ground arith)

record_all-times :
    (n : ℕ) (b : CircuitBreaker) (times : List ℕ)
    → Armed n b
    → n ≤ b.consecutive_failures + length times
    → (record_all b (map failed times)).state ≡ opened
unfolding record_all record_failure
record_all-times n b [] h le = ground arith
record_all-times n b (t ∷ ts) h le =
    record_all-times n (record_failure t b) ts (ground arith) (ground arith)

opened_of_HasRun :
    (n : ℕ) (b : CircuitBreaker) (os : List Outcome)
    → Armed n b
    → HasRun n os
    → (record_all b os).state ≡ opened
opened_of_HasRun n b os h r =
    let mid = record_all b r.before in
    let tripped =
      record_all-times n mid r.times (record_all-Armed n b r.before h) (omega (arith, r.long)) in
    rw
      (
        r.split,
        record_all-append b r.before (map failed r.times ++ r.after),
        record_all-append mid (map failed r.times) r.after,
      )
      (record_all-opened _ r.after tripped)

-- A run that ends with the outcomes seen so far is the whole count of the breaker.
HasRun-cons : (n : ℕ) (xs : List Outcome) {os : List Outcome} → HasRun n os → HasRun n (xs ++ os)
HasRun-cons n xs r = record {
  before = xs ++ r.before;
  times = r.times;
  after = r.after;
  split = ap (◌++◌ xs) r.split ∙ sym (append_assoc xs r.before _);
  long = r.long;
}

map_failed_snoc :
    (seen : List ℕ) (t : ℕ) (os : List Outcome)
    → map failed (seen ++ t ∷ []) ++ os ≡ map failed seen ++ (failed t ∷ os)
map_failed_snoc [] t os = refl
map_failed_snoc (s ∷ seen) t os = ap (◌∷◌ (failed s)) (map_failed_snoc seen t os)

HasRun-of_opened :
    (n : ℕ) (b : CircuitBreaker) (seen : List ℕ) (os : List Outcome)
    → b.failure_threshold ≡ n
    → b.state ≡ closed
    → b.consecutive_failures ≡ length seen
    → length seen < n
    → (record_all b os).state ≡ opened
    → HasRun n (map failed seen ++ os)
unfolding record_all record_success record_failure
HasRun-of_opened n b seen [] e c k lt o = absurd (ground arith)
HasRun-of_opened n b seen (succeeded t ∷ os) e c k lt o = HasRun-cons n (map failed seen) (
    HasRun-cons n (succeeded t ∷ []) (
      HasRun-of_opened n (record_success t b) [] os (ground arith) (ground arith) (ground arith)
        (omega arith) o))
HasRun-of_opened n b seen (failed t ∷ os) e c k lt o =
    rw (← map_failed_snoc seen t os) (elim (Bool-cases (leb n (suc (length seen)))) [
      | inl full ↦ record {
        before = [];
        times = seen ++ t ∷ [];
        after = os;
        split = refl;
        long = omega (arith, leb→le _ _ full, length-append {0} seen (t ∷ []));
      }
      | inr more ↦
          HasRun-of_opened n (record_failure t b) (seen ++ t ∷ []) os (ground arith) (ground arith)
            (ground (arith, length-append seen (t ∷ [])))
            (ground (arith, length-append seen (t ∷ []))) o
    ])

-- After any outcomes recorded on a new breaker with a positive threshold, with no request asked
-- for in between, the breaker is open exactly when the outcomes contain as many failures in a row
-- as the threshold.
pub trips_iff :
    (provider : String) (opts : CircuitBreakerOptions) (os : List Outcome)
    → 0 < get_or opts.failure_threshold 5
    → ((record_all (new provider opts) os).state ≡ opened)
      ↔ HasRun (get_or opts.failure_threshold 5) os
unfolding new
trips_iff provider opts os h = (
  HasRun-of_opened _ (new provider opts) [] os refl refl refl h,
  opened_of_HasRun _ (new provider opts) os (refl, inr (refl, h)),
)
