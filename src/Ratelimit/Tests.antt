-- ===== src/Ratelimit/Tests.antt =====
-- Runs and a witness of the token buckets of src/stdlib_ratelimit.c.
use vek.Prelude.{ℕ, ◌+◌, ◌-◌, ◌*◌, ◌≤◌, ◌≡◌, refl, inl, inr, some, none, List, [], ◌∷◌, All, arith}
use vek.Ratelimit.{Store, ratelimit_check, refilled, consume}
use vek.Ratelimit.Limit.{Call, IsBounded, IsWithin, IsLimited, allowed_calls, ratelimit_check-limit}

abbrev call : ℕ → ℕ → ℕ → Call
call key max_tokens now = record { key = key; max_tokens = max_tokens; refill_rate = 1; now = now }

abbrev calls : List Call
calls = call 8 2 100 ∷ call 8 2 100 ∷ call 8 2 100 ∷ call 16 5 101 ∷ call 8 2 102 ∷ []

three_allowed : allowed_calls 8 [] calls ≡ some 3
unfolding allowed_calls ratelimit_check refilled consume
three_allowed = refl

zero_refused : ratelimit_check [] 8 0 1 100 ≡ some ([], none)
unfolding ratelimit_check
zero_refused = refl

calls-IsWithin : All (IsWithin 5 1 100 102) calls
unfolding IsWithin
calls-IsWithin = (
  (omega arith, omega arith, omega arith, omega arith),
  (
    (omega arith, omega arith, omega arith, omega arith),
    (
      (omega arith, omega arith, omega arith, omega arith),
      (
        (omega arith, omega arith, omega arith, omega arith),
        ((omega arith, omega arith, omega arith, omega arith), tt),
      ),
    ),
  ),
)

calls-IsLimited : All (IsLimited 8 2 1) calls
unfolding IsLimited
calls-IsLimited = (
  inr (refl, refl),
  (
    inr (refl, refl),
    (inr (refl, refl), (inl (λ e. absurd (omega (arith, e))), (inr (refl, refl), tt))),
  ),
)

-- the bucket was last seen long before
abbrev store : Store
store = (8, record { tokens = 1; last_refill = 10 }) ∷ []

store-IsBounded : IsBounded 5 store
unfolding IsBounded
store-IsBounded = (omega arith, tt)

ratelimit_check-limit_example :
    (n : ℕ) × (allowed_calls 8 store calls ≡ some n) × (n ≤ 2 + 1 * (102 - 100))
ratelimit_check-limit_example =
    ratelimit_check-limit 8 2 1 5 1 100 102 store calls store-IsBounded (omega arith) calls-IsWithin
      calls-IsLimited (omega arith)
