-- ===== src/Ratelimit/Limit.antt =====
-- What the token buckets of src/stdlib_ratelimit.c promise: a limit on the calls that are allowed.
use vek.Prelude.{
  ℕ, suc, ◌+◌, ◌-◌, ◌*◌, ◌^◌, ◌≤◌, ◌<◌, ◌≡◌, ◌≢◌, refl, inl, inr, ◌⊎◌, Bool, true, false, ◌&&◌,
  ◌||◌, Bool-cases, Option, none, some, ◌>>=◌, List, [], ◌∷◌, All, leb, ltb, ltb→lt, ◌==◌, ==_iff,
  if◌then◌else◌, arith,
}
use vek.Ratelimit.{Bucket, Check, Store, bucket_of, refilled, consume, answer, ratelimit_check}
use vek.Ratelimit.Refill.{potential, held, refilled-le, refilled-fits, potential-le}

-- A call at a time, for a key, with its limits.
pub record Call : Type 0 where
  pub key : ℕ
  pub max_tokens : ℕ
  pub refill_rate : ℕ
  pub now : ℕ

abbrev is_allowed : Option Check → Bool
is_allowed none = false
is_allowed (some c) = c.allowed

-- the number of a key's calls that are allowed
unfoldable pub allowed_calls : ℕ → Store → List Call → Option ℕ
allowed_calls key store [] = some 0
allowed_calls key store (c ∷ cs) = do
  r ← ratelimit_check store c.key c.max_tokens c.refill_rate c.now
  n ← allowed_calls key r.0 cs
  some (if c.key == key && is_allowed r.1 then suc n else n)

unfoldable pub IsBounded : ℕ → Store → Type 0
IsBounded m store = All (λ p. p.1.tokens ≤ m) store

held-bucket_of :
    (m : ℕ) (store : Store) (key : ℕ) → IsBounded m store → held (bucket_of store key) ≤ m
unfolding IsBounded
held-bucket_of m [] key bounded = omega arith
held-bucket_of m ((k, b) ∷ store) key bounded = elim (Bool-cases (k == key)) [
  | inl here ↦ rw here bounded.0
  | inr there ↦ rw there (held-bucket_of m store key bounded.1)
]

-- A call within the limits and the times given.
unfoldable pub IsWithin : ℕ → ℕ → ℕ → ℕ → Call → Type 0
IsWithin m r from until c =
    (c.max_tokens ≤ m) × (c.refill_rate ≤ r) × (from ≤ c.now) × (c.now ≤ until)

-- A call for another key, or with these limits.
unfoldable pub IsLimited : ℕ → ℕ → ℕ → Call → Type 0
IsLimited key max_tokens rate c =
    (c.key ≢ key) ⊎ (c.max_tokens ≡ max_tokens) × (c.refill_rate ≡ rate)

abbrev tally : Bool → ℕ
tally b = if b then 1 else 0

consume-tally :
    (b : Bucket)
    → ((consume b).tokens + tally (ltb 0 b.tokens) ≡ b.tokens)
      × ((consume b).last_refill ≡ b.last_refill)
      × ((consume b).tokens ≤ b.tokens)
unfolding consume
consume-tally b = elim (Bool-cases (ltb 0 b.tokens)) [
  | inl some_left ↦ rw some_left (omega (arith, ltb→lt _ _ some_left), refl, omega arith)
  | inr none_left ↦ rw none_left (omega arith, refl, omega arith)
]

none_more : (b : Bool) (n : ℕ) → n + tally (b && false) ≤ n
none_more true n = omega arith
none_more false n = omega arith

step-le :
    (key max_tokens rate from until : ℕ) (store : Store) (c : Call) (b : Bucket)
    → refilled c.max_tokens c.refill_rate c.now (bucket_of store c.key) ≡ some b
    → from ≤ c.now
    → c.now ≤ until
    → IsLimited key max_tokens rate c
    → potential max_tokens rate from until (bucket_of ((c.key, consume b) ∷ store) key)
        + tally (c.key == key && ltb 0 b.tokens)
      ≤ potential max_tokens rate from until (bucket_of store key)
unfolding IsLimited
step-le key max_tokens rate from until store c b filled h h' limited =
    elim (Bool-cases (c.key == key)) [
      | inr there ↦ rw there (omega arith)
      | inl here ↦ elim limited [
        | inl other ↦ absurd (other ((==_iff c.key key).0 here))
        | inr (e, e') ↦
            let same = (==_iff c.key key).0 here in
            let filled' = rw (e, e', same) at filled in
            let (taken, last, _) = consume-tally b in
            let (le, seen) =
              refilled-le max_tokens rate c.now from until (bucket_of store key) b filled' h h' in
            let after : ltb b.last_refill from ≡ false = ground arith in
            rw (here, last, after) (omega (arith, taken, le))
      ]
    ]

-- One call: what is allowed is taken from what the key's bucket may still give.
record IsStep (key max_tokens rate m from until : ℕ) (store : Store) (c : Call) : Type 0 where
  after : Store
  reply : Option Check
  ends : ratelimit_check store c.key c.max_tokens c.refill_rate c.now ≡ some (after, reply)
  bounded : IsBounded m after
  le :
      potential max_tokens rate from until (bucket_of after key)
        + tally (c.key == key && is_allowed reply)
      ≤ potential max_tokens rate from until (bucket_of store key)

step :
    (key max_tokens rate m r from until : ℕ) (store : Store) (c : Call)
    → IsBounded m store
    → IsWithin m r from until c
    → IsLimited key max_tokens rate c
    → m + until * r < 2 ^ 63
    → IsStep key max_tokens rate m from until store c
unfolding ratelimit_check IsWithin IsLimited IsBounded
step key max_tokens rate m r from until store c bounded within limited room =
    elim (Bool-cases (leb c.max_tokens 0 || leb c.refill_rate 0)) [
      | inl refused ↦ record {
        after = store;
        reply = none;
        ends = rw refused refl;
        bounded = bounded;
        le = none_more (c.key == key) _;
      }
      | inr taken ↦
          let (b, filled, small) =
            refilled-fits c.max_tokens c.refill_rate c.now m r until (bucket_of store c.key)
              within.0 within.1 within.3 (held-bucket_of m store c.key bounded) room in
          record {
            after = (answer store c.key b).0;
            reply = (answer store c.key b).1;
            ends = rw (taken, filled) refl;
            bounded = (omega (arith, (consume-tally b).2, small), bounded);
            le = step-le key max_tokens rate from until store c b filled within.2 within.3 limited;
          }
    ]

if-tally : (b : Bool) (n : ℕ) → (if b then suc n else n) ≡ n + tally b
if-tally true n = omega arith
if-tally false n = omega arith

allowed_within :
    (key max_tokens rate m r from until : ℕ) (store : Store) (calls : List Call)
    → IsBounded m store
    → All (IsWithin m r from until) calls
    → All (IsLimited key max_tokens rate) calls
    → m + until * r < 2 ^ 63
    → (n : ℕ) × (allowed_calls key store calls ≡ some n)
      × (n ≤ potential max_tokens rate from until (bucket_of store key))
unfolding allowed_calls
allowed_within key max_tokens rate m r from until store [] bounded within limited room =
    (0, refl, omega arith)
allowed_within key max_tokens rate m r from until store (c ∷ cs) bounded within limited room =
    let s = step key max_tokens rate m r from until store c bounded within.0 limited.0 room in
    let (n, e, le) =
      allowed_within key max_tokens rate m r from until s.after cs s.bounded within.1 limited.1
        room in
    let more = c.key == key && is_allowed s.reply in
    ((if more then suc n else n), rw (s.ends, e) refl, omega (arith, if-tally more n, le, s.le))

-- Between two times a key whose calls have the same limits is allowed at most `max_tokens` calls and `refill_rate` more for
-- each second, however long it was idle before, whatever the calls for other keys are and in whatever order the
-- clock gives the times. The key's bucket holds at most `max_tokens` at first, no bucket and no limit is above
-- `m`, no rate above `r`, and the product of `r` with the last time fits 63 bits with `m`.
pub ratelimit_check-limit :
    (key max_tokens refill_rate m r from until : ℕ) (store : Store) (calls : List Call)
    → IsBounded m store
    → held (bucket_of store key) ≤ max_tokens
    → All (IsWithin m r from until) calls
    → All (IsLimited key max_tokens refill_rate) calls
    → m + until * r < 2 ^ 63
    → (n : ℕ) × (allowed_calls key store calls ≡ some n)
      × (n ≤ max_tokens + refill_rate * (until - from))
ratelimit_check-limit key max_tokens refill_rate m r from until store calls bounded full within
      limited room =
    let (n, e, le) =
      allowed_within key max_tokens refill_rate m r from until store calls bounded within limited
        room in
    (
      n,
      e,
      omega (arith, le, potential-le max_tokens refill_rate from until (bucket_of store key) full),
    )
