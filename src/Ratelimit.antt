-- ===== src/Ratelimit.antt =====
-- The token buckets of src/stdlib_ratelimit.c. A key is the address of its interned string, and the store is
-- the list of its assignments with the newest first. The arguments are integers that are not negative: a negative
-- one is refused as 0 is. A time is in seconds. Signed overflow has no meaning in C and gives `none`.
pub mod Refill
pub mod Limit
mod Tests
use vek.Prelude.{
  ℕ, zero, suc, ◌+◌, ◌-◌, ◌*◌, ◌^◌, Bool, true, false, ◌&&◌, ◌||◌, Option, none, some, ◌>>=◌, List,
  [], ◌∷◌, leb, ltb, ◌==◌, if◌then◌else◌,
}

pub record Bucket : Type 0 where
  pub tokens : ℕ
  pub last_refill : ℕ

pub record Check : Type 0 where
  pub allowed : Bool
  pub remaining : ℕ

abbrev pub Store : Type 0
Store = List (ℕ × Bucket)

abbrev pub bucket_of : Store → ℕ → Option Bucket
bucket_of [] key = none
bucket_of ((k, b) ∷ store) key = if k == key then some b else bucket_of store key

-- the bucket with the tokens for the time that has passed
abbrev pub top_up : ℕ → ℕ → ℕ → Bucket → Option Bucket
top_up max_tokens refill_rate now b =
    let tokens = b.tokens + (now - b.last_refill) * refill_rate in
    if ltb b.last_refill now
    then (if ltb tokens (2 ^ 63)
        then some (record {
          tokens = if ltb max_tokens tokens then max_tokens else tokens;
          last_refill = now;
        })
        else none)
    else some b

-- a new bucket is full
unfoldable pub refilled : ℕ → ℕ → ℕ → Option Bucket → Option Bucket
refilled max_tokens refill_rate now none = some (record { tokens = max_tokens; last_refill = now })
refilled max_tokens refill_rate now (some b) = top_up max_tokens refill_rate now b

unfoldable pub consume : Bucket → Bucket
consume b = if ltb 0 b.tokens then record b { tokens = b.tokens - 1 } else b

abbrev pub answer : Store → ℕ → Bucket → Store × Option Check
answer store key b = (
  (key, consume b) ∷ store,
  some (record { allowed = ltb 0 b.tokens; remaining = (consume b).tokens }),
)

-- the new store and the answer, which is `none` for nil
unfoldable pub ratelimit_check : Store → ℕ → ℕ → ℕ → ℕ → Option (Store × Option Check)
ratelimit_check store key max_tokens refill_rate now =
    if leb max_tokens 0 || leb refill_rate 0 then some (store, none) else (do
      b ← refilled max_tokens refill_rate now (bucket_of store key)
      some (answer store key b))
