-- ===== src/Telegram/Throttle.antt =====
-- ChannelThrottleGuard of src/assistant/channels/telegram/reliability/throttle.py, a sliding-window
-- limit on the events of each user. A reading of `time.monotonic` is a number of ticks; a cutoff
-- before the first tick acts as 0.
mod Window
mod Tracks
pub mod Limit
mod Samples
use private_claw.Prelude.{
  ℕ, ◌-◌, Option, none, some, Bool, List, [], ◌∷◌, ◌++◌, ltb, leb, length, if◌then◌else◌, nat_eq,
}
use private_claw.Prelude.Dict.{Dict, lookup, insert}

pub record ThrottleGuard : Type 0 where
  pub max_per_window : ℕ
  pub window : ℕ
  pub buckets : Dict ℕ (List ℕ)

-- `check` returns, or raises ThrottledError with the count and the limit
pub data Verdict : Type 0 where
  admitted : Verdict
  throttled : (user_id count limit : ℕ) → Verdict

-- `while timestamps and timestamps[0] < cutoff: timestamps.popleft()`
unfoldable pub drop_before : ℕ → List ℕ → List ℕ
drop_before cutoff [] = []
drop_before cutoff (t ∷ ts) =
    let rest = drop_before cutoff ts in if ltb t cutoff then rest else t ∷ ts

-- `setdefault(user_id, deque())`
abbrev pub bucket_of : ℕ → Dict ℕ (List ℕ) → List ℕ
bucket_of user_id buckets = elim (lookup user_id buckets) [ none ↦ [] | some ts ↦ ts ]

abbrev pub with_bucket : ℕ → List ℕ → ThrottleGuard → ThrottleGuard
with_bucket user_id ts g = record g { buckets = insert user_id ts g.buckets }

unfoldable pub check : ℕ → ℕ → ThrottleGuard → Verdict × ThrottleGuard
unfolding drop_before
check user_id now g =
    let ts = drop_before (now - g.window) (bucket_of user_id g.buckets) in
    if leb g.max_per_window (length ts)
    then (throttled user_id (length ts) g.max_per_window, with_bucket user_id ts g)
    else (admitted, with_bucket user_id (ts ++ now ∷ []) g)

-- the bucket of a user who has none is not made
unfoldable pub current_count : ℕ → ℕ → ThrottleGuard → ℕ × ThrottleGuard
unfolding drop_before
current_count user_id now g = elim (lookup user_id g.buckets) [
  | none ↦ (0, g)
  | some ts ↦
      let left = drop_before (now - g.window) ts in (length left, with_bucket user_id left g)
]
