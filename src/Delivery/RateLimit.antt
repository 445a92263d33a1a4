-- ===== src/Delivery/RateLimit.antt =====
-- server/bbz_core/infra/rate_limit.py and server/bbz_core/infra/models/rate_limit.py: the counter of a
-- fixed window. Times are microseconds since the epoch, with the window of a rule in seconds.
pub mod Window
mod Tests
use Prim.Native.Nat.{◌/◌}
use Prim.Native.String
use bbz_platform.Prelude.{
  str_take, ℕ, zero, suc, ◌+◌, ◌-◌, ◌*◌, String, Bool, true, false, not, ◌&&◌, List, [], ◌∷◌, ◌++◌,
  Option, none, some, ltb, leb, nat_eq, ◌==◌, find, filter, length, if◌then◌else◌,
}

pub record RateLimitRule : Type 0 where
  name : String
  limit : ℕ
  window_seconds : ℕ

pub record RateLimitResult : Type 0 where
  allowed : Bool
  count : ℕ
  retry_after : ℕ

pub record RateLimitHit : Type 0 where
  bucket : String
  window_start : ℕ
  count : ℕ
  expires_at : ℕ

abbrev pub second : ℕ
second = 1000000

abbrev pub window_of : RateLimitRule → ℕ
window_of rule = rule.window_seconds * second

-- `math.floor(now.timestamp() / window) * window`, and the end of that window
unfoldable pub window_start_of : RateLimitRule → ℕ → ℕ
window_start_of rule now = now / window_of rule * window_of rule

abbrev pub expires_of : RateLimitRule → ℕ → ℕ
expires_of rule now = window_start_of rule now + window_of rule

unfoldable pub bucket_of : RateLimitRule → String → String
bucket_of rule identifier = str_take 160 (String.◌++◌ rule.name (String.◌++◌ ":" identifier))

abbrev pub is_row : String → ℕ → RateLimitHit → Bool
is_row bucket start row = row.bucket == bucket && nat_eq row.window_start start

-- `INSERT … ON CONFLICT (bucket, window_start) DO UPDATE … RETURNING count`
abbrev pub upsert : RateLimitHit → List RateLimitHit → List RateLimitHit × ℕ
upsert new [] = (new ∷ [], new.count)
upsert new (row ∷ rows) =
    let rest = upsert new rows in
    if is_row new.bucket new.window_start row
    then (record row { count = suc row.count } ∷ rows, suc row.count)
    else (row ∷ rest.0, rest.1)

-- `bucket == … AND expires_at < now`
abbrev pub is_stale : String → ℕ → RateLimitHit → Bool
is_stale bucket now row = row.bucket == bucket && ltb row.expires_at now

-- `max(1, math.ceil((expires_at - now).total_seconds()))`
abbrev pub retry_after_of : ℕ → ℕ → ℕ
retry_after_of expires_at now =
    let seconds = (expires_at - now + 999999) / 1000000 in if leb 1 seconds then seconds else 1

abbrev pub first_hit : RateLimitRule → String → ℕ → RateLimitHit
first_hit rule identifier now = record {
  bucket = bucket_of rule identifier;
  window_start = window_start_of rule now;
  count = 1;
  expires_at = expires_of rule now;
}

abbrev pub hit :
    RateLimitRule → String → ℕ → List RateLimitHit → List RateLimitHit × RateLimitResult
hit rule identifier now rows =
    let new = first_hit rule identifier now in
    let (counted, count) = upsert new rows in
    (
      (if nat_eq count 1
          then filter (λ row. not (is_stale new.bucket now row)) counted
          else counted),
      record {
        allowed = leb count rule.limit;
        count = count;
        retry_after = retry_after_of new.expires_at now;
      },
    )

-- The rows that are left, and how many went.
abbrev pub prune : ℕ → List RateLimitHit → List RateLimitHit × ℕ
prune now rows =
    let left = filter (λ row. not (ltb row.expires_at now)) rows in
    (left, length rows - length left)

-- Requests of one caller, at these times.
abbrev pub hits :
    RateLimitRule → String → List ℕ → List RateLimitHit → List RateLimitHit × List RateLimitResult
hits rule identifier [] rows = (rows, [])
hits rule identifier (now ∷ nows) rows =
    let (left, result) = hit rule identifier now rows in
    let (end, results) = hits rule identifier nows left in (end, result ∷ results)
