-- ===== src/RateLimit.antt =====
-- The token buckets in front of the endpoints: server/internal/ratelimit/ratelimit.go and the limiter's
-- decision in middleware.go. Go's float64 and the conversions of its time package are the parameter
-- `Clockwork`, a time is a count of nanoseconds, and the map of the buckets is a list of its entries.
pub mod Isolation
use familycards.Prelude.{
  ℕ, ◌+◌, ltb, String, ◌==◌, Bool, true, false, not, Option, none, some, List, [], ◌∷◌, length,
  if◌then◌else◌,
}
use familycards.Prelude.Table.{find, update, insert, delete, exists}

-- The operations on float64, and on durations by way of it.
pub record Clockwork (Float : Type 0) : Type 0 where
  pub of_int : ℕ → Float
  pub add : Float → Float → Float
  pub sub : Float → Float → Float
  pub mul : Float → Float → Float
  pub div : Float → Float → Float
  pub less : Float → Float → Bool
  pub at_least : Float → Float → Bool
  -- now.Sub(then).Minutes()
  pub minutes_between : ℕ → ℕ → Float
  -- time.Duration(x * float64(time.Minute)), in nanoseconds
  pub of_minutes : Float → ℕ
  -- int(d.Seconds()+1)
  pub whole_seconds : ℕ → ℕ

pub record Bucket (Float : Type 0) : Type 0 where
  pub tokens : Float
  pub last_refill : ℕ
  pub last_seen : ℕ

pub record Entry (Float : Type 0) : Type 0 where
  pub key : String
  pub bucket : Bucket Float

pub record Limiter (Float : Type 0) : Type 0 where
  pub buckets : List (Entry Float)
  pub rate_per_min : Float
  pub burst : Float
  pub idle_expiry : ℕ

module _ {Float : Type 0} (clock : Clockwork Float) where
  open clock use {
    of_int, add, sub, mul, div, less, at_least, minutes_between, of_minutes, whole_seconds,
  }

  abbrev pub min : Float → Float → Float
  min a b = if less a b then a else b

  -- `New`
  abbrev pub new_limiter : ℕ → ℕ → Limiter Float
  new_limiter rate_per_minute idle_expiry = record {
    buckets = [];
    rate_per_min = of_int rate_per_minute;
    burst = of_int rate_per_minute;
    idle_expiry = idle_expiry;
  }

  abbrev pub has_key : String → Entry Float → Bool
  has_key key e = e.key == key

  abbrev pub bucket_or_new : ℕ → Limiter Float → Option (Entry Float) → Bucket Float
  bucket_or_new now l none = record { tokens = l.burst; last_refill = now; last_seen = now }
  bucket_or_new now l (some e) = record e.bucket { last_seen = now }

  -- `l.buckets[key]`, or a full bucket
  unfoldable pub bucket_for : ℕ → String → Limiter Float → Bucket Float
  bucket_for now key l = bucket_or_new now l (find (has_key key) l.buckets)

  abbrev pub refill : ℕ → Limiter Float → Bucket Float → Bucket Float
  refill now l b = record b {
    tokens = min l.burst (add b.tokens (mul (minutes_between now b.last_refill) l.rate_per_min));
    last_refill = now;
  }

  -- What is answered, and the bucket that is left.
  abbrev pub spend : Limiter Float → Bucket Float → (Bool × ℕ) × Bucket Float
  spend l b =
      if at_least b.tokens (of_int 1)
      then ((true, 0), record b { tokens = sub b.tokens (of_int 1) })
      else ((false, of_minutes (div (sub (of_int 1) b.tokens) l.rate_per_min)), b)

  abbrev pub set_bucket : Bucket Float → Entry Float → Entry Float
  set_bucket b e = record e { bucket = b }

  -- `l.buckets[key] = b`
  unfoldable pub store_bucket : String → Bucket Float → List (Entry Float) → List (Entry Float)
  store_bucket key b entries =
      if exists (has_key key) entries
      then update (has_key key) (set_bucket b) entries
      else insert (record { key = key; bucket = b }) entries

  -- Whether the request may pass, how long to wait if not, and the limiter after it.
  unfoldable pub allow : ℕ → String → Limiter Float → (Bool × ℕ) × Limiter Float
  unfolding bucket_for store_bucket
  allow now key l =
      let (answer, b) = spend l (refill now l (bucket_for now key l)) in
      (answer, record l { buckets = store_bucket key b l.buckets })

  abbrev pub is_idle : ℕ → Limiter Float → Entry Float → Bool
  is_idle now l e = ltb (e.bucket.last_seen + l.idle_expiry) now

  unfoldable pub sweep : ℕ → Limiter Float → Limiter Float
  sweep now l = record l { buckets = delete (is_idle now l) l.buckets }

  abbrev pub len : Limiter Float → ℕ
  len l = length l.buckets
