-- ===== src/RateLimit.antt =====
-- packages/rate-limit/src: policy.ts, limiter.ts and the counters of pgLimiter.ts.
pub mod Window
mod Tests
use ai_client_acquisition_os.Common.{
  ℕ, suc, ◌+◌, ◌-◌, ◌*◌, ◌/◌, max, Bool, true, false, not, ◌&&◌, List, [], ◌∷◌, ◌++◌, Option, none,
  some, String, leb, ltb, ◌==◌, ◌=ˢ◌, if◌then◌else◌, keep,
}
use ai_client_acquisition_os.Common.Text.{trim, to_lower}
use Prim.Native.String as Str

-- Limits and windows are whole numbers; `assertPolicy` refuses a zero.
pub record RateLimitPolicy : Type 0 where
  pub name : String
  pub limit : ℕ
  pub window_ms : ℕ

abbrev pub create_order_ip_policy : RateLimitPolicy
create_order_ip_policy = record { name = "create-order:ip"; limit = 20; window_ms = 300000 }

abbrev pub create_order_email_policy : RateLimitPolicy
create_order_email_policy = record { name = "create-order:email"; limit = 5; window_ms = 900000 }

abbrev pub reissue_email_policy : RateLimitPolicy
reissue_email_policy = record { name = "reissue:email"; limit = 3; window_ms = 900000 }

abbrev pub reissue_ip_policy : RateLimitPolicy
reissue_ip_policy = record { name = "reissue:ip"; limit = 10; window_ms = 900000 }

-- Whether `assertPolicy` lets the policy pass.
abbrev pub assert_policy : RateLimitPolicy → Bool
assert_policy policy = leb 1 policy.limit && leb 1 policy.window_ms

unfoldable pub window_start : ℕ → ℕ → ℕ
window_start now window_ms = now / window_ms * window_ms

pub record RateLimitDecision : Type 0 where
  pub allowed : Bool
  pub remaining : ℕ
  pub reset_at : ℕ
  pub retry_after_seconds : ℕ
  pub policy : String

-- Both maxima are of a difference that may be negative: the difference of ℕ is that maximum.
unfoldable pub decide : RateLimitPolicy → ℕ → ℕ → ℕ → RateLimitDecision
decide policy hits start now = record {
  allowed = leb hits policy.limit;
  remaining = policy.limit - hits;
  reset_at = start + policy.window_ms;
  retry_after_seconds = max 1 ((start + policy.window_ms - now + 999) / 1000);
  policy = policy.name;
}

-- A row of `rate_limit_counters`.
pub record Counter : Type 0 where
  pub bucket_key : String
  pub window_start : ℕ
  pub hits : ℕ
  pub expires_at : ℕ

pub record Request : Type 0 where
  pub identifier : String
  pub policy : RateLimitPolicy
  pub now : ℕ

abbrev pub is_bucket : String → ℕ → Counter → Bool
is_bucket key start c = (c.bucket_key =ˢ key) && (c.window_start == start)

-- `ON CONFLICT … DO UPDATE SET hits = hits + 1`: the primary key is (bucket_key, window_start).
unfoldable pub upsert : String → ℕ → ℕ → List Counter → List Counter
upsert key start expires_at [] =
    record { bucket_key = key; window_start = start; hits = 1; expires_at = expires_at } ∷ []
upsert key start expires_at (c ∷ counters) =
    let rest = upsert key start expires_at counters in
    if is_bucket key start c then record c { hits = c.hits + 1 } ∷ counters else c ∷ rest

-- The hits of a window; no row is no hit.
unfoldable pub hits_of : String → ℕ → List Counter → ℕ
hits_of key start [] = 0
hits_of key start (c ∷ counters) =
    let rest = hits_of key start counters in if is_bucket key start c then c.hits else rest

-- `hash` is SHA-256.
module _ (hash : String → String) where
  -- `\0` stands between the name and the identifier.
  unfoldable pub bucket_key : RateLimitPolicy → String → String
  unfolding trim to_lower
  bucket_key policy identifier =
      Str.◌++◌ policy.name
        (Str.◌++◌ ":" (hash (Str.◌++◌ policy.name (Str.◌++◌ "\0" (to_lower (trim identifier))))))

  abbrev pub key_of : Request → String
  key_of r = bucket_key r.policy r.identifier

  abbrev pub start_of : Request → ℕ
  start_of r = window_start r.now r.policy.window_ms

  abbrev pub count : Request → List Counter → List Counter
  count r counters = upsert (key_of r) (start_of r) (start_of r + r.policy.window_ms) counters

  -- `none` where `assertPolicy` throws.
  unfoldable pub consume : Request → List Counter → List Counter × Option RateLimitDecision
  unfolding upsert hits_of bucket_key decide
  consume r counters = if not (assert_policy r.policy) then (counters, none) else (
    count r counters,
    some (decide r.policy (hits_of (key_of r) (start_of r) (count r counters)) (start_of r) r.now),
  )

-- `deleteExpired`.
unfoldable pub delete_expired : ℕ → List Counter → List Counter
delete_expired now counters = keep (λ (c : Counter). not (leb c.expires_at now)) counters
