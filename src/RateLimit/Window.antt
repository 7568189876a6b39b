-- ===== src/RateLimit/Window.antt =====
-- How many requests of one caller get through in one window.
use ai_client_acquisition_os.Common.{
  ℕ, ◌+◌, ◌-◌, ◌<◌, Bool, true, ◌&&◌, List, [], ◌∷◌, some, String, ◌≡◌, refl, ap, arith, ◌↔◌, leb,
  ◌==◌, ◌=ˢ◌, =ˢ_iff, count_by, if◌then◌else◌,
}
use ai_client_acquisition_os.RateLimit.{
  RateLimitPolicy, RateLimitDecision, Counter, Request, upsert, hits_of, key_of, start_of, count,
  consume, decide, assert_policy,
}

hits_of-upsert :
    (key other : String) (start at expires : ℕ) (counters : List Counter)
    → hits_of key start (upsert other at expires counters) ≡ (
        if (other =ˢ key) && (at == start)
        then hits_of key start counters + 1
        else hits_of key start counters)
unfolding hits_of upsert
hits_of-upsert key other start at expires [] = ground arith
hits_of-upsert key other start at expires (c ∷ counters) = ground (
  arith,
  hits_of-upsert key other start at expires counters,
  =ˢ_iff c.bucket_key key,
  =ˢ_iff c.bucket_key other,
  =ˢ_iff other key,
)

empty_hits : (key : String) (start : ℕ) → hits_of key start [] ≡ 0
unfolding hits_of
empty_hits key start = refl

decide_rest :
    (policy : RateLimitPolicy) (hits before start now : ℕ) (d : RateLimitDecision)
    → hits ≡ before + 1
    → decide policy hits start now ≡ d
    → ((d.allowed ≡ true) ↔ (before < policy.limit)) × (d.remaining ≡ policy.limit - (before + 1))
unfolding decide
decide_rest policy hits before start now d counted decided =
    let allowed : leb hits policy.limit ≡ d.allowed =
      ap (λ (r : RateLimitDecision). r.allowed) decided in
    let remaining : policy.limit - hits ≡ d.remaining =
      ap (λ (r : RateLimitDecision). r.remaining) decided in
    (
      (λ h. ground (arith, allowed, counted), λ h. ground (arith, allowed, counted)),
      ground (arith, remaining, counted),
    )

module _ (hash : String → String) where
  -- Whether `q` is counted in the window of `r`; a policy that is refused counts nothing.
  abbrev pub shares_window : Request → Request → Bool
  shares_window r q =
      assert_policy q.policy
      && ((key_of hash q =ˢ key_of hash r) && (start_of hash q == start_of hash r))

  -- The counters after the requests, the first one first.
  unfoldable pub serve_all : List Request → List Counter → List Counter
  unfolding consume
  serve_all [] counters = counters
  serve_all (q ∷ requests) counters = serve_all requests (consume hash q counters).0

  hits_of-consume :
      (r q : Request) (counters : List Counter)
      → hits_of (key_of hash r) (start_of hash r) (consume hash q counters).0 ≡ (
          if shares_window r q
          then hits_of (key_of hash r) (start_of hash r) counters + 1
          else hits_of (key_of hash r) (start_of hash r) counters)
  unfolding consume
  hits_of-consume r q counters = ground (
    arith,
    hits_of-upsert (key_of hash r) (key_of hash q) (start_of hash r) (start_of hash q)
        (start_of hash q + q.policy.window_ms) counters,
  )

  hits_of-serve_all :
      (r : Request) (requests : List Request) (counters : List Counter)
      → hits_of (key_of hash r) (start_of hash r) (serve_all requests counters)
        ≡ hits_of (key_of hash r) (start_of hash r) counters + count_by (shares_window r) requests
  unfolding serve_all
  hits_of-serve_all r [] counters = ground arith
  hits_of-serve_all r (q ∷ requests) counters =
      let counted = hits_of-serve_all r requests (consume hash q counters).0 in
      let one = hits_of-consume r q counters in ground (arith, counted, one)

  -- After any requests of anyone, a request is allowed exactly if fewer than `limit` of them were
  -- counted for its policy and identifier in its window, and what remains is the rest of the limit:
  -- so a window lets `limit` requests of one caller through and no more.
  pub consume_allowed :
      (r : Request) (requests : List Request) (d : RateLimitDecision)
      → (consume hash r (serve_all requests [])).1 ≡ some d
      → ((d.allowed ≡ true) ↔ (count_by (shares_window r) requests < r.policy.limit))
        × (d.remaining ≡ r.policy.limit - (count_by (shares_window r) requests + 1))
  unfolding consume
  consume_allowed r requests d h =
      let earlier = serve_all requests [] in
      let key = key_of hash r in
      let start = start_of hash r in
      let hits = hits_of key start (count hash r earlier) in
      let counted : hits ≡ count_by (shares_window r) requests + 1 = ground (
        arith,
        hits_of-upsert key key start start (start + r.policy.window_ms) earlier,
        hits_of-serve_all r requests [],
        =ˢ_iff key key,
        empty_hits key start,
      ) in
      let decided : decide r.policy hits start r.now ≡ d = ground (arith, h) in
      decide_rest r.policy hits (count_by (shares_window r) requests) start r.now d counted decided
