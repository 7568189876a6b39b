-- ===== src/RateLimit/Tests.antt =====
-- A caller who asks four times in one window, and the theorem at this input.
use ai_client_acquisition_os.Common.{
  ◌+◌, ◌-◌, ◌<◌, ◌≡◌, refl, ◌↔◌, true, false, List, [], ◌∷◌, some, String, count_by,
}
use ai_client_acquisition_os.Common.Text.{trim, to_lower}
use ai_client_acquisition_os.RateLimit.{
  RateLimitDecision, Request, reissue_email_policy, consume, upsert, hits_of, bucket_key, decide,
  window_start,
}
use ai_client_acquisition_os.RateLimit.Window.{serve_all, shares_window, consume_allowed}

abbrev hash : String → String
hash text = text

abbrev request : Request
request = record { identifier = "a@b.com"; policy = reissue_email_policy; now = 900500 }

abbrev upper_case : Request
upper_case = record request { identifier = " A@b.com"; now = 900100 }

abbrev earlier : List Request
earlier = upper_case ∷ request ∷ request ∷ []

abbrev refusal : RateLimitDecision
refusal = record {
  allowed = false;
  remaining = 0;
  reset_at = 1800000;
  retry_after_seconds = 900;
  policy = "reissue:email";
}

fourth : (consume hash request (serve_all hash earlier [])).1 ≡ some refusal
unfolding consume serve_all upsert hits_of bucket_key decide window_start trim to_lower
fourth = refl

consume_allowed_example :
    ((false ≡ true) ↔ (count_by (shares_window hash request) earlier < 3))
    × (0 ≡ 3 - (count_by (shares_window hash request) earlier + 1))
consume_allowed_example = consume_allowed hash request earlier refusal fourth
