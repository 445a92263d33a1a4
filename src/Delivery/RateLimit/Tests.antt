-- ===== src/Delivery/RateLimit/Tests.antt =====
-- server/bbz_core/infra/rate_limit.py: hits at concrete times.
use bbz_platform.Prelude.{ℕ, ◌+◌, true, false, List, [], ◌∷◌, ◌≡◌, refl, inl, arith, map, length}
use bbz_platform.Delivery.RateLimit.{RateLimitRule, hits, prune, window_start_of, bucket_of}
use bbz_platform.Delivery.RateLimit.Window.{allowed_of, hits_allowed, min_of}

abbrev login : RateLimitRule
login = record { name = "login"; limit = 2; window_seconds = 60 }

abbrev times : List ℕ
times = 120000000 ∷ 130000000 ∷ 179500000 ∷ []

verdicts :
    map (λ result. result.allowed) (hits login "10.0.0.7" times []).1 ≡ true ∷ true ∷ false ∷ []
unfolding window_start_of bucket_of
verdicts = refl

waits : map (λ result. result.retry_after) (hits login "10.0.0.7" times []).1 ≡ 60 ∷ 50 ∷ 1 ∷ []
unfolding window_start_of bucket_of
waits = refl

-- The first hit of the next window drops the row of the last.
rolled_over : length (hits login "10.0.0.7" (130000000 ∷ 190000000 ∷ []) []).0 ≡ 1
unfolding window_start_of bucket_of
rolled_over = refl

pruned : (prune 200000000 (hits login "10.0.0.7" times []).0).1 ≡ 1
unfolding window_start_of bucket_of
pruned = refl

hits_allowed_example :
    allowed_of (hits login "10.0.0.7" times []).1 + min_of 2 0 ≡ min_of 2 (0 + length times)
unfolding window_start_of
hits_allowed_example =
    hits_allowed login "10.0.0.7" 120000000 0 times [] (omega arith) (refl, (refl, (refl, tt)))
      (inl (refl, refl))
