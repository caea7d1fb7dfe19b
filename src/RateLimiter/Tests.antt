-- ===== src/RateLimiter/Tests.antt =====
-- Runs of the connection's rate limiter.
use rust_ws_server.Base.{◌≡◌}
use rust_ws_server.Bucket
use rust_ws_server.RateLimiter.{as_bucket, new, allow, allow-try_consume}

allow-try_consume_example :
    let r = allow (new 100 200 0) 7 in
    Bucket.try_consume (as_bucket (new 100 200 0)) 7 ≡ (as_bucket r.0, r.1)
allow-try_consume_example = allow-try_consume (new 100 200 0) 7
