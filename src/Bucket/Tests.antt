-- ===== src/Bucket/Tests.antt =====
-- Runs of a bucket of two tokens that gains one each second.
use rust_ws_server.Base.{◌+◌, ◌*◌, ◌≤◌, ◌≡◌, refl, true, [], ◌∷◌, arith}
use rust_ws_server.Bucket.{TokenBucket, token, new, try_consume}
use rust_ws_server.Bucket.Bounds.{
  IsValid, new-IsValid, try_consume-IsValid, try_consume_after_second,
}
use rust_ws_server.Bucket.Admission.{run, run_bound}

abbrev bucket : TokenBucket
bucket = new 1 2 0

-- Two at once, the third is refused; a second later one more goes through.
run_burst : (run bucket (0 ∷ 0 ∷ 0 ∷ token ∷ token ∷ [])).1 ≡ 3
unfolding run try_consume new
run_burst = refl

try_consume-IsValid_example : IsValid (try_consume bucket 5).0
try_consume-IsValid_example = try_consume-IsValid bucket 5 (new-IsValid 1 2 0)

try_consume_after_second_example : (try_consume (try_consume bucket 5).0 (token + 5)).1 ≡ true
try_consume_after_second_example =
    try_consume_after_second bucket 5 (token + 5) (new-IsValid 1 2 0) (omega arith)

run_bound_example : (run bucket (0 ∷ 0 ∷ 0 ∷ token ∷ [])).1 * token ≤ 2 * token + token * 1
run_bound_example = run_bound 1 2 0 token (0 ∷ 0 ∷ 0 ∷ token ∷ []) (omega arith)
