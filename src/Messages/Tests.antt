-- ===== src/Messages/Tests.antt =====
-- Turns of a reader whose client belongs to "acme".
use rust_ws_server.Base.{List, ℕ, ◌+◌, ◌-◌, ◌*◌, ◌≤◌, max, map, ◌≡◌, refl, [], ◌∷◌, text, arith}
use rust_ws_server.Base.Map.{get}
use rust_ws_server.External.Model.{plain, sample}
use rust_ws_server.RateLimiter
use rust_ws_server.RateLimiter.{allow, RateLimiter}
use rust_ws_server.State.{check_tenant_rate, AppState, new}
use rust_ws_server.Str.{len}
use rust_ws_server.Topic.{tenant_topic}
use rust_ws_server.Messages.Reader.{
  Incoming, binary_frame, limited, accept_text, accept_binary, within_tenant_rate, text_frame,
  reader_turn,
}
use rust_ws_server.Bucket.{token}
use rust_ws_server.Bucket.Admission.{Within}
use rust_ws_server.Messages.{handle_text, handle_binary, handle_parsed, handle_client_event}
use rust_ws_server.Messages.Rate.{reader_loop, reader_loop_bound}
use rust_ws_server.Messages.Frame.{Untouched, IsOutside}
use rust_ws_server.Messages.Isolation.{AreApart, reader_turn-Untouched}

-- The connection's own queue is number 1.
abbrev start : AppState plain
start = record (new plain sample) { queues = (1, plain.mpsc.channel 4) ∷ [] }

abbrev limiter : RateLimiter
limiter = RateLimiter.new 10 20 0

-- Two bytes for "é".
len_e_acute : len (0xE9 ∷ b'a' ∷ []) ≡ 3
unfolding len
len_e_acute = refl

apart : AreApart (text "acme") (text "beta")
apart = (ground arith, ground arith, ground arith)

outside : IsOutside start 1 (text "acme") 2
unfolding get new
outside = (omega arith, λ c h e. cc)

reader_turn-Untouched_example :
    Untouched
      (tenant_topic (text "beta") (text "news"))
      2
      start
      (reader_turn start limiter 1
        (tenant_topic (text "acme") (text "news"))
        (text "acme")
        (text "ann")
        (text_frame (text "pnews"))
        5).state
reader_turn-Untouched_example =
    reader_turn-Untouched start limiter 1 (text "news") (text "acme") (text "ann") (text "beta")
      (text "news") 2 (text_frame (text "pnews")) 5 apart outside

-- Three messages at once, under a burst of two.
abbrev three : List (Incoming × ℕ)
three = (text_frame (text "?"), 5) ∷ (binary_frame (text "?"), 5) ∷ (text_frame (text "?"), 5) ∷ []

in_order : Within 0 10 (map (λ (p : Incoming × ℕ). p.1) three)
in_order = (omega arith, (omega arith, (omega arith, omega arith)))

-- The third message ends the loop.
two_of_three :
    (reader_loop start
      (RateLimiter.new 1 2 0)
      1
      (text "acme:news")
      (text "acme")
      (text "ann")
      three).1
    ≡ 2
unfolding reader_loop reader_turn limited RateLimiter.new allow new accept_text within_tenant_rate
    check_tenant_rate len accept_binary handle_text handle_binary handle_parsed handle_client_event
two_of_three = refl

reader_loop_bound_example :
    (reader_loop start
        (RateLimiter.new 1 2 0)
        1
        (text "acme:news")
        (text "acme")
        (text "ann")
        three).1
      * token
    ≤ max 2 1 * token + (10 - 0) * max 1 1
reader_loop_bound_example =
    reader_loop_bound start 1 (text "acme:news") (text "acme") (text "ann") 1 2 0 10 three in_order
