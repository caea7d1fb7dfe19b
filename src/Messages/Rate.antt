-- ===== src/Messages/Rate.antt =====
-- The rate at which a connection's messages are handled.
use rust_ws_server.Base.{
  map, ℕ, ◌+◌, ◌-◌, ◌*◌, ◌≤◌, max, ◌≡◌, ◌⊎◌, inl, inr, refl, List, [], ◌∷◌, Text, Bool-cases, arith,
  if◌then◌else◌,
}
use rust_ws_server.Bucket.{token}
use rust_ws_server.Bucket.Admission.{Within, Within-le, flow_split}
use rust_ws_server.External.{External}
use rust_ws_server.Protocol.{Bytes}
use rust_ws_server.RateLimiter
use rust_ws_server.RateLimiter.{RateLimiter, allow}
use rust_ws_server.State.{AppState}
use rust_ws_server.Messages.Reader.{
  Incoming, text_frame, binary_frame, ping_frame, pong_frame, close_frame, ended, failed, timed_out,
  Next, again, stop, failure, Turn, limited, accept_text, accept_binary, reader_turn,
}

-- One for a message that the reader takes in, and nothing for any other turn.
abbrev pub handled : Incoming → Next → ℕ
handled (text_frame _) again = 1
handled (binary_frame _) again = 1
handled _ _ = 0

allow_cost :
    (r : RateLimiter) (now : ℕ)
    → let (r', allowed) = allow r now in
      (if allowed then token else 0) + r'.tokens
      ≤ r.tokens + (now - r.last_refill) * r.refill_per_second
unfolding allow
allow_cost r now = ground arith

allow-frame :
    (r : RateLimiter) (now : ℕ)
    → let r' = (allow r now).0 in
      (r'.last_refill ≡ now) × (r'.refill_per_second ≡ r.refill_per_second)
unfolding allow
allow-frame r now = (ground arith, ground arith)

module _ {ext : External} where
  -- The limiter is asked once for a message, whose handling follows its answer, and not at all for
  -- another turn.
  abbrev pub IsMetered : RateLimiter → ℕ → Incoming → Turn ext → Type 0
  IsMetered limiter now incoming turn =
      ((turn.limiter ≡ limiter) × (handled incoming turn.next ≡ 0))
      ⊎ ((turn.limiter ≡ (allow limiter now).0)
          × (handled incoming turn.next ≡ (if (allow limiter now).1 then 1 else 0)))

  limited-text :
      (s : AppState ext) (limiter : RateLimiter) (tx now : ℕ) (raw : Text)
      (accept : AppState ext → AppState ext)
      → IsMetered limiter now (text_frame raw) (limited s limiter tx now accept)
  unfolding limited
  limited-text s limiter tx now raw accept = elim (Bool-cases (allow limiter now).1) [
    | inl e ↦ rw (e, limited) (inr (refl, refl))
    | inr e ↦ rw (e, limited) (inr (refl, refl))
  ]

  limited-binary :
      (s : AppState ext) (limiter : RateLimiter) (tx now : ℕ) (raw : Bytes)
      (accept : AppState ext → AppState ext)
      → IsMetered limiter now (binary_frame raw) (limited s limiter tx now accept)
  unfolding limited
  limited-binary s limiter tx now raw accept = elim (Bool-cases (allow limiter now).1) [
    | inl e ↦ rw (e, limited) (inr (refl, refl))
    | inr e ↦ rw (e, limited) (inr (refl, refl))
  ]

  reader_turn-IsMetered :
      (s : AppState ext) (limiter : RateLimiter) (tx : ℕ) (key tenant client : Text)
      (incoming : Incoming) (now : ℕ)
      → IsMetered limiter now incoming (reader_turn s limiter tx key tenant client incoming now)
  unfolding reader_turn
  reader_turn-IsMetered s limiter tx key tenant client (text_frame raw) now =
      limited-text s limiter tx now raw (accept_text tx key tenant client raw now)
  reader_turn-IsMetered s limiter tx key tenant client (binary_frame raw) now =
      limited-binary s limiter tx now raw (accept_binary tx key tenant client raw now)
  reader_turn-IsMetered s limiter tx key tenant client (ping_frame payload) now = inl (refl, refl)
  reader_turn-IsMetered s limiter tx key tenant client pong_frame now = inl (refl, refl)
  reader_turn-IsMetered s limiter tx key tenant client close_frame now = inl (refl, refl)
  reader_turn-IsMetered s limiter tx key tenant client ended now = inl (refl, refl)
  reader_turn-IsMetered s limiter tx key tenant client failed now = inl (refl, refl)
  reader_turn-IsMetered s limiter tx key tenant client timed_out now = inl (refl, refl)

  -- The reader's loop on what comes in, each at its instant, and how many messages it handles. It
  -- ends with the first turn that breaks or fails.
  unfoldable pub reader_loop :
      AppState ext
      → RateLimiter
      → ℕ
      → (topic_key tenant_id client_id : Text) → List (Incoming × ℕ)
      → Turn ext × ℕ
  reader_loop s limiter tx topic_key tenant_id client_id [] =
      (record { state = s; limiter = limiter; next = again }, 0)
  reader_loop s limiter tx topic_key tenant_id client_id ((incoming, now) ∷ rest) =
      let turn = reader_turn s limiter tx topic_key tenant_id client_id incoming now in
      elim turn.next [
        | again ↦
            let (last, n) =
              reader_loop turn.state turn.limiter tx topic_key tenant_id client_id rest in
            (last, handled incoming turn.next + n)
        | stop ↦ (turn, handled incoming turn.next)
        | failure ↦ (turn, handled incoming turn.next)
      ]

  turn_cost :
      (limiter : RateLimiter) (now : ℕ) (incoming : Incoming) (turn : Turn ext)
      → limiter.last_refill ≤ now
      → IsMetered limiter now incoming turn
      → let l = turn.limiter in
        (l.last_refill ≤ now)
        × (limiter.last_refill ≤ l.last_refill)
        × (l.refill_per_second ≡ limiter.refill_per_second)
        × (handled incoming turn.next * token + l.tokens
            ≤ limiter.tokens + (l.last_refill - limiter.last_refill) * limiter.refill_per_second)
  turn_cost limiter now incoming turn early (inl (same, none_handled)) =
      rw (same, none_handled) (early, omega arith, refl, omega arith)
  turn_cost limiter now incoming turn early (inr (asked, one)) =
      let (clock, rate) = allow-frame limiter now in
      rw (asked, one)
        (
          omega (arith, clock),
          omega (arith, clock),
          rate,
          rw clock (ground (arith, allow_cost limiter now)),
        )

  -- What the loop makes of a turn and of what follows it.
  reader_loop_next :
      (n : Next) (turn : Turn ext) (more : Turn ext × ℕ) (one : ℕ)
      → (elim n as (λ _. Turn ext × ℕ) [
        | again ↦ (more.0, one + more.1)
        | stop ↦ (turn, one)
        | failure ↦ (turn, one)
      ]).1
        ≤ one + more.1
  reader_loop_next again turn more one = omega arith
  reader_loop_next stop turn more one = omega arith
  reader_loop_next failure turn more one = omega arith

  reader_loop_cost :
      (s : AppState ext) (limiter : RateLimiter) (tx : ℕ) (key tenant client : Text) (start end : ℕ)
      (inputs : List (Incoming × ℕ))
      → limiter.last_refill ≤ start
      → Within start end (map (λ (p : Incoming × ℕ). p.1) inputs)
      → (reader_loop s limiter tx key tenant client inputs).1 * token
        ≤ limiter.tokens + (end - limiter.last_refill) * limiter.refill_per_second
  unfolding reader_loop
  reader_loop_cost s limiter tx key tenant client start end [] early w = omega arith
  reader_loop_cost s limiter tx key tenant client start end ((incoming, now) ∷ rest) early (h, w) =
      let turn = reader_turn s limiter tx key tenant client incoming now in
      let (a, b, rate, cost) =
        turn_cost limiter now incoming turn (omega arith)
          (reader_turn-IsMetered s limiter tx key tenant client incoming now) in
      let later = reader_loop_cost turn.state turn.limiter tx key tenant client now end rest a w in
      let split =
        flow_split limiter.last_refill turn.limiter.last_refill end limiter.refill_per_second b
          (omega (arith, Within-le now end _ w)) in
      let more = reader_loop turn.state turn.limiter tx key tenant client rest in
      let count = reader_loop_next turn.next turn more (handled incoming turn.next) in
      omega (arith, count, cost, split, (rw rate at later))

  -- Whatever comes in, and whenever, the loop of a new connection handles no more messages over a
  -- stretch of time than the configured burst and the configured rate times the stretch (both at
  -- least one).
  pub reader_loop_bound :
      (s : AppState ext) (tx : ℕ) (key tenant client : Text) (rate burst start end : ℕ)
      (inputs : List (Incoming × ℕ))
      → Within start end (map (λ (p : Incoming × ℕ). p.1) inputs)
      → (reader_loop s (RateLimiter.new rate burst start) tx key tenant client inputs).1 * token
        ≤ max burst 1 * token + (end - start) * max rate 1
  unfolding RateLimiter.new
  reader_loop_bound s tx key tenant client rate burst start end inputs w = omega (
    arith,
    reader_loop_cost s (RateLimiter.new rate burst start) tx key tenant client start end inputs
        (omega arith) w,
  )
