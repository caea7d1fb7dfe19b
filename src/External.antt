-- ===== src/External.antt =====
-- The crates that the program calls, as interfaces: what it uses of each, and the documented
-- behaviour that the theorems rely on.
pub mod Receiver
pub mod Log
pub mod Model
pub mod Tokens
use rust_ws_server.Base.{
  ℕ, ◌+◌, ◌<◌, ◌≡◌, ◌≢◌, ◌⊎◌, Bool, true, false, List, [], ◌∷◌, ◌++◌, Option, none, some, Result,
  Text, length, ok, ℤ, pos, negsuc, ◌≤◌,
}
use rust_ws_server.Net.{IpAddr}
use rust_ws_server.Protocol.{Bytes, ClientEvent, ServerEvent, OutboundMessage}

-- `tokio::sync::Semaphore`. A permit is held by whoever took it and goes back by `release`, which
-- is what dropping it does.
pub record SemaphoreApi : Type 1 where
  pub Semaphore : Type 0
  pub new : ℕ → Semaphore
  pub try_acquire_owned : Semaphore → Option Semaphore
  pub release : Semaphore → Semaphore
  pub available : Semaphore → ℕ
  pub available-new : (n : ℕ) → available (new n) ≡ n
  pub try_acquire_owned-none : (s : Semaphore) → available s ≡ 0 → try_acquire_owned s ≡ none
  pub try_acquire_owned-some :
      (s : Semaphore)
      → 0 < available s
      → (s' : Semaphore) × (try_acquire_owned s ≡ some s') × (available s' + 1 ≡ available s)
  pub available-release : (s : Semaphore) → available (release s) ≡ available s + 1

pub data Sent : Type 0 where
  delivered full closed : Sent

-- What `recv` comes to: nothing yet; the end, with every sender gone and nothing queued; or the
-- oldest message, and the queue without it.
pub data Received (Queue : Type 0) : Type 0 where
  pending finished : Received Queue
  oldest : OutboundMessage → Queue → Received Queue

-- `tokio::sync::mpsc`, a bounded queue of outbound messages.
pub record MpscApi : Type 1 where
  pub Queue : Type 0
  pub channel : ℕ → Queue
  pub try_send : OutboundMessage → Queue → Queue × Sent
  pub recv : Queue → Received Queue
  -- The receiver is dropped.
  pub close : Queue → Queue
  pub queued : Queue → List OutboundMessage
  pub capacity : Queue → ℕ
  pub is_closed : Queue → Bool
  pub queued-channel : (n : ℕ) → queued (channel n) ≡ []
  pub capacity-channel : (n : ℕ) → capacity (channel n) ≡ n
  pub is_closed-channel : (n : ℕ) → is_closed (channel n) ≡ false
  pub try_send_lem :
      (m : OutboundMessage) (q : Queue)
      → (((try_send m q).1 ≡ delivered) × (queued (try_send m q).0 ≡ queued q ++ m ∷ []))
        ⊎ (((try_send m q).1 ≢ delivered) × (queued (try_send m q).0 ≡ queued q))
  pub is_closed-close : (q : Queue) → is_closed (close q) ≡ true
  pub try_send-closed :
      (m : OutboundMessage) (q : Queue) → is_closed q ≡ true → (try_send m q).1 ≡ closed
  pub recv-oldest :
      (q q' : Queue) (m : OutboundMessage) → recv q ≡ oldest m q' → queued q ≡ m ∷ queued q'
  pub capacity-try_send : (m : OutboundMessage) (q : Queue) → capacity (try_send m q).0 ≡ capacity q
  pub is_closed-try_send :
      (m : OutboundMessage) (q : Queue) → is_closed (try_send m q).0 ≡ is_closed q
  pub try_send_room :
      (m : OutboundMessage) (q : Queue)
      → is_closed q ≡ false
      → length (queued q) < capacity q
      → (try_send m q).1 ≡ delivered

-- `tokio::sync::broadcast`. The channel begins with no receiver, since the program drops the one
-- that `channel` returns.
pub record BroadcastApi : Type 1 where
  pub Channel : Type 0
  pub channel : ℕ → Channel
  pub subscribe : Channel → Channel
  -- A receiver is dropped.
  pub unsubscribe : Channel → Channel
  pub send : Bytes → Channel → Channel × Option ℕ
  pub receivers : Channel → ℕ
  pub receivers-channel : (n : ℕ) → receivers (channel n) ≡ 0
  pub receivers-subscribe : (c : Channel) → receivers (subscribe c) ≡ receivers c + 1
  pub receivers-unsubscribe :
      (c : Channel) → 0 < receivers c → receivers (unsubscribe c) + 1 ≡ receivers c
  pub receivers-send : (b : Bytes) (c : Channel) → receivers (send b c).0 ≡ receivers c
  pub send-none : (b : Bytes) (c : Channel) → receivers c ≡ 0 → (send b c).1 ≡ none
  pub send-some : (b : Bytes) (c : Channel) → 0 < receivers c → (send b c).1 ≡ some (receivers c)

pub data Algorithm : Type 0 where
  hs256 rs256 ed_dsa : Algorithm

pub data ErrorKind : Type 0 where
  expired_signature invalid_issuer other : ErrorKind

-- The claims that the program asks `jsonwebtoken` to decode; `exp` counts seconds.
pub record Claims : Type 0 where
  pub sub : Text
  pub tenant_id : Option Text
  pub exp : ℤ
  pub iss : Option Text

-- Not yet expired at `now`.
abbrev pub IsLive : ℤ → ℕ → Type 0
IsLive (pos exp) now = now ≤ exp
IsLive (negsuc n) now = now < 0

-- `jsonwebtoken`. The clock that `decode` reads, in seconds, is part of it. A token that was encoded
-- with a secret decodes with it while it is live, if no issuer is asked for or its own is.
pub record JwtApi : Type 1 where
  pub DecodingKey : Type 0
  pub Validation : Type 0
  pub from_secret : Text → DecodingKey
  pub from_rsa_pem : Text → Option DecodingKey
  pub from_ec_pem : Text → Option DecodingKey
  pub from_ed_pem : Text → Option DecodingKey
  pub new : Algorithm → Validation
  pub set_issuer : Text → Validation → Validation
  pub set_validate_exp : Bool → Validation → Validation
  pub decode : Text → DecodingKey → Validation → Result Claims ErrorKind
  pub EncodingKey : Type 0
  pub encoding_secret : Text → EncodingKey
  pub encode : Algorithm → Claims → EncodingKey → Option Text
  pub clock : ℕ
  pub decode-encode :
      (claims : Claims) (secret token : Text)
      → encode hs256 claims (encoding_secret secret) ≡ some token
      → IsLive claims.exp clock
      → decode token (from_secret secret) (set_validate_exp true (new hs256)) ≡ ok claims
  pub decode-encode_issuer :
      (claims : Claims) (secret token issuer : Text)
      → encode hs256 claims (encoding_secret secret) ≡ some token
      → IsLive claims.exp clock
      → claims.iss ≡ some issuer
      → decode token (from_secret secret) (set_validate_exp true (set_issuer issuer (new hs256)))
        ≡ ok claims

-- `serde_json` and `rmp_serde` at the types of the protocol.
pub record CodecApi : Type 1 where
  pub Value : Type 0
  pub from_str : Text → Option (ClientEvent Value)
  pub from_slice : Bytes → Option (ClientEvent Value)
  pub to_vec_named : ServerEvent Value → Option Bytes

pub record External : Type 1 where
  pub semaphore : SemaphoreApi
  pub mpsc : MpscApi
  pub broadcast : BroadcastApi
  pub jwt : JwtApi
  pub codec : CodecApi
  -- `str::parse::<IpAddr>`
  pub parse_ip : Text → Option IpAddr
