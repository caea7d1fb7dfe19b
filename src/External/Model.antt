-- ===== src/External/Model.antt =====
-- Plain values of the interfaces, which show that what they ask for can hold.
use rust_ws_server.Config.{Config}
use rust_ws_server.Base.{
  ◌*◌, ℕ, zero, suc, ◌+◌, ◌<◌, ◌≡◌, ◌≢◌, ◌⊎◌, refl, true, false, List, [], ◌∷◌, ◌++◌, Option, none,
  some, Text, Bool, length, ltb, lt→ltb, if◌then◌else◌, arith, ◌==◌,
}
use rust_ws_server.External.Tokens.{plain_jwt}
use rust_ws_server.Net.{IpAddr, v4}
use rust_ws_server.Protocol.{Bytes, ClientEvent, ServerEvent, OutboundMessage}
use rust_ws_server.External.{
  Received, pending, oldest, SemaphoreApi, Sent, delivered, full, closed, MpscApi, BroadcastApi,
  CodecApi, External,
}

abbrev take_one : ℕ → Option ℕ
take_one zero = none
take_one (suc n) = some n

pub take_one-none : (n : ℕ) → n ≡ 0 → take_one n ≡ none
take_one-none zero h = refl
take_one-none (suc n) h = absurd (omega arith)

pub take_one-some : (n : ℕ) → 0 < n → (m : ℕ) × (take_one n ≡ some m) × (m + 1 ≡ n)
take_one-some zero h = elim h [ ]
take_one-some (suc n) h = (n, refl, omega arith)

abbrev pub counting : SemaphoreApi
counting = record {
  Semaphore = ℕ;
  new = λ n. n;
  try_acquire_owned = take_one;
  release = suc;
  available = λ n. n;
  available-new = λ n. refl;
  try_acquire_owned-none = take_one-none;
  try_acquire_owned-some = take_one-some;
  available-release = λ n. omega arith;
}

pub record Bounded : Type 0 where
  pub room : ℕ
  pub items : List OutboundMessage
  pub gone : Bool

abbrev push : OutboundMessage → Bounded → Bounded × Sent
push m q =
    if q.gone
    then (q, closed)
    else if ltb (length q.items) q.room
    then (record q { items = q.items ++ m ∷ [] }, delivered)
    else (q, full)

pub push_lem :
    (m : OutboundMessage) (q : Bounded)
    → (((push m q).1 ≡ delivered) × ((push m q).0.items ≡ q.items ++ m ∷ []))
      ⊎ (((push m q).1 ≢ delivered) × ((push m q).0.items ≡ q.items))
push_lem m q = ground arith

pub push_room :
    (m : OutboundMessage) (q : Bounded)
    → q.gone ≡ false
    → length q.items < q.room
    → (push m q).1 ≡ delivered
push_room m q live h = rw (live, lt→ltb (length q.items) q.room h)

pub push-room : (m : OutboundMessage) (q : Bounded) → (push m q).0.room ≡ q.room
push-room m q = ground arith

pub push-gone : (m : OutboundMessage) (q : Bounded) → (push m q).0.gone ≡ q.gone
push-gone m q = ground arith

pub push_gone : (m : OutboundMessage) (q : Bounded) → q.gone ≡ true → (push m q).1 ≡ closed
push_gone m q e = rw e

abbrev pull_from : ℕ → Bool → List OutboundMessage → Received Bounded
pull_from room gone [] = pending
pull_from room gone (m ∷ ms) = oldest m (record { room = room; items = ms; gone = gone })

pub pull_lem :
    (q q' : Bounded) (m : OutboundMessage)
    → pull_from q.room q.gone q.items ≡ oldest m q'
    → q.items ≡ m ∷ q'.items
pull_lem q q' m e = ground arith

abbrev pub bounded : MpscApi
bounded = record {
  Queue = Bounded;
  channel = λ n. record { room = n; items = []; gone = false };
  close = λ q. record q { gone = true };
  try_send = push;
  recv = λ q. pull_from q.room q.gone q.items;
  queued = λ q. q.items;
  capacity = λ q. q.room;
  is_closed = λ q. q.gone;
  queued-channel = λ n. refl;
  capacity-channel = λ n. refl;
  is_closed-channel = λ n. refl;
  try_send_lem = push_lem;
  recv-oldest = pull_lem;
  capacity-try_send = push-room;
  is_closed-try_send = push-gone;
  try_send_room = push_room;
  try_send-closed = push_gone;
  is_closed-close = λ q. refl;
}

abbrev pub reached : ℕ → Option ℕ
reached zero = none
reached (suc n) = some (suc n)

pub reached-none : (n : ℕ) → n ≡ 0 → reached n ≡ none
reached-none zero h = refl
reached-none (suc n) h = absurd (omega arith)

pub reached-some : (n : ℕ) → 0 < n → reached n ≡ some n
reached-some zero h = elim h [ ]
reached-some (suc n) h = refl

abbrev pub leave : ℕ → ℕ
leave zero = zero
leave (suc n) = n

pub leave_lem : (n : ℕ) → 0 < n → leave n + 1 ≡ n
leave_lem zero h = elim h [ ]
leave_lem (suc n) h = omega arith

-- A channel as the number of its receivers.
abbrev pub fanout : BroadcastApi
fanout = record {
  Channel = ℕ;
  channel = λ n. 0;
  subscribe = suc;
  unsubscribe = leave;
  send = λ b c. (c, reached c);
  receivers = λ c. c;
  receivers-channel = λ n. refl;
  receivers-subscribe = λ c. omega arith;
  receivers-unsubscribe = leave_lem;
  receivers-send = λ b c. refl;
  send-none = λ b c. reached-none c;
  send-some = λ b c. reached-some c;
}

-- The first character tells the events apart; the rest is the topic or the addressee.
abbrev read : Text → Option (ClientEvent (Unit {0}))
read [] = none
read (c ∷ s) =
    if c == b'p'
    then some (ClientEvent.publish (some s) none tt)
    else if c == b'd'
    then some (ClientEvent.direct s none tt)
    else if c == b'?'
    then some (ClientEvent.ping none none)
    else none

abbrev tag : ServerEvent (Unit {0}) → Bytes
tag (ServerEvent.ready topic client) = b'r' ∷ topic
tag (ServerEvent.message topic from r p) = b'm' ∷ topic
tag (ServerEvent.direct_message from to r p) = b'd' ∷ to
tag (ServerEvent.pong r p) = b'!' ∷ []
tag (ServerEvent.error code message) = b'e' ∷ code

abbrev pub tagged_codec : CodecApi
tagged_codec = record {
  Value = Unit {0};
  from_str = read;
  from_slice = read;
  to_vec_named = λ e. some (tag e);
}

-- An address by the first character of its text.
abbrev pub first_octet : Text → Option IpAddr
first_octet [] = none
first_octet (c ∷ s) = some (v4 c)

abbrev pub plain : External
plain = record {
  semaphore = counting;
  mpsc = bounded;
  broadcast = fanout;
  jwt = plain_jwt;
  codec = tagged_codec;
  parse_ip = first_octet;
}

-- Settings with a cap on the connections of a tenant, and no authentication.
abbrev pub sample : Config
sample = record {
  bind_addr = record { ip = v4 0; port = 8080 };
  max_connections = 100;
  client_queue_capacity = 16;
  topic_channel_capacity = 32;
  max_text_bytes = 64 * 1024;
  max_messages_per_second = 100;
  message_burst = 200;
  idle_timeout = 60 * 1_000_000_000;
  heartbeat_interval = 20 * 1_000_000_000;
  json_logs = false;
  jwt_secret = none;
  jwt_public_key = none;
  jwt_issuer = none;
  ip_max_concurrent = some 5;
  ip_connection_rate = none;
  ip_rate_burst = none;
  trust_proxy_headers = true;
  tenant_max_connections = some 2;
  tenant_max_messages_per_second = none;
  tenant_message_burst = none;
}
