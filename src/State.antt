-- ===== src/State.antt =====
-- src/state.rs: the state that the connections share. The mpsc queues, which the program reaches
-- through senders, are kept here by number, so that a sender is a number.
pub mod Clients
pub mod Topics
pub mod Tenants
mod Tests
use rust_ws_server.Base.{
  ℕ, suc, ◌+◌, ◌*◌, ◌%◌, ◌^◌, max, Bool, true, false, List, [], Option, none, some, Result, ok, err,
  Text, Text-discrete, ℕ_discrete, ◌==◌, if◌then◌else◌,
}
use mathlib.Core.Option
use rust_ws_server.Auth
use rust_ws_server.Auth.{AuthVerifier}
use rust_ws_server.Base.Map.{Map, get, insert, remove}
use rust_ws_server.Bucket
use rust_ws_server.Bucket.{TokenBucket}
use rust_ws_server.Config.{Config}
use rust_ws_server.External.{External, Sent, delivered, full, closed}
use rust_ws_server.IpLimiter
use rust_ws_server.IpLimiter.{IpLimiter, or_default}
use rust_ws_server.Metrics
use rust_ws_server.Metrics.{Metrics}
use rust_ws_server.Protocol.{Bytes, OutboundMessage}

pub record ClientHandle : Type 0 where
  pub connection_id : ℕ
  pub sender : ℕ

-- (tenant_id, client_id)
abbrev pub ClientKey : Type 0
ClientKey = Text × Text

unfoldable pub ClientKey-discrete : Discrete ClientKey
unfolding Text-discrete
ClientKey-discrete = hlevel Text-discrete

module _ (ext : External) where
  pub record AppState : Type 0 where
    pub config : Config
    pub metrics : Metrics
    pub connection_limit : ext.semaphore.Semaphore
    pub auth : Option (AuthVerifier ext.jwt)
    pub ip_limiter : Option IpLimiter
    pub tenant_limits : Option (Map Text ext.semaphore.Semaphore)
    pub tenant_rate_limits : Option (Map Text TokenBucket)
    pub topics : Map Text ext.broadcast.Channel
    pub clients : Map ClientKey ClientHandle
    pub connection_counter : ℕ
    pub queues : Map ℕ ext.mpsc.Queue

  unfoldable pub new : Config → AppState
  new config = record {
    config = config;
    metrics = Metrics.default;
    connection_limit = ext.semaphore.new config.max_connections;
    auth = Auth.from_config ext.jwt config;
    ip_limiter = IpLimiter.from_config config;
    tenant_limits = Option.map (λ (_ : ℕ). []) config.tenant_max_connections;
    tenant_rate_limits = Option.map (λ (_ : ℕ). []) config.tenant_max_messages_per_second;
    topics = [];
    clients = [];
    connection_counter = 1;
    queues = [];
  }

  -- The tenant's semaphore, a new one if it has none.
  unfoldable pub tenant_semaphore :
      Map Text ext.semaphore.Semaphore → Text → ℕ → ext.semaphore.Semaphore
  tenant_semaphore limits tenant_id cap = elim (get Text-discrete tenant_id limits) [
    | some sem ↦ sem
    | none ↦ ext.semaphore.new cap
  ]

-- A missing burst is the rate, and at least one.
unfoldable pub tenant_bucket : Map Text TokenBucket → Text → ℕ → Option ℕ → ℕ → TokenBucket
tenant_bucket limits tenant_id rate burst now = elim (get Text-discrete tenant_id limits) [
  | some bucket ↦ bucket
  | none ↦ Bucket.new rate (or_default burst (max rate 1)) now
]

abbrev pub is_ok : Sent → Bool
is_ok delivered = true
is_ok full = false
is_ok closed = false

module _ {ext : External} where
  -- The counter is a 64-bit word that wraps around.
  unfoldable pub next_connection_id : AppState ext → AppState ext × ℕ
  next_connection_id s =
      (record s { connection_counter = (s.connection_counter + 1) % 2 ^ 64 }, s.connection_counter)

  abbrev pub set_tenant_limit :
      AppState ext
      → Map Text ext.semaphore.Semaphore
      → Text
      → ext.semaphore.Semaphore
      → AppState ext
  set_tenant_limit s limits tenant_id sem = record s {
    tenant_limits = some (insert Text-discrete tenant_id sem limits);
  }

  -- With the limits and the cap at hand. A permit is `tt`: whose semaphore it came from is known
  -- to its holder.
  unfoldable pub acquire_from :
      AppState ext
      → Map Text ext.semaphore.Semaphore
      → Text
      → ℕ
      → AppState ext × Result (Unit {0}) (Unit {0})
  acquire_from s limits tenant_id cap =
      let sem = tenant_semaphore ext limits tenant_id cap in
      elim (ext.semaphore.try_acquire_owned sem) [
        | some sem' ↦ (set_tenant_limit s limits tenant_id sem', ok tt)
        | none ↦ (set_tenant_limit s limits tenant_id sem, err tt)
      ]

  -- The two early returns, for limits or a cap that are not configured.
  unfoldable pub acquire_with :
      AppState ext
      → Option (Map Text ext.semaphore.Semaphore)
      → Option ℕ
      → Text
      → AppState ext × Option (Result (Unit {0}) (Unit {0}))
  acquire_with s none configured tenant_id = (s, none)
  acquire_with s (some limits) none tenant_id = (s, none)
  acquire_with s (some limits) (some max) tenant_id =
      let (s', r) = acquire_from s limits tenant_id max in (s', some r)

  unfoldable pub acquire_tenant_permit :
      AppState ext → Text → AppState ext × Option (Result (Unit {0}) (Unit {0}))
  unfolding acquire_with
  acquire_tenant_permit s tenant_id =
      acquire_with s s.tenant_limits s.config.tenant_max_connections tenant_id

  -- Dropping an `OwnedSemaphorePermit` of the tenant's semaphore, which is never taken off the map.
  unfoldable pub release_with :
      AppState ext → Option (Map Text ext.semaphore.Semaphore) → Text → AppState ext
  release_with s none tenant_id = s
  release_with s (some limits) tenant_id = elim (get Text-discrete tenant_id limits) [
    | some sem ↦ set_tenant_limit s limits tenant_id (ext.semaphore.release sem)
    | none ↦ s
  ]

  unfoldable pub release_tenant_permit : AppState ext → Text → AppState ext
  unfolding release_with
  release_tenant_permit s tenant_id = release_with s s.tenant_limits tenant_id

  unfoldable pub check_tenant_rate : AppState ext → Text → ℕ → AppState ext × Bool
  check_tenant_rate s tenant_id now = elim s.tenant_rate_limits [
    | none ↦ (s, true)
    | some limits ↦ elim s.config.tenant_max_messages_per_second [
      | none ↦ (s, true)
      | some rate ↦
          let (bucket, admitted) =
            Bucket.try_consume
              (tenant_bucket limits tenant_id rate s.config.tenant_message_burst now) now in
          (
            record s { tenant_rate_limits = some (insert Text-discrete tenant_id bucket limits) },
            admitted,
          )
    ]
  ]

  unfoldable pub register_client : AppState ext → Text → Text → ℕ → ℕ → AppState ext
  register_client s client_id tenant_id connection_id sender = record s {
    clients =
        insert ClientKey-discrete (tenant_id, client_id)
          (record { connection_id = connection_id; sender = sender }) s.clients;
  }

  -- The test of `unregister_client`, which reads the map and lets go of it.
  unfoldable pub is_registered : AppState ext → Text → Text → ℕ → Bool
  is_registered s client_id tenant_id connection_id =
      elim (get ClientKey-discrete (tenant_id, client_id) s.clients) [
        | some handle ↦ handle.connection_id == connection_id
        | none ↦ false
      ]

  -- And its removal, which takes whatever handle stands there by then.
  unfoldable pub remove_client : AppState ext → Text → Text → AppState ext
  remove_client s client_id tenant_id = record s {
    clients = remove ClientKey-discrete (tenant_id, client_id) s.clients;
  }

  unfoldable pub unregister_client : AppState ext → Text → Text → ℕ → AppState ext
  unfolding is_registered remove_client
  unregister_client s client_id tenant_id connection_id =
      if is_registered s client_id tenant_id connection_id
      then remove_client s client_id tenant_id
      else s

  -- `sender.try_send(message)`. A sender's queue is always there; without one nothing is sent.
  unfoldable pub try_send : AppState ext → ℕ → OutboundMessage → AppState ext × Sent
  try_send s sender message = elim (get ℕ_discrete sender s.queues) [
    | none ↦ (s, closed)
    | some queue ↦
        let (queue', sent) = ext.mpsc.try_send message queue in
        (record s { queues = insert ℕ_discrete sender queue' s.queues }, sent)
  ]

  unfoldable pub send_to_client : AppState ext → Text → Text → Bytes → AppState ext × Bool
  send_to_client s client_id tenant_id message =
      elim (get ClientKey-discrete (tenant_id, client_id) s.clients) [
        | some handle ↦
            let (s', sent) = try_send s handle.sender (OutboundMessage.binary message) in
            (s', is_ok sent)
        | none ↦ (s, false)
      ]

  -- The channel of the topic, a new one if it has none.
  unfoldable pub topic_sender : AppState ext → Text → ext.broadcast.Channel
  topic_sender s topic_key = elim (get Text-discrete topic_key s.topics) [
    | some channel ↦ channel
    | none ↦ ext.broadcast.channel s.config.topic_channel_capacity
  ]

  abbrev pub set_topic : AppState ext → Text → ext.broadcast.Channel → AppState ext
  set_topic s topic_key channel = record s {
    topics = insert Text-discrete topic_key channel s.topics;
  }

  unfoldable pub publish : AppState ext → Text → Bytes → AppState ext × ℕ
  publish s topic_key message =
      let (channel, reached) = ext.broadcast.send message (topic_sender s topic_key) in
      (set_topic s topic_key channel, or_default reached 0)

  unfoldable pub subscribe : AppState ext → Text → AppState ext
  subscribe s topic_key = set_topic s topic_key (ext.broadcast.subscribe (topic_sender s topic_key))
