-- ===== src/Connection.antt =====
-- src/server.rs, `handle_socket` and `connection_loop`: how a connection begins and how it ends.
-- The queue of the connection is the number `tx`, under which no other queue stands.
pub mod Closing
pub mod Tasks
mod Tests
use rust_ws_server.Base.{ℕ, ℕ_discrete, Bool, true, false, Option, none, some, Text, if◌then◌else◌}
use rust_ws_server.Auth.{AuthIdentity}
use rust_ws_server.Base.Map.{insert}
use rust_ws_server.External.{External}
use rust_ws_server.Handshake.{drop_ip_permit, drop_permit}
use rust_ws_server.IpLimiter.{IpPermit}
use rust_ws_server.Messages.{send_encoded}
use rust_ws_server.Metrics
use rust_ws_server.Protocol
use rust_ws_server.Protocol.{Bytes, ServerEvent}
use rust_ws_server.State.{
  AppState, subscribe, next_connection_id, register_client, unregister_client,
  release_tenant_permit,
}
use rust_ws_server.Topic.{normalize_topic, tenant_topic, extract_topic}

module _ {ext : External} where
  -- `mpsc::channel`
  abbrev pub add_queue : AppState ext → ℕ → AppState ext
  add_queue s tx = record s {
    queues = insert ℕ_discrete tx (ext.mpsc.channel s.config.client_queue_capacity) s.queues;
  }

  -- By the outcome of encoding the `Ready` event, with an error the loop is over at once.
  unfoldable pub send_ready : AppState ext → ℕ → Option Bytes → AppState ext × Bool
  send_ready s tx (some encoded) = ((send_encoded s tx encoded).0, true)
  send_ready s tx none = (s, false)

  -- From the acceptance to the registration: the state and the connection's id. From then on others
  -- can send to the connection.
  abbrev pub begin_connection :
      AppState ext → ℕ → (topic_key : Text) → AuthIdentity → AppState ext × ℕ
  begin_connection s tx topic_key identity =
      let accepted : AppState ext = record s { metrics = Metrics.connection_accepted s.metrics } in
      let (numbered, id) = next_connection_id (subscribe (add_queue accepted tx) topic_key) in
      (register_client numbered identity.client_id identity.tenant_id id tx, id)

  -- And on to the `Ready` event, if nothing comes in between: the state, the connection's id, and
  -- whether the tasks are started.
  unfoldable pub open_connection :
      AppState ext → ℕ → (raw_topic : Text) → AuthIdentity → AppState ext × ℕ × Bool
  unfolding send_ready
  open_connection s tx raw_topic identity =
      let topic_key = tenant_topic identity.tenant_id (normalize_topic raw_topic) in
      let (registered, id) = begin_connection s tx topic_key identity in
      let (s', started) =
        send_ready registered tx (
          ext.codec.to_vec_named
            (ServerEvent.ready (extract_topic topic_key) identity.client_id)) in
      (s', id, started)

  -- The permit of the tenant's cap, if there is one.
  unfoldable pub drop_tenant_permit : AppState ext → Text → Bool → AppState ext
  drop_tenant_permit s tenant_id true = release_tenant_permit s tenant_id
  drop_tenant_permit s tenant_id false = s

  -- The permits that `handle_socket` is given, the last one dropped first.
  unfoldable pub drop_permits :
      AppState ext → Text → Option IpPermit → (has_tenant_permit : Bool) → (now : ℕ) → AppState ext
  unfolding drop_tenant_permit
  drop_permits s tenant_id ip_permit has_tenant_permit now =
      drop_permit (drop_ip_permit (drop_tenant_permit s tenant_id has_tenant_permit) ip_permit now)

  -- `connection_loop` unregisters the client after its tasks; with an error of the encoding it has
  -- returned before them.
  unfoldable pub leave :
      AppState ext → AuthIdentity → (connection_id : ℕ) → (started : Bool) → AppState ext
  leave s identity connection_id true =
      unregister_client s identity.client_id identity.tenant_id connection_id
  leave s identity connection_id false = s

  -- The end of `handle_socket`: the registration, the metrics and the permits.
  unfoldable pub close_connection :
      AppState ext
      → AuthIdentity
      → (connection_id : ℕ) → (started : Bool) → Option IpPermit
      → (has_tenant_permit : Bool) → (now : ℕ) → AppState ext
  unfolding leave drop_permits
  close_connection s identity connection_id started ip_permit has_tenant_permit now =
      let left = leave s identity connection_id started in
      let closed : AppState ext = record left {
        metrics = Metrics.connection_closed left.metrics;
      } in
      drop_permits closed identity.tenant_id ip_permit has_tenant_permit now
