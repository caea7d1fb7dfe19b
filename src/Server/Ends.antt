-- ===== src/Server/Ends.antt =====
-- What the end of a connection, or of an upgrade that fails, keeps.
use rust_ws_server.Base.{ℕ, ◌≡◌, ◌∙◌, ap, Bool, Option, Text, arith}
use rust_ws_server.Auth.{AuthIdentity}
use rust_ws_server.Connection.{drop_tenant_permit, drop_permits, leave, close_connection}
use rust_ws_server.External.{External}
use rust_ws_server.Handshake.{drop_ip_permit, drop_permit}
use rust_ws_server.IpLimiter.{IpPermit}
use rust_ws_server.Metrics
use rust_ws_server.Metrics.{fetch_sub_1}
use rust_ws_server.State.{
  AppState, release_tenant_permit, release_with, unregister_client, remove_client,
}
use rust_ws_server.Server.Handshakes.{cap_of, Kept, Kept-trans, drop_ip_permit-Kept}

module _ {ext : External} where
  drop_tenant_permit-Kept :
      (s : AppState ext) (tenant : Text) (has : Bool) → Kept s (drop_tenant_permit s tenant has)
  unfolding drop_tenant_permit release_tenant_permit release_with
  drop_tenant_permit-Kept s tenant has = record {
    settings = ground arith;
    cap = ground arith;
    active = ground arith;
    clients = ground arith;
    counter = ground arith;
    buckets = ground arith;
    topics = ground arith;
    queues = ground arith;
  }

  pub drop_permits-Kept :
      (s : AppState ext) (tenant : Text) (p : Option IpPermit) (has : Bool) (now : ℕ)
      → Kept s (drop_permits s tenant p has now)
  unfolding drop_permits drop_permit
  drop_permits-Kept s tenant p has now =
      let s' = drop_tenant_permit s tenant has in
      let k =
        Kept-trans s s' (drop_ip_permit s' p now) (drop_tenant_permit-Kept s tenant has)
          (drop_ip_permit-Kept s' p now) in
      record {
        settings = k.settings;
        cap = k.cap;
        active = k.active;
        clients = k.clients;
        counter = k.counter;
        buckets = k.buckets;
        topics = k.topics;
        queues = k.queues;
      }

  leave-keeps :
      (s : AppState ext) (id : AuthIdentity) (connection : ℕ) (started : Bool)
      → let s' = leave s id connection started in
        (s'.config ≡ s.config)
        × (cap_of s'.ip_limiter ≡ cap_of s.ip_limiter)
        × (s'.metrics.active_connections ≡ s.metrics.active_connections)
        × (s'.connection_counter ≡ s.connection_counter)
        × (s'.tenant_rate_limits ≡ s.tenant_rate_limits)
  unfolding leave unregister_client remove_client
  leave-keeps s id connection started =
      (ground arith, ground arith, ground arith, ground arith, ground arith)

  -- The settings and the cap of the IP limiter stay, and one connection less is active.
  pub close_connection-keeps :
      (s : AppState ext) (id : AuthIdentity) (connection : ℕ) (started : Bool) (p : Option IpPermit)
      (has : Bool) (now : ℕ)
      → let s' = close_connection s id connection started p has now in
        (s'.config ≡ s.config)
        × (cap_of s'.ip_limiter ≡ cap_of s.ip_limiter)
        × (s'.metrics.active_connections ≡ fetch_sub_1 s.metrics.active_connections)
  unfolding close_connection Metrics.connection_closed
  close_connection-keeps s id connection started p has now =
      let left = leave s id connection started in
      let closed : AppState ext = record left {
        metrics = Metrics.connection_closed left.metrics;
      } in
      let (settings, cap, active, _, _) = leave-keeps s id connection started in
      let d = drop_permits-Kept closed id.tenant_id p has now in
      (d.settings ∙ settings, d.cap ∙ cap, d.active ∙ ap fetch_sub_1 active)

  -- The registrations are those that `leave` leaves, and the counter stays.
  pub close_connection-clients :
      (s : AppState ext) (id : AuthIdentity) (connection : ℕ) (started : Bool) (p : Option IpPermit)
      (has : Bool) (now : ℕ)
      → let s' = close_connection s id connection started p has now in
        (s'.clients ≡ (leave s id connection started).clients)
        × (s'.connection_counter ≡ s.connection_counter)
  unfolding close_connection
  close_connection-clients s id connection started p has now =
      let left = leave s id connection started in
      let closed : AppState ext = record left {
        metrics = Metrics.connection_closed left.metrics;
      } in
      let d = drop_permits-Kept closed id.tenant_id p has now in
      let (_, _, _, counter, _) = leave-keeps s id connection started in
      (d.clients, d.counter ∙ counter)

  -- The settings and the buckets of the tenants stay.
  pub close_connection-buckets :
      (s : AppState ext) (id : AuthIdentity) (connection : ℕ) (started : Bool) (p : Option IpPermit)
      (has : Bool) (now : ℕ)
      → let s' = close_connection s id connection started p has now in
        (s'.config ≡ s.config) × (s'.tenant_rate_limits ≡ s.tenant_rate_limits)
  unfolding close_connection
  close_connection-buckets s id connection started p has now =
      let left = leave s id connection started in
      let closed : AppState ext = record left {
        metrics = Metrics.connection_closed left.metrics;
      } in
      let d = drop_permits-Kept closed id.tenant_id p has now in
      let (settings, _, _, _, buckets) = leave-keeps s id connection started in
      (d.settings ∙ settings, d.buckets ∙ buckets)
