-- ===== src/Config.antt =====
-- src/config.rs: the settings. Durations are nanoseconds.
use rust_ws_server.Base.{ℕ, Bool, Option, Text}
use rust_ws_server.Net.{SocketAddr}

pub record Config : Type 0 where
  pub bind_addr : SocketAddr
  pub max_connections : ℕ
  pub client_queue_capacity : ℕ
  pub topic_channel_capacity : ℕ
  pub max_text_bytes : ℕ
  pub max_messages_per_second : ℕ
  pub message_burst : ℕ
  pub idle_timeout : ℕ
  pub heartbeat_interval : ℕ
  pub json_logs : Bool
  pub jwt_secret : Option Text
  pub jwt_public_key : Option Text
  pub jwt_issuer : Option Text
  pub ip_max_concurrent : Option ℕ
  pub ip_connection_rate : Option ℕ
  pub ip_rate_burst : Option ℕ
  pub trust_proxy_headers : Bool
  pub tenant_max_connections : Option ℕ
  pub tenant_max_messages_per_second : Option ℕ
  pub tenant_message_burst : Option ℕ
