-- ===== src/Metrics.antt =====
-- src/metrics.rs: the counters, 64-bit words that wrap around as the atomic operations do.
pub mod Decimal
pub mod Render
pub mod Scrape
mod Tests
use rust_ws_server.Base.{ℕ, ◌+◌, ◌-◌, ◌%◌, ◌^◌}

pub record Metrics : Type 0 where
  pub active_connections : ℕ
  pub accepted_connections : ℕ
  pub rejected_connections : ℕ
  pub messages_in : ℕ
  pub messages_out : ℕ
  pub dropped_messages : ℕ
  pub protocol_errors : ℕ
  pub auth_rejected : ℕ
  pub ip_rejected : ℕ
  pub tenant_rejected : ℕ
  pub tenant_rate_rejected : ℕ

-- `fetch_add(1, Relaxed)`
abbrev pub fetch_add_1 : ℕ → ℕ
fetch_add_1 n = (n + 1) % 2 ^ 64

-- `fetch_sub(1, Relaxed)`
abbrev pub fetch_sub_1 : ℕ → ℕ
fetch_sub_1 n = (n + 2 ^ 64 - 1) % 2 ^ 64

-- `Metrics::default`
unfoldable pub default : Metrics
default = record {
  active_connections = 0;
  accepted_connections = 0;
  rejected_connections = 0;
  messages_in = 0;
  messages_out = 0;
  dropped_messages = 0;
  protocol_errors = 0;
  auth_rejected = 0;
  ip_rejected = 0;
  tenant_rejected = 0;
  tenant_rate_rejected = 0;
}

unfoldable pub connection_accepted : Metrics → Metrics
connection_accepted m = record m {
  accepted_connections = fetch_add_1 m.accepted_connections;
  active_connections = fetch_add_1 m.active_connections;
}

unfoldable pub connection_closed : Metrics → Metrics
connection_closed m = record m { active_connections = fetch_sub_1 m.active_connections }

unfoldable pub connection_rejected : Metrics → Metrics
connection_rejected m = record m { rejected_connections = fetch_add_1 m.rejected_connections }

unfoldable pub message_in : Metrics → Metrics
message_in m = record m { messages_in = fetch_add_1 m.messages_in }

unfoldable pub message_out : Metrics → Metrics
message_out m = record m { messages_out = fetch_add_1 m.messages_out }

unfoldable pub message_dropped : Metrics → Metrics
message_dropped m = record m { dropped_messages = fetch_add_1 m.dropped_messages }

unfoldable pub protocol_error : Metrics → Metrics
protocol_error m = record m { protocol_errors = fetch_add_1 m.protocol_errors }

unfoldable pub auth_rejected : Metrics → Metrics
auth_rejected m = record m { auth_rejected = fetch_add_1 m.auth_rejected }

unfoldable pub ip_rejected : Metrics → Metrics
ip_rejected m = record m { ip_rejected = fetch_add_1 m.ip_rejected }

unfoldable pub tenant_rejected : Metrics → Metrics
tenant_rejected m = record m { tenant_rejected = fetch_add_1 m.tenant_rejected }

unfoldable pub tenant_rate_rejected : Metrics → Metrics
tenant_rate_rejected m = record m { tenant_rate_rejected = fetch_add_1 m.tenant_rate_rejected }
