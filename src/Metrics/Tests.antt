-- ===== src/Metrics/Tests.antt =====
-- A server that has taken in a connection and a message.
use rust_ws_server.Base.{◌≡◌, arith}
use rust_ws_server.Metrics.{Metrics}
use rust_ws_server.Metrics.Render.{render_prometheus}
use rust_ws_server.Metrics.Scrape.{samples, shown, samples-render_prometheus}

abbrev seen : Metrics
seen = record {
  active_connections = 1;
  accepted_connections = 12;
  rejected_connections = 0;
  messages_in = 18446744073709551615;
  messages_out = 0;
  dropped_messages = 0;
  protocol_errors = 0;
  auth_rejected = 0;
  ip_rejected = 0;
  tenant_rejected = 0;
  tenant_rate_rejected = 305;
}

samples-render_prometheus_example : samples (render_prometheus seen) ≡ shown seen
unfolding shown
samples-render_prometheus_example = samples-render_prometheus seen (
  omega arith,
  (
    omega arith,
    (
      omega arith,
      (
        omega arith,
        (
          omega arith,
          (
            omega arith,
            (omega arith, (omega arith, (omega arith, (omega arith, (omega arith, tt))))),
          ),
        ),
      ),
    ),
  ),
)
