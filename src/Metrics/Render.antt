-- ===== src/Metrics/Render.antt =====
-- src/metrics.rs: `render_prometheus`.
use rust_ws_server.Base.{ℕ, List, [], ◌∷◌, ◌++◌, Text, text}
use rust_ws_server.Metrics.{Metrics}
use rust_ws_server.Metrics.Decimal.{to_string}

-- The lines of one metric.
pub record Family : Type 0 where
  pub name : Text
  pub help : Text
  pub kind : Text
  pub value : ℕ

abbrev pub gauge : Text
gauge = text "gauge"

abbrev pub counter : Text
counter = text "counter"

abbrev pub help_line : Family → Text
help_line f = text "# HELP " ++ (f.name ++ b' ' ∷ f.help)

abbrev pub type_line : Family → Text
type_line f = text "# TYPE " ++ (f.name ++ b' ' ∷ f.kind)

unfoldable pub sample_line : Family → Text
unfolding to_string
sample_line f = f.name ++ b' ' ∷ to_string f.value

unfoldable pub render : List Family → Text
unfolding sample_line
render [] = []
render (f ∷ fs) =
    help_line f ++ b'\n' ∷ (type_line f ++ b'\n' ∷ (sample_line f ++ b'\n' ∷ render fs))

abbrev family : Text → Text → Text → ℕ → Family
family name help kind value = record { name = name; help = help; kind = kind; value = value }

-- The metrics in the order in which they are shown.
unfoldable pub families : Metrics → List Family
families m =
    family (text "ws_active_connections") (text "Active websocket connections.") gauge
      m.active_connections
    ∷ family (text "ws_accepted_connections_total") (text "Accepted websocket connections.") counter
        m.accepted_connections
    ∷ family (text "ws_rejected_connections_total") (text "Rejected websocket connections.") counter
        m.rejected_connections
    ∷ family (text "ws_messages_in_total") (text "Inbound websocket messages.") counter
        m.messages_in
    ∷ family (text "ws_messages_out_total") (text "Outbound websocket messages.") counter
        m.messages_out
    ∷ family (text "ws_dropped_messages_total") (text "Dropped websocket messages.") counter
        m.dropped_messages
    ∷ family (text "ws_protocol_errors_total") (text "Invalid websocket protocol messages.") counter
        m.protocol_errors
    ∷ family (text "ws_auth_rejected_total") (text "Connections rejected due to JWT auth failure.")
        counter m.auth_rejected
    ∷ family (text "ws_ip_rejected_total") (text "Connections rejected by IP rate limiting.")
        counter m.ip_rejected
    ∷ family (text "ws_tenant_rejected_total")
        (text "Connections rejected by per-tenant connection cap.") counter m.tenant_rejected
    ∷ family (text "ws_tenant_rate_rejected_total")
        (text "Inbound messages dropped by per-tenant rate limit.") counter m.tenant_rate_rejected
    ∷ []

unfoldable pub render_prometheus : Metrics → Text
unfolding render families
render_prometheus m = render (families m)
