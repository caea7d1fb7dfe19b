-- ===== src/Server/Registry.antt =====
-- Along every history the registrations are those of running connections.
pub mod Names
pub mod Running
pub mod Ids
mod Tests
use rust_ws_server.Base.{
  ℕ, ◌+◌, ◌%◌, ◌^◌, ◌≡◌, ◌⊎◌, inl, inr, refl, ◌∙◌, true, List, [], ◌∷◌, ◌++◌, Text, arith,
}
use rust_ws_server.Auth.{AuthIdentity}
use rust_ws_server.Base.Map.{insert}
use rust_ws_server.Connection.{open_connection}
use rust_ws_server.External.{External}
use rust_ws_server.Metrics
use rust_ws_server.Protocol.{OutboundMessage}
use rust_ws_server.Messages.Effects.{Effects, nothing, sent, counted, announced, rated}
use rust_ws_server.State
use rust_ws_server.State.{
  AppState, ClientHandle, ClientKey, ClientKey-discrete, try_send, check_tenant_rate, subscribe,
  next_connection_id, register_client,
}
use rust_ws_server.Server.{running, Connection}
use rust_ws_server.Server.Calls.{send_ready-Effects}

-- The connection runs under the name and the id, with its tasks started.
abbrev pub IsRunning : Connection → Text → Text → ℕ → Type 0
IsRunning c client tenant id =
    (c.identity.client_id ≡ client) × (c.identity.tenant_id ≡ tenant) × (c.phase ≡ running id true)

-- One of the connections does.
pub data Runs (client tenant : Text) (id : ℕ) : List Connection → Type 0 where
  this :
      {c : Connection} {cs : List Connection}
      → IsRunning c client tenant id
      → Runs client tenant id (c ∷ cs)
  other :
      {c : Connection} {cs : List Connection}
      → Runs client tenant id cs
      → Runs client tenant id (c ∷ cs)

module _ {client tenant : Text} {id : ℕ} where
  pub Runs-middle :
      (before : List Connection) (c : Connection) (after : List Connection)
      → Runs client tenant id (before ++ c ∷ after)
      → IsRunning c client tenant id ⊎ Runs client tenant id (before ++ after)
  Runs-middle [] c after (this h) = inl h
  Runs-middle [] c after (other r) = inr r
  Runs-middle (b ∷ before) c after (this h) = inr (this h)
  Runs-middle (b ∷ before) c after (other r) = elim (Runs-middle before c after r) [
    | inl h ↦ inl h
    | inr rest ↦ inr (other rest)
  ]

  pub Runs-middle_self :
      (before : List Connection) (c : Connection) (after : List Connection)
      → IsRunning c client tenant id
      → Runs client tenant id (before ++ c ∷ after)
  Runs-middle_self [] c after h = this h
  Runs-middle_self (b ∷ before) c after h = other (Runs-middle_self before c after h)

  pub Runs-middle_rest :
      (before : List Connection) (c : Connection) (after : List Connection)
      → Runs client tenant id (before ++ after)
      → Runs client tenant id (before ++ c ∷ after)
  Runs-middle_rest [] c after r = other r
  Runs-middle_rest (b ∷ before) c after (this h) = this h
  Runs-middle_rest (b ∷ before) c after (other r) = other (Runs-middle_rest before c after r)

module _ {ext : External} where
  clients-try_send :
      (s : AppState ext) (tx : ℕ) (m : OutboundMessage)
      → let s' = (try_send s tx m).0 in
        (s'.clients ≡ s.clients) × (s'.connection_counter ≡ s.connection_counter)
  unfolding try_send
  clients-try_send s tx m = (ground arith, ground arith)

  clients-check_tenant_rate :
      (s : AppState ext) (tenant : Text) (now : ℕ)
      → let s' = (check_tenant_rate s tenant now).0 in
        (s'.clients ≡ s.clients) × (s'.connection_counter ≡ s.connection_counter)
  unfolding check_tenant_rate
  clients-check_tenant_rate s tenant now = (ground arith, ground arith)

  -- Handling messages touches no registration.
  pub clients-Effects :
      {s t : AppState ext}
      → Effects s t
      → (t.clients ≡ s.clients) × (t.connection_counter ≡ s.connection_counter)
  unfolding State.publish
  clients-Effects nothing = (refl, refl)
  clients-Effects (sent {t} h tx m) =
      let (e, e') = clients-try_send t tx m in let (f, f') = clients-Effects h in (e ∙ f, e' ∙ f')
  clients-Effects (counted h m e) = clients-Effects h
  clients-Effects (announced h key m) = clients-Effects h
  clients-Effects (rated {t} h tenant now _) =
      let (e, e') = clients-check_tenant_rate t tenant now in
      let (f, f') = clients-Effects h in (e ∙ f, e' ∙ f')

  -- A connection that begins is registered under its name with the next id.
  pub clients-open_connection :
      (s : AppState ext) (tx : ℕ) (raw : Text) (identity : AuthIdentity)
      → let (s', id, started) = open_connection s tx raw identity in
        (s'.clients
          ≡ insert ClientKey-discrete
              (identity.tenant_id, identity.client_id)
              (record { connection_id = s.connection_counter; sender = tx })
              s.clients)
        × (s'.connection_counter ≡ (s.connection_counter + 1) % 2 ^ 64)
        × (id ≡ s.connection_counter)
  unfolding open_connection subscribe next_connection_id register_client Metrics.connection_accepted
  clients-open_connection s tx raw identity =
      let (e, e') = clients-Effects (send_ready-Effects _ tx _) in (e, e', refl)
