-- ===== src/Server/Registry/Names.antt =====
-- No registration outlives its connection.
use rust_ws_server.Base.{
  ℕ, ◌≡◌, ◌≢◌, inl, inr, refl, sym, ◌∙◌, ap, subst, Bool, true, false, List, ◌∷◌, ◌++◌, Option,
  none, some, Text, arith, if_pos, if_neg, Option-cases,
}
use rust_ws_server.Auth.{AuthIdentity}
use rust_ws_server.Base.Map.{get, get-insert, get-remove_self, get-remove_ne}
use rust_ws_server.Config.{Config}
use rust_ws_server.Connection.{send_ready, open_connection, drop_permits, leave}
use rust_ws_server.External.{External}
use rust_ws_server.Protocol.{ServerEvent, Bytes}
use rust_ws_server.State
use rust_ws_server.State.{
  AppState, ClientHandle, ClientKey, ClientKey-discrete, unregister_client, is_registered,
  remove_client,
}
use rust_ws_server.State.Clients.{handle_of, handle_of-unregister_client}
use rust_ws_server.Server.{
  upgrading, running, Connection, System, Step, refused, accepted, abandoned, opened, served, ended,
  Reach, here, next,
}
use rust_ws_server.Server.Calls.{Serves-Effects}
use rust_ws_server.Server.Ends.{drop_permits-Kept, close_connection-clients}
use rust_ws_server.Server.Handshakes.{ws_handler-Kept}
use rust_ws_server.Server.Limits.{fresh}
use rust_ws_server.Server.Registry.{
  IsRunning, Runs, other, Runs-middle, Runs-middle_self, Runs-middle_rest, clients-Effects,
  clients-open_connection,
}

-- The `Ready` event can be encoded, whatever texts it holds.
abbrev pub Encodes : External → Type 0
Encodes ext =
    (topic client : Text)
    → (m : Bytes) × (ext.codec.to_vec_named (ServerEvent.ready topic client) ≡ some m)

running_eq :
    (id : ℕ) (started : Bool) (id' : ℕ)
    → id ≡ id'
    → started ≡ true
    → running id started ≡ running id' true
running_eq id started id' e e' = cc (e, e')

module _ {ext : External} where
  -- Every registration is that of a connection that runs, under its name and with its id.
  abbrev pub IsOwned : System ext → Type 0
  IsOwned s =
      (client tenant : Text) (h : ClientHandle)
      → handle_of s.state client tenant ≡ some h
      → Runs client tenant h.connection_id s.connections

  send_ready-starts :
      (s : AppState ext) (tx : ℕ) (o : Option Bytes) (m : Bytes)
      → o ≡ some m
      → (send_ready s tx o).1 ≡ true
  unfolding send_ready
  send_ready-starts s tx o m e = rw (e, send_ready) refl

  open_connection-starts :
      (s : AppState ext) (tx : ℕ) (raw : Text) (identity : AuthIdentity)
      → Encodes ext
      → (open_connection s tx raw identity).2 ≡ true
  unfolding open_connection
  open_connection-starts s tx raw identity encodes =
      send_ready-starts _ tx _ (encodes _ identity.client_id).0 (encodes _ identity.client_id).1

  handle_of-unregister_none :
      (s : AppState ext) (client tenant : Text) (id : ℕ) (c t : Text)
      → handle_of s c t ≡ none
      → handle_of (unregister_client s client tenant id) c t ≡ none
  unfolding unregister_client is_registered remove_client
  handle_of-unregister_none s client tenant id c t e = ground (
    arith,
    get-remove_self ClientKey-discrete (t, c) s.clients,
    get-remove_ne ClientKey-discrete (t, c) (tenant, client) s.clients,
  )

  -- A registration that is left after the end of a connection was there, and is not its own.
  handle_of-leave :
      (s : AppState ext) (identity : AuthIdentity) (id : ℕ) (client tenant : Text)
      (h : ClientHandle)
      → handle_of (leave s identity id true) client tenant ≡ some h
      → (handle_of s client tenant ≡ some h)
        × (identity.client_id ≡ client → identity.tenant_id ≡ tenant → h.connection_id ≢ id)
  unfolding leave
  handle_of-leave s identity id client tenant h e =
      elim (Option-cases (handle_of s client tenant)) [
        | inl gone ↦ absurd (
            cc (
              e,
              handle_of-unregister_none s identity.client_id identity.tenant_id id client tenant
                  gone,
            ))
        | inr (h', there) ↦
            let left =
              handle_of-unregister_client s identity.client_id identity.tenant_id id client tenant
                h' there in
            (ground (arith, left), λ same same' own. ground (arith, left))
      ]

  same_clients :
      (s s' : AppState ext) (client tenant : Text) (h : ClientHandle)
      → s'.clients ≡ s.clients
      → handle_of s' client tenant ≡ some h
      → handle_of s client tenant ≡ some h
  same_clients s s' client tenant h e found =
      ap (get ClientKey-discrete (tenant, client)) (sym e) ∙ found

  -- The connection that is taken out does not run under the name with the id, so another does.
  elsewhere :
      (s : System ext) (before : List Connection) (c : Connection) (after : List Connection)
      (client tenant : Text) (id : ℕ)
      → s.connections ≡ before ++ c ∷ after
      → (IsRunning c client tenant id → ⊥)
      → Runs client tenant id s.connections
      → Runs client tenant id (before ++ after)
  elsewhere s before c after client tenant id at not_own r =
      elim (Runs-middle before c after (subst (Runs client tenant id) at r)) [
        | inl own ↦ absurd (not_own own)
        | inr rest ↦ rest
      ]

  opened-IsOwned :
      (s : System ext) (before : List Connection) (c : Connection) (after : List Connection)
      (topic : Text) (tx : ℕ) (s' : AppState ext) (id : ℕ) (started : Bool)
      → Encodes ext
      → s.connections ≡ before ++ c ∷ after
      → c.phase ≡ upgrading topic
      → open_connection s.state tx topic c.identity ≡ (s', id, started)
      → IsOwned s
      → IsOwned (record {
        state = s';
        connections = before ++ record c { phase = running id started } ∷ after;
      })
  opened-IsOwned s before c after topic tx s' id started encodes at phase e o client tenant h
        found =
      let name : ClientKey = (c.identity.tenant_id, c.identity.client_id) in
      let own : ClientHandle = record { connection_id = s.state.connection_counter; sender = tx } in
      let (clients, _, next_id) = clients-open_connection s.state tx topic c.identity in
      let held =
        sym (get-insert ClientKey-discrete (tenant, client) name own s.state.clients)
        ∙ ap (get ClientKey-discrete (tenant, client)) (sym clients ∙ ap (λ r. r.0.clients) e)
        ∙ found in
      elim (ClientKey-discrete name (tenant, client)) [
        | yes same ↦
            let is_own : own ≡ h = cc (rw (if_pos _ same) at held) in
            let started_up =
              ap (λ r. r.2) (sym e) ∙ open_connection-starts s.state tx topic c.identity encodes in
            Runs-middle_self before (record c { phase = running id started }) after
              (
                ap (λ n. n.1) same,
                ap (λ n. n.0) same,
                running_eq id started h.connection_id
                    (ap (λ r. r.1) (sym e) ∙ next_id ∙ ap (λ k. k.connection_id) is_own) started_up,
              )
        | no differ ↦
            Runs-middle_rest before (record c { phase = running id started }) after
              (elsewhere s before c after client tenant h.connection_id at (λ r. cc (phase, r.2))
                (o client tenant h (rw (if_neg _ differ) at held)))
      ]

  ended-IsOwned :
      (s : System ext) (before : List Connection) (c : Connection) (after : List Connection)
      (id : ℕ) (started : Bool) (client tenant : Text) (h : ClientHandle)
      → s.connections ≡ before ++ c ∷ after
      → c.phase ≡ running id started
      → IsOwned s
      → handle_of (leave s.state c.identity id started) client tenant ≡ some h
      → Runs client tenant h.connection_id (before ++ after)
  unfolding leave
  ended-IsOwned s before c after id true client tenant h at phase o found =
      let (there, other_id) = handle_of-leave s.state c.identity id client tenant h found in
      elsewhere s before c after client tenant h.connection_id at
        (λ r. other_id r.0 r.1 (cc (phase, r.2))) (o client tenant h there)
  ended-IsOwned s before c after id false client tenant h at phase o found =
      elsewhere s before c after client tenant h.connection_id at (λ r. cc (phase, r.2))
        (o client tenant h found)

  Step-IsOwned : {s t : System ext} → Encodes ext → Step s t → IsOwned s → IsOwned t
  Step-IsOwned {s} encodes (refused peer headers query now s' status message e) o client tenant h
        found =
      o client tenant h (
        same_clients s.state s' client tenant h
          (ap (λ r. r.0.clients) (sym e) ∙ (ws_handler-Kept s.state peer headers query now).clients)
          found)
  Step-IsOwned {s} encodes (accepted peer headers query now s' topic id p has e) o client tenant h
        found =
      other (
        o client tenant h (
          same_clients s.state s' client tenant h
            (ap (λ r. r.0.clients) (sym e)
              ∙ (ws_handler-Kept s.state peer headers query now).clients)
            found))
  Step-IsOwned {s} encodes (abandoned before c after topic now at phase) o client tenant h found =
      let dropped = drop_permits s.state c.identity.tenant_id c.ip_permit c.has_tenant_permit now in
      let k = drop_permits-Kept s.state c.identity.tenant_id c.ip_permit c.has_tenant_permit now in
      elsewhere s before c after client tenant h.connection_id at (λ r. cc (phase, r.2))
        (o client tenant h (same_clients s.state dropped client tenant h k.clients found))
  Step-IsOwned {s} encodes (opened before c after topic tx s' id started at phase free e) o client
        tenant h found =
      opened-IsOwned s before c after topic tx s' id started encodes at phase e o client tenant h
        found
  Step-IsOwned {s} encodes (served s' v) o client tenant h found =
      o client tenant h
        (same_clients s.state s' client tenant h (clients-Effects (Serves-Effects v)).0 found)
  Step-IsOwned {s} encodes (ended before c after id now started at phase) o client tenant h found =
      let (clients, _) =
        close_connection-clients s.state c.identity id started c.ip_permit c.has_tenant_permit
          now in
      ended-IsOwned s before c after id started client tenant h at phase o
        (ap (get ClientKey-discrete (tenant, client)) (sym clients) ∙ found)

  pub Reach-IsOwned : {s t : System ext} → Encodes ext → Reach s t → IsOwned s → IsOwned t
  Reach-IsOwned encodes here o = o
  Reach-IsOwned encodes (next r st) o = Step-IsOwned encodes st (Reach-IsOwned encodes r o)

-- Along every history of a server that can encode the `Ready` event, every registration is that of
-- a connection that runs, under its name and with its id: none is left behind.
pub Reach-registered :
    (ext : External) (config : Config) (s : System ext) (client tenant : Text) (h : ClientHandle)
    → Encodes ext
    → Reach (fresh ext config) s
    → handle_of s.state client tenant ≡ some h
    → Runs client tenant h.connection_id s.connections
unfolding State.new get
Reach-registered ext config s client tenant h encodes r found =
    Reach-IsOwned encodes r (λ c t k e. absurd (cc e)) client tenant h found
