-- ===== src/Server/Registry/Ids.antt =====
-- The ids of running connections differ, so that the end of one does not take another for itself.
use rust_ws_server.Base.{
  ℕ, ℕ_discrete, ◌+◌, ◌^◌, ◌<◌, ◌≤◌, ◌≡◌, ◌≢◌, ◌⊎◌, inl, inr, ==_iff, refl, sym, ◌∙◌, ap, subst,
  Bool, false, List, ◌∷◌, ◌++◌, some, Text, arith, count,
}
use rust_ws_server.Auth.{AuthIdentity}
use rust_ws_server.Base.Map.{get, get-remove_ne}
use rust_ws_server.Config.{Config}
use rust_ws_server.Connection.{open_connection}
use rust_ws_server.External.{External}
use rust_ws_server.State
use rust_ws_server.State.{AppState, ClientHandle, ClientKey-discrete, is_registered, remove_client}
use rust_ws_server.State.Clients.{handle_of}
use rust_ws_server.Server.{
  running, Connection, System, Step, refused, accepted, abandoned, opened, served, ended, Reach,
  here, next,
}
use rust_ws_server.Server.Calls.{Serves-Effects}
use rust_ws_server.Server.Ends.{drop_permits-Kept, close_connection-clients}
use rust_ws_server.Server.Handshakes.{ws_handler-Kept}
use rust_ws_server.Server.Limits.{fresh}
use rust_ws_server.Server.Registry.{Runs, clients-Effects, clients-open_connection}
use rust_ws_server.Server.Registry.Running.{
  id_of, running_under, running_under_middle, count_self, count_ne, Runs-running_under,
  one_more_once,
}

module _ {ext : External} where
  -- How many connections begin in a step, and along a history.
  abbrev openings_of : {s t : System ext} → Step s t → ℕ
  openings_of (opened before c after topic tx s' id started at phase free e) = 1
  openings_of _ = 0

  abbrev pub openings : {s t : System ext} → Reach s t → ℕ
  openings here = 0
  openings (next r st) = openings r + openings_of st

  -- After `n` connections have begun: the next id, and no id is taken twice.
  record IsNumbered (n : ℕ) (s : System ext) : Type 0 where
    counter : s.state.connection_counter ≡ n + 1
    once : (i : ℕ) → running_under i s.connections ≤ 1
    fresh_above : (i : ℕ) → n < i → running_under i s.connections ≡ 0

  -- No connection begins.
  keeps-IsNumbered :
      (n : ℕ) (s t : System ext)
      → t.state.connection_counter ≡ s.state.connection_counter
      → ((i : ℕ) → running_under i t.connections ≤ running_under i s.connections)
      → IsNumbered n s
      → IsNumbered (n + 0) t
  keeps-IsNumbered n s t e fewer h = record {
    counter = omega (arith, e, h.counter);
    once = λ i. omega (arith, fewer i, h.once i);
    fresh_above = λ i above. omega (arith, fewer i, h.fresh_above i (omega arith));
  }

  removed_fewer :
      (s : System ext) (before : List Connection) (c : Connection) (after : List Connection) (i : ℕ)
      → s.connections ≡ before ++ c ∷ after
      → running_under i (before ++ after) ≤ running_under i s.connections
  removed_fewer s before c after i at =
      omega (arith, ap (running_under i) at, running_under_middle i before c after)

  opened-IsNumbered :
      (n : ℕ) (s : System ext) (before : List Connection) (c : Connection) (after : List Connection)
      (topic : Text) (tx : ℕ) (s' : AppState ext) (id : ℕ) (started : Bool)
      → n + 2 < 2 ^ 64
      → s.connections ≡ before ++ c ∷ after
      → open_connection s.state tx topic c.identity ≡ (s', id, started)
      → IsNumbered n s
      → IsNumbered (n + 1) (record {
        state = s';
        connections = before ++ record c { phase = running id started } ∷ after;
      })
  opened-IsNumbered n s before c after topic tx s' id started small at e h =
      let c' : Connection = record c { phase = running id started } in
      let (_, counter, next_id) = clients-open_connection s.state tx topic c.identity in
      let own : id ≡ n + 1 = ap (λ r. r.1) (sym e) ∙ next_id ∙ h.counter in
      let rest_of = λ (i : ℕ). removed_fewer s before c after i at in
      record {
        counter = omega (arith, ap (λ r. r.0.connection_counter) e, counter, h.counter);
        once = λ i.
            one_more_once n i id (running_under i (before ++ after)) own (rest_of i) (h.once i)
              (h.fresh_above i) (running_under_middle i before c' after);
        fresh_above = λ i above. omega (
          arith,
          running_under_middle i before c' after,
          rest_of i,
          h.fresh_above i (omega arith),
          count_ne i id (λ same. absurd (omega arith)),
        );
      }

  Step-IsNumbered :
      {s t : System ext} (st : Step s t) (n : ℕ)
      → n + openings_of st + 1 < 2 ^ 64
      → IsNumbered n s
      → IsNumbered (n + openings_of st) t
  Step-IsNumbered {s} (refused peer headers query now s' status message e) n small h =
      keeps-IsNumbered n s _
        (ap (λ r. r.0.connection_counter) (sym e)
          ∙ (ws_handler-Kept s.state peer headers query now).counter)
        (λ i. omega arith) h
  Step-IsNumbered {s} (accepted peer headers query now s' topic id p has e) n small h =
      keeps-IsNumbered n s _
        (ap (λ r. r.0.connection_counter) (sym e)
          ∙ (ws_handler-Kept s.state peer headers query now).counter)
        (λ i. omega arith) h
  Step-IsNumbered {s} (abandoned before c after topic now at phase) n small h =
      keeps-IsNumbered n s _
        (drop_permits-Kept s.state c.identity.tenant_id c.ip_permit c.has_tenant_permit now).counter
        (λ i. removed_fewer s before c after i at) h
  Step-IsNumbered {s} (opened before c after topic tx s' id started at phase free e) n small h =
      opened-IsNumbered n s before c after topic tx s' id started (omega arith) at e h
  Step-IsNumbered {s} (served s' v) n small h =
      keeps-IsNumbered n s _ (clients-Effects (Serves-Effects v)).1 (λ i. omega arith) h
  Step-IsNumbered {s} (ended before c after id now started at phase) n small h =
      keeps-IsNumbered n s _
        (close_connection-clients s.state c.identity id started c.ip_permit c.has_tenant_permit
          now).1
        (λ i. removed_fewer s before c after i at) h

  Reach-IsNumbered :
      {s t : System ext} (r : Reach s t) (n : ℕ)
      → n + openings r + 1 < 2 ^ 64
      → IsNumbered n s
      → IsNumbered (n + openings r) t
  Reach-IsNumbered {s} here n small h = subst (λ k. IsNumbered k s) (omega arith) h
  Reach-IsNumbered {t} (next r st) n small h =
      subst (λ k. IsNumbered k t) (omega arith)
        (Step-IsNumbered st (n + openings r) (omega arith) (Reach-IsNumbered r n (omega arith) h))

  -- A connection under another id: its end does not find itself registered under a name that is
  -- another's, and its removal concerns no other name.
  end_spares :
      (s : AppState ext) (own : AuthIdentity) (id : ℕ) (client tenant : Text) (h : ClientHandle)
      → h.connection_id ≢ id
      → handle_of s client tenant ≡ some h
      → (is_registered s own.client_id own.tenant_id id ≡ false)
        ⊎ ((s' : AppState ext)
            → handle_of (remove_client s' own.client_id own.tenant_id) client tenant
              ≡ handle_of s' client tenant)
  unfolding is_registered remove_client
  end_spares s own id client tenant h differ found =
      elim (ClientKey-discrete (tenant, client) (own.tenant_id, own.client_id)) [
        | yes same ↦ inl (
            rw (subst (λ k. get ClientKey-discrete k s.clients ≡ some h) same found, is_registered)
              (ground (arith, ==_iff h.connection_id id)))
        | no apart ↦ inr (λ s'. get-remove_ne ClientKey-discrete _ _ s'.clients apart)
      ]

fresh-IsNumbered : (ext : External) (config : Config) → IsNumbered 0 (fresh ext config)
unfolding State.new count
fresh-IsNumbered ext config = record {
  counter = omega arith;
  once = λ i. omega arith;
  fresh_above = λ i above. refl;
}

-- Along every history in which fewer than 2⁶⁴ - 1 connections began, two that run have different
-- ids. When the end of one tests whether it is registered while the other is under some name, either
-- the answer is no, and it removes nothing, or its removal leaves that name alone, in whatever state
-- it then comes.
pub Reach-others_stay :
    (ext : External) (config : Config) (s : System ext) (r : Reach (fresh ext config) s)
    (before : List Connection) (c : Connection) (after : List Connection) (id : ℕ) (started : Bool)
    (client tenant : Text) (h : ClientHandle)
    → openings r + 1 < 2 ^ 64
    → s.connections ≡ before ++ c ∷ after
    → c.phase ≡ running id started
    → Runs client tenant h.connection_id (before ++ after)
    → handle_of s.state client tenant ≡ some h
    → (h.connection_id ≢ id)
      × ((is_registered s.state c.identity.client_id c.identity.tenant_id id ≡ false)
          ⊎ ((s' : AppState ext)
              → handle_of (remove_client s' c.identity.client_id c.identity.tenant_id) client tenant
                ≡ handle_of s' client tenant))
Reach-others_stay ext config s r before c after id started client tenant h small at phase runs
      found =
    let numbered = Reach-IsNumbered r 0 (omega arith) (fresh-IsNumbered ext config) in
    let differ : h.connection_id ≢ id = λ same. absurd (
      omega (
        arith,
        numbered.once id,
        ap (running_under id) at,
        running_under_middle id before c after,
        ap (λ p. count ℕ_discrete id (id_of p)) phase,
        count_self id,
        ap (λ i. running_under i (before ++ after)) same,
        Runs-running_under (before ++ after) runs,
      )) in
    (differ, end_spares s.state c.identity id client tenant h differ found)
