-- ===== src/State/Tests.antt =====
-- The shared state of sample settings: two clients under one name in two tenants.
use rust_ws_server.Base.{
  ℕ, ◌<◌, ◌≤◌, ◌≡◌, ◌≢◌, ite, refl, true, false, [], ◌∷◌, ◌++◌, none, some, ok, err, text,
  Text-discrete, if◌then◌else◌, ◌==◌, arith, count,
}
use rust_ws_server.Base.Map.{get, insert}
use rust_ws_server.External.Model.{plain, sample}
use rust_ws_server.Protocol.{OutboundMessage}
use rust_ws_server.State.{
  try_send, AppState, ClientHandle, ClientKey-discrete, new, acquire_tenant_permit, register_client,
  is_registered, remove_client, unregister_client, send_to_client, publish, subscribe,
}
use rust_ws_server.State.Clients.{
  handle_of, queued_at, Answered, handle_of-unregister_client, remove_client_race,
  send_to_client-Answered,
}
use rust_ws_server.State.Topics.{publish_crosses_tenants}
use rust_ws_server.State.Tenants.{Holds, new-Holds, acquire_tenant_permit-Holds}
use rust_ws_server.Topic.{tenant_topic}

abbrev start : AppState plain
start = new plain sample

abbrev ann_handle : ClientHandle
ann_handle = record { connection_id = 7; sender = 1 }

-- "ann" of "acme" is connection 7, whose queue is number 1.
abbrev online : AppState plain
online = record (register_client start (text "ann") (text "acme") 7 1) {
  queues = (1, plain.mpsc.channel 4) ∷ [];
}

handle_of_ann : handle_of online (text "ann") (text "acme") ≡ some ann_handle
unfolding register_client insert get ClientKey-discrete new
handle_of_ann = refl

sent_to_ann : (send_to_client online (text "ann") (text "acme") (b'x' ∷ [])).1 ≡ true
unfolding send_to_client register_client insert get ClientKey-discrete try_send new
sent_to_ann = refl

not_sent_across : (send_to_client online (text "ann") (text "other") (b'x' ∷ [])).1 ≡ false
unfolding send_to_client register_client insert get ClientKey-discrete new
not_sent_across = refl

handle_of-unregister_client_example :
    handle_of (unregister_client online (text "ann") (text "acme") 6) (text "ann") (text "acme")
    ≡ ite
        (ClientKey-discrete (text "acme", text "ann") (text "acme", text "ann"))
        (if 7 == 6 then none else some ann_handle)
        (some ann_handle)
handle_of-unregister_client_example =
    handle_of-unregister_client online (text "ann") (text "acme") 6 (text "ann") (text "acme")
      ann_handle handle_of_ann

registered_ann : is_registered online (text "ann") (text "acme") 7 ≡ true
unfolding is_registered register_client insert get ClientKey-discrete new
registered_ann = refl

eight_ne_seven : ◌≢◌ {A = ℕ} 8 7
eight_ne_seven = omega arith

remove_client_race_example :
    (send_to_client
      (remove_client
        (register_client online (text "ann") (text "acme") 8 2)
        (text "ann")
        (text "acme"))
      (text "ann")
      (text "acme")
      (b'x' ∷ [])).1
    ≡ false
remove_client_race_example =
    remove_client_race online (text "ann") (text "acme") 7 8 2 (b'x' ∷ []) registered_ann
      eight_ne_seven

send_to_client-Answered_example :
    let (s', r) = send_to_client online (text "ann") (text "acme") (b'x' ∷ []) in
    Answered online 1 (OutboundMessage.binary (b'x' ∷ [])) (s', r)
    × ((q : ℕ) → q ≢ 1 → queued_at s' q ≡ queued_at online q)
send_to_client-Answered_example =
    send_to_client-Answered online (text "ann") (text "acme") (b'x' ∷ []) ann_handle handle_of_ann

publish_crosses_tenants_example :
    0
    < (publish
        (subscribe start (tenant_topic (text "a") (text "b" ++ b':' ∷ text "c")))
        (tenant_topic (text "a" ++ b':' ∷ text "b") (text "c"))
        (b'x' ∷ [])).1
publish_crosses_tenants_example =
    publish_crosses_tenants start (text "a") (text "b") (text "c") (b'x' ∷ [])

start-Holds : Holds start 2 []
start-Holds = new-Holds sample 2 refl

acquire_tenant_permit-Holds_example :
    let (s', r) = acquire_tenant_permit start (text "acme") in
    (count Text-discrete (text "acme") [] < 2 → (r ≡ some (ok tt)) × Holds s' 2 (text "acme" ∷ []))
    × (2 ≤ count Text-discrete (text "acme") [] → (r ≡ some (err tt)) × Holds s' 2 [])
acquire_tenant_permit-Holds_example =
    acquire_tenant_permit-Holds start 2 [] (text "acme") start-Holds

none_held : count Text-discrete (text "acme") [] < 2
unfolding count
none_held = omega arith

one_held : Holds (acquire_tenant_permit start (text "acme")).0 2 (text "acme" ∷ [])
one_held = ((acquire_tenant_permit-Holds start 2 [] (text "acme") start-Holds).0 none_held).1
