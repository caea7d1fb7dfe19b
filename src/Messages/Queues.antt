-- ===== src/Messages/Queues.antt =====
-- Handling messages only adds to the end of a queue.
use rust_ws_server.Base.{
  ℕ, ℕ_discrete, ◌≡◌, refl, sym, ◌∙◌, ap, List, [], ◌∷◌, ◌++◌, Text, inl, inr, arith,
}
use mathlib.Core.List.{append-nil, append_assoc}
use rust_ws_server.External.{External}
use rust_ws_server.Protocol.{OutboundMessage}
use rust_ws_server.State
use rust_ws_server.State.{AppState, try_send, check_tenant_rate, is_ok}
use rust_ws_server.State.Clients.{queued_at, waiting, try_send-Answered, queued_at-try_send_ne}
use rust_ws_server.Messages.Effects.{Effects, nothing, sent, counted, announced, rated}

module _ {ext : External} where
  -- The queue keeps what waits in it, and more may stand behind.
  abbrev pub Extends : ℕ → AppState ext → AppState ext → Type 0
  Extends q s t = (more : List OutboundMessage) × (queued_at t q ≡ queued_at s q ++ more)

  pub Extends-of_eq : (q : ℕ) (s t : AppState ext) → queued_at t q ≡ queued_at s q → Extends q s t
  Extends-of_eq q s t e = ([], e ∙ sym (append-nil (queued_at s q)))

  pub Extends-trans : (q : ℕ) (s t u : AppState ext) → Extends q s t → Extends q t u → Extends q s u
  Extends-trans q s t u (more, e) (more', e') =
      (more ++ more', e' ∙ ap (λ l. l ++ more') e ∙ append_assoc (queued_at s q) more more')

  pub try_send-Extends :
      (s : AppState ext) (tx : ℕ) (m : OutboundMessage) (q : ℕ) → Extends q s (try_send s tx m).0
  try_send-Extends s tx m q = elim (ℕ_discrete q tx) [
    | yes same ↦ rw same (elim (try_send-Answered s tx m) [
      | inl (_, joined) ↦ (m ∷ [], joined)
      | inr (_, kept) ↦ Extends-of_eq tx s (try_send s tx m).0 kept
    ])
    | no ne ↦ Extends-of_eq q s (try_send s tx m).0 (queued_at-try_send_ne s tx q m ne)
  ]

  pub queues-check_tenant_rate :
      (s : AppState ext) (tenant : Text) (now : ℕ)
      → (check_tenant_rate s tenant now).0.queues ≡ s.queues
  unfolding check_tenant_rate
  queues-check_tenant_rate s tenant now = ground arith

  pub Effects-Extends : {s t : AppState ext} → Effects s t → (q : ℕ) → Extends q s t
  unfolding State.publish
  Effects-Extends {s} nothing q = Extends-of_eq q s s refl
  Effects-Extends {s} (sent {t} h tx m) q =
      Extends-trans q s t (try_send t tx m).0 (Effects-Extends h q) (try_send-Extends t tx m q)
  Effects-Extends (counted h m e) q = Effects-Extends h q
  Effects-Extends (announced h key m) q = Effects-Extends h q
  Effects-Extends {s} (rated {t} h tenant now _) q =
      let t' = (check_tenant_rate t tenant now).0 in
      Extends-trans q s t t' (Effects-Extends h q) (
        Extends-of_eq q t t'
          (ap (λ queues. waiting ext queues q) (queues-check_tenant_rate t tenant now)))
