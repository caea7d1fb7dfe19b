-- ===== src/External/Receiver.antt =====
-- The receiving end of `tokio::sync::broadcast`. A receiver is its place, the number of messages of
-- the channel that lie before it.
use rust_ws_server.Base.{ℕ, ◌+◌, ◌<◌, ◌≤◌, ◌≡◌, List, [], ◌∷◌, ◌++◌, length}
use rust_ws_server.External.{BroadcastApi}
use rust_ws_server.Protocol.{Bytes}

-- What `recv` comes to: nothing yet, the message at the place, or that so many were overwritten
-- before they were read. A channel is not closed while the program's map keeps its sender.
pub data Polled : Type 0 where
  nothing_new : Polled
  value : Bytes → Polled
  skipped : ℕ → Polled

pub record ReceiverApi (api : BroadcastApi) : Type 1 where
  -- Every message that was sent while there was a receiver, the first of them first.
  pub sent : api.Channel → List Bytes
  pub recv : api.Channel → ℕ → Polled
  pub sent-subscribe : (c : api.Channel) → sent (api.subscribe c) ≡ sent c
  pub sent-unsubscribe : (c : api.Channel) → sent (api.unsubscribe c) ≡ sent c
  pub sent-send :
      (b : Bytes) (c : api.Channel) → 0 < api.receivers c → sent (api.send b c).0 ≡ sent c ++ b ∷ []
  pub recv-nothing_new : (c : api.Channel) (p : ℕ) → recv c p ≡ nothing_new → length (sent c) ≤ p
  pub recv-value :
      (c : api.Channel) (p : ℕ) (m : Bytes)
      → recv c p ≡ value m
      → (before : List Bytes) × (after : List Bytes) × (sent c ≡ before ++ m ∷ after)
        × (length before ≡ p)
  pub recv-skipped : (c : api.Channel) (p n : ℕ) → recv c p ≡ skipped n → p + n ≤ length (sent c)
