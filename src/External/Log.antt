-- ===== src/External/Log.antt =====
-- A broadcast channel that keeps what was sent, of which a receiver finds the newest: a value of
-- the interfaces.
use rust_ws_server.Base.{
  ℕ, zero, suc, ◌+◌, ◌-◌, ◌<◌, ◌≤◌, ◌≡◌, ◌≢◌, refl, ap, List, [], ◌∷◌, ◌++◌, length, ltb, ltb→lt,
  if◌then◌else◌, Bool-cases, inl, inr, arith,
}
use rust_ws_server.External.{BroadcastApi, External}
use rust_ws_server.External.Model.{plain, leave, leave_lem, reached, reached-none, reached-some}
use rust_ws_server.External.Receiver.{Polled, nothing_new, value, skipped, ReceiverApi}
use rust_ws_server.Protocol.{Bytes}

pub record Log : Type 0 where
  pub room : ℕ
  pub count : ℕ
  pub items : List Bytes

abbrev add : Bytes → ℕ → List Bytes → List Bytes
add b zero items = items
add b (suc n) items = items ++ b ∷ []

pub add_lem : (b : Bytes) (n : ℕ) (items : List Bytes) → 0 < n → add b n items ≡ items ++ b ∷ []
add_lem b zero items h = elim h [ ]
add_lem b (suc n) items h = refl

abbrev pub logging : BroadcastApi
logging = record {
  Channel = Log;
  channel = λ n. record { room = n; count = 0; items = [] };
  subscribe = λ c. record c { count = suc c.count };
  unsubscribe = λ c. record c { count = leave c.count };
  send = λ b c. (record c { items = add b c.count c.items }, reached c.count);
  receivers = λ c. c.count;
  receivers-channel = λ n. refl;
  receivers-subscribe = λ c. omega arith;
  receivers-unsubscribe = λ c. leave_lem c.count;
  receivers-send = λ b c. refl;
  send-none = λ b c. reached-none c.count;
  send-some = λ b c. reached-some c.count;
}

-- The list from a place on.
abbrev ahead_of : ℕ → List Bytes → Polled
ahead_of p [] = nothing_new
ahead_of zero (m ∷ ms) = value m
ahead_of (suc p) (m ∷ ms) = ahead_of p ms

abbrev poll : Log → ℕ → Polled
poll c p =
    if ltb (p + c.room) (length c.items)
    then skipped (length c.items - (p + c.room))
    else ahead_of p c.items

ahead_of-nothing_new : (p : ℕ) (ms : List Bytes) → ahead_of p ms ≡ nothing_new → length ms ≤ p
ahead_of-nothing_new p [] e = omega arith
ahead_of-nothing_new zero (m ∷ ms) e = absurd cc
ahead_of-nothing_new (suc p) (m ∷ ms) e = omega (arith, ahead_of-nothing_new p ms e)

ahead_of-value :
    (p : ℕ) (ms : List Bytes) (m : Bytes)
    → ahead_of p ms ≡ value m
    → (before : List Bytes) × (after : List Bytes) × (ms ≡ before ++ m ∷ after)
      × (length before ≡ p)
ahead_of-value p [] m e = absurd cc
ahead_of-value zero (x ∷ ms) m e = ([], ms, ap (λ y. y ∷ ms) cc, refl)
ahead_of-value (suc p) (x ∷ ms) m e =
    let (before, after, split, n) = ahead_of-value p ms m e in
    (x ∷ before, after, ap (λ l. x ∷ l) split, omega (arith, n))

ahead_of-skipped : (p n : ℕ) (ms : List Bytes) → ahead_of p ms ≢ skipped n
ahead_of-skipped p n [] e = absurd cc
ahead_of-skipped zero n (m ∷ ms) e = absurd cc
ahead_of-skipped (suc p) n (m ∷ ms) e = ahead_of-skipped p n ms e

pub poll-nothing_new : (c : Log) (p : ℕ) → poll c p ≡ nothing_new → length c.items ≤ p
poll-nothing_new c p e = elim (Bool-cases (ltb (p + c.room) (length c.items))) [
  | inl b ↦ absurd cc
  | inr b ↦ ahead_of-nothing_new p c.items (rw b at e)
]

pub poll-value :
    (c : Log) (p : ℕ) (m : Bytes)
    → poll c p ≡ value m
    → (before : List Bytes) × (after : List Bytes) × (c.items ≡ before ++ m ∷ after)
      × (length before ≡ p)
poll-value c p m e = elim (Bool-cases (ltb (p + c.room) (length c.items))) [
  | inl b ↦ absurd cc
  | inr b ↦ ahead_of-value p c.items m (rw b at e)
]

pub poll-skipped : (c : Log) (p n : ℕ) → poll c p ≡ skipped n → p + n ≤ length c.items
poll-skipped c p n e = elim (Bool-cases (ltb (p + c.room) (length c.items))) [
  | inl b ↦
      let many : length c.items - (p + c.room) ≡ n = cc in
      omega (arith, many, ltb→lt (p + c.room) (length c.items) b)
  | inr b ↦ absurd (ahead_of-skipped p n c.items (rw b at e))
]

abbrev pub log_receiver : ReceiverApi logging
log_receiver = record {
  sent = λ c. c.items;
  recv = poll;
  sent-subscribe = λ c. refl;
  sent-unsubscribe = λ c. refl;
  sent-send = λ b c. add_lem b c.count c.items;
  recv-nothing_new = poll-nothing_new;
  recv-value = poll-value;
  recv-skipped = poll-skipped;
}

abbrev pub logged : External
logged = record plain { broadcast = logging }
