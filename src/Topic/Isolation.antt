-- ===== src/Topic/Isolation.antt =====
-- How far the tenant's prefix keeps the topics of two tenants apart.
use rust_ws_server.Base.{◌≡◌, ap, ◌∷◌, ◌++◌, Text, arith}
use mathlib.Core.List.{append_assoc}
use rust_ws_server.Str.{split_once}
use rust_ws_server.Str.Split.{IsFree, split_once-append}
use rust_ws_server.Topic.{tenant_topic, extract_topic}

-- For a tenant whose name has no colon the client sees again the topic it named.
pub extract_topic-tenant_topic :
    (tenant topic : Text) → IsFree b':' tenant → extract_topic (tenant_topic tenant topic) ≡ topic
unfolding extract_topic tenant_topic
extract_topic-tenant_topic tenant topic h =
    rw (split_once-append b':' tenant topic h, extract_topic)

-- Two tenants whose names have no colon share a storage key only if they are one tenant, and the
-- topics are one topic.
pub tenant_topic-injective :
    (t u a b : Text)
    → IsFree b':' t
    → IsFree b':' u
    → tenant_topic t a ≡ tenant_topic u b
    → (t ≡ u) × (a ≡ b)
unfolding tenant_topic
tenant_topic-injective t u a b ht hu e =
    ground
      (arith, split_once-append b':' t a ht, split_once-append b':' u b hu, ap (split_once b':') e)

-- With a colon in its name a tenant shares keys with another tenant: "a:b" and "a" do.
pub tenant_topic_collision :
    (t u a : Text) → tenant_topic (t ++ b':' ∷ u) a ≡ tenant_topic t (u ++ b':' ∷ a)
unfolding tenant_topic
tenant_topic_collision t u a = append_assoc t (b':' ∷ u) (b':' ∷ a)
