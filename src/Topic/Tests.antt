-- ===== src/Topic/Tests.antt =====
-- Runs on topic names.
use rust_ws_server.Base.{◌≤◌, ◌≡◌, ◌≢◌, refl, [], text, length, arith}
use rust_ws_server.Str.Trim.{StartsOff}
use rust_ws_server.Topic.{is_slash, max_topic_chars, normalize_topic, tenant_topic, extract_topic}
use rust_ws_server.Topic.Normalize.{normalize_topic_form}
use rust_ws_server.Topic.Isolation.{extract_topic-tenant_topic, tenant_topic-injective}

normalize_topic_blank : normalize_topic (text "  // ") ≡ text "public"
unfolding normalize_topic
normalize_topic_blank = refl

normalize_topic_slashes : normalize_topic (text " /room-a\n") ≡ text "room-a"
unfolding normalize_topic
normalize_topic_slashes = refl

-- Once more changes it: the white space behind the slash comes to the front.
normalize_topic_twice :
    (normalize_topic (text "/ room") ≡ text " room")
    × (normalize_topic (normalize_topic (text "/ room")) ≡ text "room")
unfolding normalize_topic
normalize_topic_twice = (refl, refl)

tenant_topic_room : tenant_topic (text "t1") (text "room-a") ≡ text "t1:room-a"
unfolding tenant_topic
tenant_topic_room = refl

normalize_topic_form_example :
    (normalize_topic (text "//x") ≢ [])
    × (length (normalize_topic (text "//x")) ≤ max_topic_chars)
    × StartsOff is_slash (normalize_topic (text "//x"))
normalize_topic_form_example = normalize_topic_form (text "//x")

extract_topic-tenant_topic_example :
    extract_topic (tenant_topic (text "t1") (text "a:b")) ≡ text "a:b"
extract_topic-tenant_topic_example =
    extract_topic-tenant_topic (text "t1") (text "a:b") (omega arith)

tenant_topic-injective_example : (text "t1" ≡ text "t1") × (text "a:b" ≡ text "a:b")
tenant_topic-injective_example =
    tenant_topic-injective (text "t1") (text "t1") (text "a:b") (text "a:b") (omega arith)
      (omega arith) refl
