-- ===== src/Topic.antt =====
-- Topic names: src/server.rs `normalize_topic` and `extract_topic`, src/state.rs `tenant_topic`.
pub mod Normalize
pub mod Isolation
mod Tests
use rust_ws_server.Base.{
  ℕ, Bool, List, [], ◌∷◌, ◌++◌, Option, none, some, Text, text, take, ◌==◌, if◌then◌else◌,
}
use rust_ws_server.Str.{is_empty, trim, trim_start_matches, split_once}

abbrev pub max_topic_chars : ℕ
max_topic_chars = 128

abbrev pub is_slash : ℕ → Bool
is_slash c = c == b'/'

unfoldable pub normalize_topic : Text → Text
unfolding is_empty trim trim_start_matches
normalize_topic raw =
    let topic = trim_start_matches is_slash (trim raw) in
    if is_empty topic then text "public" else take max_topic_chars topic

unfoldable pub tenant_topic : Text → Text → Text
tenant_topic tenant_id topic = tenant_id ++ b':' ∷ topic

unfoldable pub extract_topic : Text → Text
unfolding split_once
extract_topic topic_key = elim (split_once b':' topic_key) [
  | some (_, topic) ↦ topic
  | none ↦ topic_key
]
