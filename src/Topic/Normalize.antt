-- ===== src/Topic/Normalize.antt =====
-- The form of a normalised topic.
use rust_ws_server.Base.{
  ◌≤◌, ◌≡◌, ◌≢◌, refl, [], ◌∷◌, Text, text, length, take, length-take-le, take_of_length-le, arith,
  if◌then◌else◌,
}
use rust_ws_server.Str.{is_whitespace, is_empty, trim, trim_start_matches}
use rust_ws_server.Str.Trim.{
  StartsOff, EndsOff, trim_start_matches-StartsOff, trim_start_matches_of_StartsOff,
  trim_end_matches_of_EndsOff,
}
use rust_ws_server.Topic.{is_slash, max_topic_chars, normalize_topic}

cut-IsTopic :
    (t : Text)
    → StartsOff is_slash t
    → let r = if is_empty t then text "public" else take max_topic_chars t in
      (r ≢ []) × (length r ≤ max_topic_chars) × StartsOff is_slash r
unfolding is_empty
cut-IsTopic [] h = (λ e. cc, omega arith, refl)
cut-IsTopic (c ∷ s) h = (λ e. cc, omega (arith, length-take-le 127 s), h)

-- Whatever the client sends, the topic has 1 to 128 characters and does not begin with a slash.
pub normalize_topic_form :
    (raw : Text)
    → (normalize_topic raw ≢ [])
      × (length (normalize_topic raw) ≤ max_topic_chars)
      × StartsOff is_slash (normalize_topic raw)
unfolding normalize_topic
normalize_topic_form raw =
    cut-IsTopic (trim_start_matches is_slash (trim raw))
      (trim_start_matches-StartsOff is_slash (trim raw))

pub record IsCanonical (t : Text) : Type 0 where
  pub filled : t ≢ []
  pub short : length t ≤ max_topic_chars
  pub rooted : StartsOff is_slash t
  pub starts : StartsOff is_whitespace t
  pub ends : EndsOff is_whitespace t

cut_of_short :
    (t : Text)
    → t ≢ []
    → length t ≤ max_topic_chars
    → (if is_empty t then text "public" else take max_topic_chars t) ≡ t
unfolding is_empty
cut_of_short [] filled short = absurd (filled refl)
cut_of_short (c ∷ s) filled short = take_of_length-le max_topic_chars (c ∷ s) short

-- A topic in that form with no white space at either end is kept as it is.
pub normalize_topic_of_IsCanonical : (t : Text) → IsCanonical t → normalize_topic t ≡ t
unfolding normalize_topic
normalize_topic_of_IsCanonical t h =
    rw
      (
        trim_start_matches_of_StartsOff is_whitespace t h.starts,
        trim_end_matches_of_EndsOff is_whitespace t h.ends,
        trim_start_matches_of_StartsOff is_slash t h.rooted,
      )
      (cut_of_short t h.filled h.short)
