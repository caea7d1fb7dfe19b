-- ===== src/Metrics/Scrape.antt =====
-- Reading the exposition format back: a line is a comment, or a name, a space and a number.
use rust_ws_server.Base.{
  ℕ, ◌^◌, ◌<◌, ◌≡◌, ◌≢◌, refl, ◌∙◌, ap, Bool, true, false, ◌&&◌, List, [], ◌∷◌, ◌++◌, map, Option,
  none, some, Text, text, ◌==◌, All, if◌then◌else◌, arith,
}
use mathlib.Core.List.{filter_map, filter_map-cons-none, filter_map-cons-some}
use mathlib.Core.Option
use rust_ws_server.Metrics.{Metrics}
use rust_ws_server.Metrics.Decimal.{to_string, parse, parse-to_string, to_string-IsFree}
use rust_ws_server.Metrics.Render.{
  Family, help_line, type_line, sample_line, render, families, render_prometheus,
}
use rust_ws_server.Str.{split_once}
use rust_ws_server.Str.Split.{
  IsFree, IsFree-append, is_free, is_free-IsFree, both, split_once-append,
}

-- The character goes in front of the first line.
abbrev push : ℕ → List Text → List Text
push c [] = (c ∷ []) ∷ []
push c (l ∷ ls) = (c ∷ l) ∷ ls

unfoldable pub lines : Text → List Text
lines [] = [] ∷ []
lines (c ∷ s) = let rest = lines s in if c == b'\n' then [] ∷ rest else push c rest

-- By the parts of a line.
unfoldable pub sample_of : Option (Text × Text) → Option (Text × ℕ)
unfolding parse
sample_of (some (name, value)) = Option.map (λ n. (name, n)) (parse value)
sample_of none = none

unfoldable pub sample : Text → Option (Text × ℕ)
unfolding split_once sample_of
sample [] = none
sample (c ∷ s) = if c == b'#' then none else sample_of (split_once b' ' (c ∷ s))

-- The names and numbers of a text in the format.
unfoldable pub samples : Text → List (Text × ℕ)
unfolding lines sample
samples t = filter_map sample (lines t)

lines-append : (l s : Text) → IsFree b'\n' l → lines (l ++ b'\n' ∷ s) ≡ l ∷ lines s
unfolding lines
lines-append [] s h = refl
lines-append (c ∷ l) s (h, hs) = rw (lines-append l s hs) (ground arith)

if_false {ℓ} : {A : Type ℓ} (b : Bool) (x y : A) → b ≡ false → (if b then x else y) ≡ y
if_false b x y e = rw e refl

==_ne : (a b : ℕ) → a ≢ b → (a == b) ≡ false
==_ne a b ne = ground arith

-- A name does not begin a comment, nor does a space.
first :
    (name rest : Text)
    → IsFree b'#' name
    → sample (name ++ b' ' ∷ rest) ≡ sample_of (split_once b' ' (name ++ b' ' ∷ rest))
unfolding sample
first [] rest h = refl
first (c ∷ s) rest (ne, h) = if_false (c == b'#') none _ (==_ne c b'#' ne)

-- A name and a number, a comment: what is read of such a line.
sample-name :
    (name : Text) (n : ℕ)
    → IsFree b'#' name
    → IsFree b' ' name
    → n < 2 ^ 64
    → sample (name ++ b' ' ∷ to_string n) ≡ some (name, n)
unfolding sample sample_of
sample-name name n plain free h =
    first name (to_string n) plain
    ∙ ap sample_of (split_once-append b' ' name (to_string n) free)
    ∙ ap (Option.map (λ m. (name, m))) (parse-to_string n h)

abbrev IsPlain : Family → Type 0
IsPlain f =
    IsFree b'\n' f.name
    × IsFree b' ' f.name
    × IsFree b'#' f.name
    × IsFree b'\n' f.help
    × IsFree b'\n' f.kind

sample-sample_line :
    (f : Family) → IsPlain f → f.value < 2 ^ 64 → sample (sample_line f) ≡ some (f.name, f.value)
unfolding sample_line
sample-sample_line f (_, free, plain, _, _) h = sample-name f.name f.value plain free h

samples-line :
    (l s : Text) → IsFree b'\n' l → samples (l ++ b'\n' ∷ s) ≡ filter_map sample (l ∷ lines s)
unfolding samples
samples-line l s free = ap (filter_map sample) (lines-append l s free)

samples-none :
    (l s : Text) → IsFree b'\n' l → sample l ≡ none → samples (l ++ b'\n' ∷ s) ≡ samples s
unfolding samples
samples-none l s free e = samples-line l s free ∙ filter_map-cons-none sample l (lines s) e

samples-some :
    (l s : Text) (x : Text × ℕ)
    → IsFree b'\n' l
    → sample l ≡ some x
    → samples (l ++ b'\n' ∷ s) ≡ x ∷ samples s
unfolding samples
samples-some l s x free e = samples-line l s free ∙ filter_map-cons-some sample l (lines s) e

comment-IsFree :
    (mark name rest : Text)
    → is_free b'\n' mark ≡ true
    → IsFree b'\n' name
    → IsFree b'\n' rest
    → IsFree b'\n' (mark ++ (name ++ b' ' ∷ rest))
comment-IsFree mark name rest h free free' =
    IsFree-append b'\n' mark (name ++ b' ' ∷ rest) (is_free-IsFree b'\n' mark h)
      (IsFree-append b'\n' name (b' ' ∷ rest) free (λ e. absurd (omega arith), free'))

samples-render :
    (fs : List Family)
    → All IsPlain fs
    → All (λ f. f.value < 2 ^ 64) fs
    → samples (render fs) ≡ map (λ f. (f.name, f.value)) fs
unfolding samples render filter_map
samples-render [] p h = refl
samples-render (f ∷ fs) ((name, free, plain, help, kind), ps) (h, hs) =
    samples-none (help_line f) _ (comment-IsFree (text "# HELP ") f.name f.help refl name help) refl
    ∙ samples-none (type_line f) _ (comment-IsFree (text "# TYPE ") f.name f.kind refl name kind)
        refl
    ∙ samples-some (sample_line f) (render fs) (f.name, f.value)
        (IsFree-append b'\n' f.name (b' ' ∷ to_string f.value) name
          (λ e. absurd (omega arith), to_string-IsFree b'\n' f.value (omega arith)))
        (sample-sample_line f (name, free, plain, help, kind) h)
    ∙ ap (λ l. (f.name, f.value) ∷ l) (samples-render fs ps hs)

abbrev is_plain : Family → Bool
is_plain f =
    is_free b'\n' f.name
    && (is_free b' ' f.name
        && (is_free b'#' f.name && (is_free b'\n' f.help && is_free b'\n' f.kind)))

abbrev all_plain : List Family → Bool
all_plain [] = true
all_plain (f ∷ fs) = is_plain f && all_plain fs

is_plain-IsPlain : (f : Family) → is_plain f ≡ true → IsPlain f
is_plain-IsPlain f h =
    let (name, h1) = both (is_free b'\n' f.name) _ h in
    let (word, h2) = both (is_free b' ' f.name) _ h1 in
    let (plain, h3) = both (is_free b'#' f.name) _ h2 in
    let (help, kind) = both (is_free b'\n' f.help) (is_free b'\n' f.kind) h3 in
    (
      is_free-IsFree b'\n' f.name name,
      is_free-IsFree b' ' f.name word,
      is_free-IsFree b'#' f.name plain,
      is_free-IsFree b'\n' f.help help,
      is_free-IsFree b'\n' f.kind kind,
    )

all_plain-IsPlain : (fs : List Family) → all_plain fs ≡ true → All IsPlain fs
all_plain-IsPlain [] h = tt
all_plain-IsPlain (f ∷ fs) h =
    let (plain, rest) = both (is_plain f) (all_plain fs) h in
    (is_plain-IsPlain f plain, all_plain-IsPlain fs rest)

-- The names of the metrics, each with its counter.
unfoldable pub shown : Metrics → List (Text × ℕ)
shown m =
    (text "ws_active_connections", m.active_connections)
    ∷ (text "ws_accepted_connections_total", m.accepted_connections)
    ∷ (text "ws_rejected_connections_total", m.rejected_connections)
    ∷ (text "ws_messages_in_total", m.messages_in)
    ∷ (text "ws_messages_out_total", m.messages_out)
    ∷ (text "ws_dropped_messages_total", m.dropped_messages)
    ∷ (text "ws_protocol_errors_total", m.protocol_errors)
    ∷ (text "ws_auth_rejected_total", m.auth_rejected)
    ∷ (text "ws_ip_rejected_total", m.ip_rejected)
    ∷ (text "ws_tenant_rejected_total", m.tenant_rejected)
    ∷ (text "ws_tenant_rate_rejected_total", m.tenant_rate_rejected)
    ∷ []

-- A reader of the exposition format gets back from the rendered text the eleven counters, each
-- under its name and in this order, where all of them are words of 64 bits.
pub samples-render_prometheus :
    (m : Metrics)
    → All (λ (x : Text × ℕ). x.1 < 2 ^ 64) (shown m)
    → samples (render_prometheus m) ≡ shown m
unfolding render_prometheus families shown
samples-render_prometheus m h = samples-render (families m) (all_plain-IsPlain (families m) refl) h
