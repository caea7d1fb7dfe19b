-- ===== src/Connection/Tasks/Order.antt =====
-- What the steps of a connection leave in order: a task that has ended stays so, and the loop
-- returns only when all have.
use rust_ws_server.Base.{
  ℕ, ◌≡◌, refl, sym, ◌∙◌, subst, ok, err, Text, inl, inr, ◌⊎◌, true, Option, none, some,
}
use rust_ws_server.Connection.Tasks.{
  Outcome, Joined, returned, cancelled, panicked, task_result, ConnectionTask, reader, writer,
  fanout, name_of,
}
use rust_ws_server.Connection.Tasks.Session.{
  Ends, AllEnded, aborts, Place, Session, end_of, set_end, settle, session_read, session_write,
  session_fan, return_from, Step, read, write, fan, crashed, told, unrelated, selects, aborted,
  left, Run, here, next, spawned,
}
use rust_ws_server.External.{External}
use rust_ws_server.State.{AppState}

-- What the end of a task says: its own outcome; success for one that was cancelled; and a panic is an
-- error.
abbrev pub Says : Joined → Outcome → Type 0
Says (returned outcome) result = result ≡ outcome
Says cancelled result = result ≡ ok tt
Says (panicked error) result = (message : Text) × (result ≡ err message)

task_result-Says : (name : Text) (r : Joined) → Says r (task_result name r)
unfolding task_result
task_result-Says name (returned outcome) = refl
task_result-Says name cancelled = refl
task_result-Says name (panicked error) = (_, refl)

module _ {ext : External} where
  abbrev pub IsEnded : Session ext → ConnectionTask → Type 0
  IsEnded s task = (r : Joined) × (end_of s.ends task ≡ some r)

  -- The task that was selected has ended, and the loop is to return what that says.
  abbrev pub Selected : Session ext → Type 0
  Selected s =
      (task : ConnectionTask) × (result : Outcome) × (r : Joined) × (s.selected
        ≡ some (task, result))
      × (end_of s.ends task ≡ some r)
      × Says r result

  -- A session is settled when the selected task has ended with the result that the loop is to give,
  -- and when no task is left once the loop has returned.
  abbrev pub IsSettled : Session ext → Type 0
  IsSettled s =
      ((s.selected ≡ none) ⊎ Selected s)
      × (s.over ≡ true → Selected s × ((k : ConnectionTask) → IsEnded s k))

set_end_self :
    (e : Ends) (task : ConnectionTask) (r : Joined) → end_of (set_end e task r) task ≡ some r
unfolding set_end
set_end_self e reader r = refl
set_end_self e writer r = refl
set_end_self e fanout r = refl

set_end-end_of :
    (e : Ends) (task : ConnectionTask) (x : Joined) (k : ConnectionTask) (r : Joined)
    → end_of e task ≡ none
    → end_of e k ≡ some r
    → end_of (set_end e task x) k ≡ some r
unfolding set_end
set_end-end_of e reader x reader r going h = absurd (cc (going, h))
set_end-end_of e reader x writer r going h = h
set_end-end_of e reader x fanout r going h = h
set_end-end_of e writer x reader r going h = h
set_end-end_of e writer x writer r going h = absurd (cc (going, h))
set_end-end_of e writer x fanout r going h = h
set_end-end_of e fanout x reader r going h = h
set_end-end_of e fanout x writer r going h = h
set_end-end_of e fanout x fanout r going h = absurd (cc (going, h))

module _ {ext : External} (place : Place) where
  settle-selected :
      (s : Session ext) (task : ConnectionTask) (o : Option Joined)
      → ((settle place s task o).selected ≡ s.selected)
        × ((settle place s task o).over ≡ s.over)
        × ((settle place s task o).wire ≡ s.wire)
  unfolding settle set_end
  settle-selected s task none = (refl, refl, refl)
  settle-selected s reader (some r) = (refl, refl, refl)
  settle-selected s writer (some r) = (refl, refl, refl)
  settle-selected s fanout (some r) = (refl, refl, refl)

  settle-ends :
      (s : Session ext) (task : ConnectionTask) (r : Joined)
      → (settle place s task (some r)).ends ≡ set_end s.ends task r
  unfolding settle
  settle-ends s task r = refl

  -- Only a task that goes on can get an end.
  settle-end_of :
      (s : Session ext) (task : ConnectionTask) (o : Option Joined) (k : ConnectionTask)
      (r : Joined)
      → end_of s.ends task ≡ none
      → end_of s.ends k ≡ some r
      → end_of (settle place s task o).ends k ≡ some r
  unfolding settle
  settle-end_of s task none k r going e = e
  settle-end_of s task (some x) k r going e = set_end-end_of s.ends task x k r going e

  -- The end of a task is final.
  pub Step-end_of :
      (s t : Session ext) (k : ConnectionTask) (r : Joined)
      → Step place s t
      → end_of s.ends k ≡ some r
      → end_of t.ends k ≡ some r
  unfolding session_read session_write session_fan return_from
  Step-end_of s t k r (read incoming error now going) e = settle-end_of _ reader _ k r going e
  Step-end_of s t k r (write due taken going) e = settle-end_of _ writer _ k r going e
  Step-end_of s t k r (fan heard going) e = settle-end_of _ fanout _ k r going e
  Step-end_of s t k r (crashed task error going) e =
      settle-end_of s task (some (panicked error)) k r going e
  Step-end_of s t k r (told s' h) e = e
  Step-end_of s t k r (unrelated s' h) e = e
  Step-end_of s t k r (selects task x un e') e = e
  Step-end_of s t k r (aborted task first result sel among going) e =
      settle-end_of s task (some cancelled) k r going e
  Step-end_of s t k r (left first result sel all live) e = e

  -- What ended in `s` ended alike in `t`.
  abbrev Keeps : Session ext → Session ext → Type 0
  Keeps s t =
      (k : ConnectionTask) (r : Joined) → end_of s.ends k ≡ some r → end_of t.ends k ≡ some r

  Keeps-Selected :
      (s t : Session ext) → Keeps s t → t.selected ≡ s.selected → Selected s → Selected t
  Keeps-Selected s t kept same (task, result, r, e', e, says) =
      (task, result, r, same ∙ e', kept task r e, says)

  Keeps-IsSettled :
      (s t : Session ext)
      → Keeps s t
      → t.selected ≡ s.selected
      → t.over ≡ s.over
      → IsSettled s
      → IsSettled t
  Keeps-IsSettled s t kept same same' (h, all) = (
    elim h [ inl un ↦ inl (same ∙ un) | inr chosen ↦ inr (Keeps-Selected s t kept same chosen) ],
    λ over.
        let (chosen, ended) = all (sym same' ∙ over) in
        (Keeps-Selected s t kept same chosen, λ k. let (r, e) = ended k in (r, kept k r e)),
  )

  settle-IsSettled :
      (s : Session ext) (task : ConnectionTask) (o : Option Joined)
      → end_of s.ends task ≡ none
      → IsSettled s
      → IsSettled (settle place s task o)
  unfolding settle
  settle-IsSettled s task none going h = h
  settle-IsSettled s task (some x) going h =
      Keeps-IsSettled s (settle place s task (some x))
        (λ k r e. set_end-end_of s.ends task x k r going e) refl refl h

  pub all-IsEnded :
      (s : Session ext)
      → IsEnded s reader
      → IsEnded s writer
      → IsEnded s fanout
      → (k : ConnectionTask) → IsEnded s k
  all-IsEnded s r w f reader = r
  all-IsEnded s r w f writer = w
  all-IsEnded s r w f fanout = f

  -- The selected task and those that are aborted are all.
  awaited-IsEnded :
      (s : Session ext) (first : ConnectionTask)
      → IsEnded s first
      → AllEnded s.ends (aborts first)
      → (k : ConnectionTask) → IsEnded s k
  unfolding aborts
  awaited-IsEnded s reader own (f, (w, _)) = all-IsEnded s own w f
  awaited-IsEnded s writer own (r, (f, _)) = all-IsEnded s r own f
  awaited-IsEnded s fanout own (r, (w, _)) = all-IsEnded s r w own

  -- One that has selected.
  chosen_of :
      (s : Session ext) (first : ConnectionTask) (result : Outcome)
      → s.selected ≡ some (first, result)
      → (s.selected ≡ none) ⊎ Selected s
      → Selected s
  chosen_of s first result sel (inl un) = absurd (cc (sel, un))
  chosen_of s first result sel (inr chosen) = chosen

  Step-IsSettled : (s t : Session ext) → Step place s t → IsSettled s → IsSettled t
  unfolding session_read session_write session_fan return_from
  Step-IsSettled s t (read incoming error now going) h = settle-IsSettled _ reader _ going h
  Step-IsSettled s t (write due taken going) h = settle-IsSettled _ writer _ going h
  Step-IsSettled s t (fan heard going) h = settle-IsSettled _ fanout _ going h
  Step-IsSettled s t (crashed task error going) h =
      settle-IsSettled s task (some (panicked error)) going h
  Step-IsSettled s t (told s' d) h = h
  Step-IsSettled s t (unrelated s' d) h = h
  Step-IsSettled s t (selects task x un e) (h, all) =
      let chosen : Selected (record s { selected = some (task, task_result (name_of task) x) }) =
        (task, task_result (name_of task) x, x, refl, e, task_result-Says (name_of task) x) in
      (inr chosen, λ over. (chosen, (all over).1))
  Step-IsSettled s t (aborted task first result sel among going) h =
      settle-IsSettled s task (some cancelled) going h
  Step-IsSettled s t (left first result sel others live) (h, all) =
      let (own, given, r, chosen, e, says) = chosen_of s first result sel h in
      let same : own ≡ first = cc (sel, chosen) in
      (
        h,
        λ over. (
          (own, given, r, chosen, e, says),
          awaited-IsEnded s first (r, subst (λ k. end_of s.ends k ≡ some r) same e) others,
        ),
      )

  -- From its start on, whatever the order of the turns, a loop selects a task that has ended, with
  -- the outcome that it returned, success if it was cancelled, or an error if it panicked; and the
  -- loop has returned only when it selected one and all three have ended.
  pub Run-IsSettled :
      (s : AppState ext) (now : ℕ) (t : Session ext)
      → Run place (spawned place s now) t
      → IsSettled t
  Run-IsSettled s now t here = (inl refl, λ e. absurd (cc e))
  Run-IsSettled s now t (next {t = u} run step) =
      Step-IsSettled u t step (Run-IsSettled s now u run)
