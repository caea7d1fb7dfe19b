-- ===== src/Connection/Tasks/Ending.antt =====
-- Once a task of a connection has ended, the loop can end without another turn of the others.
use rust_ws_server.Base.{
  ℕ, List, [], ◌∷◌, Text, ◌≡◌, refl, ◌∙◌, true, false, none, some, Option-cases, inl, inr,
}
use rust_ws_server.Connection.Tasks.{
  Outcome, done, Joined, cancelled, returned, ConnectionTask, reader, writer, fanout, name_of,
  task_result,
}
use rust_ws_server.Connection.Tasks.Order.{IsEnded, Step-end_of}
use rust_ws_server.Connection.Tasks.Session.{
  AllEnded, IsAmong, aborts, Place, Session, end_of, set_end, settle, session_read, return_from,
  read, selects, aborted, left, Run, here, next,
}
use rust_ws_server.External.{External}
use rust_ws_server.Messages.Reader.{Incoming, stop, reader_turn}

module _ {ext : External} (place : Place) where
  -- What stays as it is while tasks are aborted.
  abbrev IsAlike : Session ext → Session ext → Type 0
  IsAlike s t = (t.wire ≡ s.wire) × (t.selected ≡ s.selected) × (t.over ≡ s.over)

  -- Runs from `s` that only abort tasks.
  abbrev Leads : Session ext → Session ext → Type 0
  Leads s t = Run place s t × IsAlike s t × ((k : ConnectionTask) → IsEnded s k → IsEnded t k)

  Run-trans : (s t u : Session ext) → Run place s t → Run place t u → Run place s u
  Run-trans s t u first here = first
  Run-trans s t u first (next {t = v} second step) = next (Run-trans s t v first second) step

  Leads-trans : (s t u : Session ext) → Leads s t → Leads t u → Leads s u
  Leads-trans s t u (r, (w, c, o), k) (r', (w', c', o'), k') =
      (Run-trans s t u r r', (w' ∙ w, c' ∙ c, o' ∙ o), λ task e. k' task (k task e))

  settle-IsAlike :
      (s : Session ext) (task : ConnectionTask) (r : Joined)
      → IsAlike s (settle place s task (some r))
  unfolding settle
  settle-IsAlike s task r = (refl, refl, refl)

  settle-IsEnded :
      (s : Session ext) (task : ConnectionTask) (r : Joined)
      → end_of (settle place s task (some r)).ends task ≡ some r
  unfolding settle set_end
  settle-IsEnded s reader r = refl
  settle-IsEnded s writer r = refl
  settle-IsEnded s fanout r = refl

  -- A task that has not ended yet is aborted.
  abort :
      (s : Session ext) (first : ConnectionTask) (result : Outcome) (task : ConnectionTask)
      → s.selected ≡ some (first, result)
      → IsAmong task (aborts first)
      → (t : Session ext) × Leads s t × IsEnded t task
  abort s first result task sel among = elim (Option-cases (end_of s.ends task)) [
    | inl e ↦
        let step = aborted task first result sel among e in
        let t = settle place s task (some cancelled) in
        (
          t,
          (
            next here step,
            settle-IsAlike s task cancelled,
            λ k x. (x.0, Step-end_of place s t k x.0 step x.1),
          ),
          (cancelled, settle-IsEnded s task cancelled),
        )
    | inr ended ↦ (s, (here, (refl, refl, refl), λ k x. x), ended)
  ]

  -- Every task that the loop aborts and awaits ends, one after another.
  abort_all :
      (s : Session ext) (first : ConnectionTask) (result : Outcome) (tasks : List ConnectionTask)
      → s.selected ≡ some (first, result)
      → ((task : ConnectionTask) → IsAmong task tasks → IsAmong task (aborts first))
      → (t : Session ext) × Leads s t × AllEnded t.ends tasks
  abort_all s first result [] sel among = (s, (here, (refl, refl, refl), λ k x. x), tt)
  abort_all s first result (task ∷ tasks) sel among =
      let (t, st, ended) = abort s first result task sel (among task (inl refl)) in
      let (u, tu, all) = abort_all t first result tasks (st.1.1 ∙ sel) (λ k at. among k (inr at)) in
      (u, Leads-trans s t u st tu, (tu.2 task ended, all))

  -- A loop that has selected a task returns: by the aborts and its return alone there is a run to
  -- its end, with nothing more on the wire and the same result.
  pub returns :
      (s : Session ext) (first : ConnectionTask) (result : Outcome)
      → s.selected ≡ some (first, result)
      → s.over ≡ false
      → (t : Session ext) × Run place s t
        × (t.over ≡ true)
        × (t.selected ≡ s.selected)
        × (t.wire ≡ s.wire)
  unfolding return_from
  returns s first result sel live =
      let (t, (run, (w, c, o), k), all) =
        abort_all s first result (aborts first) sel (λ k at. at) in
      (return_from place t, next run (left first result (c ∙ sel) all (o ∙ live)), refl, c, w)

  -- A task that has ended can be the one that is selected, and then the loop returns its result.
  pub ended_returns :
      (s : Session ext) (task : ConnectionTask) (r : Joined)
      → end_of s.ends task ≡ some r
      → s.selected ≡ none
      → s.over ≡ false
      → (t : Session ext) × Run place s t
        × (t.over ≡ true)
        × (t.selected ≡ some (task, task_result (name_of task) r))
        × (t.wire ≡ s.wire)
  ended_returns s task r e un live =
      let result = task_result (name_of task) r in
      let u : Session ext = record s { selected = some (task, result) } in
      let (t, run, over, sel, w) = returns u task result refl live in
      (t, Run-trans s u t (next here (selects task r un e)) run, over, sel, w)

  read_stops :
      (s : Session ext) (incoming : Incoming) (error : Text) (now : ℕ)
      → (reader_turn s.state s.limiter place.tx place.topic_key place.tenant_id place.client_id
          incoming now).next
        ≡ stop
      → let t = session_read place s incoming error now in
        (t.ends.of_reader ≡ some (returned done)) × IsAlike s t
  unfolding session_read settle set_end
  read_stops s incoming error now e =
      rw (e, session_read, settle, set_end) (refl, (refl, refl, refl))

  -- When the reader stops, be it for the idle timeout, the rate limit or the client's leave, the
  -- loop can return at once with success and with nothing more on the wire: what the reader has
  -- just queued, an error event or a close frame, need not be written, since the writer is aborted.
  pub stop_returns :
      (s : Session ext) (incoming : Incoming) (error : Text) (now : ℕ)
      → s.ends.of_reader ≡ none
      → s.selected ≡ none
      → s.over ≡ false
      → (reader_turn s.state s.limiter place.tx place.topic_key place.tenant_id place.client_id
          incoming now).next
        ≡ stop
      → (t : Session ext) × Run place s t
        × (t.over ≡ true)
        × (t.selected ≡ some (reader, done))
        × (t.wire ≡ s.wire)
  unfolding task_result
  stop_returns s incoming error now going un live e =
      let u = session_read place s incoming error now in
      let (ended, (wire, sel, over)) = read_stops s incoming error now e in
      let (t, run, done', sel', wire') =
        ended_returns u reader (returned done) ended (sel ∙ un) (over ∙ live) in
      (
        t,
        Run-trans s u t (next here (read incoming error now going)) run,
        done',
        sel',
        wire' ∙ wire,
      )
