-- ===== src/Hub/Drain.antt =====
-- The shutdown of backend/hub.go: `isDraining`, `notifyClientFinished`, `drain`, and
-- `closeForShutdown` of backend/client.go. What the drain waits for is an argument: the order in which
-- the loop sees the ends of clients and the deadline of its context, and which other waits end.
pub mod Ending
pub mod Places
use chatster.Prelude.{
  ◌||◌, Bool, List, Option, [], contains, false, if◌then◌else◌, keep, length, ltb, none, not, some,
  true, ℕ, ◌&&◌, ◌∷◌, nat_eq, list_eq,
}
use chatster.Hub.State.{Hub, add_to_set, close_client, delete, update}

-- `notifyClientFinished` up to the end of its locked section, and whether a send to the channel of
-- the drain follows.
unfoldable pub mark_finished : ℕ → Hub → Hub × Bool
mark_finished id h =
    let marked : Hub = record h { finished = add_to_set id h.finished } in
    if not h.draining then (marked, false) else elim h.drain_events [
      | none ↦ (marked, false)
      | some queue ↦
          if not (contains h.drain_pending id)
          then (marked, false)
          else (record marked { drain_pending = delete id h.drain_pending }, true)
    ]

-- The clients that the drain waits for.
abbrev pub drained : Hub → List ℕ
drained h = keep (λ id. not (contains h.finished id)) h.clients

-- The locked section of `drain`.
unfoldable pub begin_drain : Hub → Hub
begin_drain h = record h {
  draining = true;
  clients = [];
  finished = keep (λ id. not (contains h.clients id)) h.finished;
  drain_events = some [];
  drain_capacity = length (drained h);
  drain_pending = drained h;
}

-- `closeForShutdown` of every client
unfoldable pub close_all : List ℕ → Hub → Hub
close_all [] h = h
close_all (id ∷ ids) h =
    close_all ids (record h { objects = update h.objects id (close_client (h.objects id)) })

-- What the select of the drain sees.
pub data Signal : Type 0 where
  client_finished : ℕ → Signal
  deadline : Signal

-- How the loop ends, or that it still waits.
pub data Wait : Type 0 where
  all_closed : Wait
  forced waiting : ℕ → Wait

-- The loop: `pending` holds the clients that remain.
unfoldable pub await : List ℕ → List Signal → Wait
await [] signals = all_closed
await (p ∷ ps) [] = waiting (length (p ∷ ps))
await (p ∷ ps) (deadline ∷ signals) = forced (length (p ∷ ps))
await (p ∷ ps) (client_finished id ∷ signals) =
    await (if contains (p ∷ ps) id then delete id (p ∷ ps) else p ∷ ps) signals

-- `h.stop()`
abbrev pub stop_hub : Hub → Hub
stop_hub h = record h { done = true }

-- What else the drain waits for: that `Close` of the fan-out returns, and that the broker's goroutines
-- end or the context expires, if the hub has a broker; that the goroutines return that close the
-- clients; that the writer of leave notifications ends or the context expires, if it was started; and
-- that the event loop returns, if it was started. `expired` says whether the context has expired when
-- the leave notifications are stopped.
pub record Waits : Type 0 where
  pub has_broker : Bool
  pub fanout_closes : Bool
  pub broker_ends : Bool
  pub closers_return : Bool
  pub leave_started : Bool
  pub leave_ends : Bool
  pub expired : Bool
  pub run_started : Bool
  pub run_returns : Bool

-- `stopBroker` returns; its select ends with the broker or with the context.
abbrev pub broker_stops : Waits → Bool
broker_stops w = if w.has_broker then w.fanout_closes && w.broker_ends else true

-- `stopLeaveNotifications` returns.
abbrev pub leave_stops : Waits → Bool
leave_stops w = if w.leave_started then w.leave_ends || w.expired else true

-- `<-h.runDone`
abbrev pub run_over : Waits → Bool
run_over w = if w.run_started then w.run_returns else true

-- The error of `stopLeaveNotifications`: that of the context, if the writer was started.
abbrev pub leave_fails : Waits → Bool
leave_fails w = w.leave_started && w.expired

-- What follows the loop: the result without and with an error; none while it waits.
unfoldable pub end_drain : Waits → Hub → Wait → Option (Hub × Bool)
end_drain w h (waiting n) = none
end_drain w h all_closed =
    if not (leave_stops w && run_over w) then none else some (stop_hub h, not (leave_fails w))
end_drain w h (forced n) =
    if not (leave_stops w && run_over w)
    then none
    else some (stop_hub h, ltb n 1 && not (leave_fails w))

unfoldable pub drain : Waits → List Signal → Hub → Option (Hub × Bool)
drain w signals h =
    if not (broker_stops w)
    then none
    else if not w.closers_return
    then none
    else end_drain w (close_all (drained h) (begin_drain h)) (await (drained h) signals)
