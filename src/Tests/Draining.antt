-- ===== src/Tests/Draining.antt =====
-- Shutdowns of a hub with two clients.
use chatster.Prelude.{
  inl, inr, [], contains, false, is_nil, keep, length, map, not, refl, some, true, ℕ, ◌&&◌, ◌++◌,
  ◌<◌, ◌∷◌, ◌≡◌, nat_eq, list_eq,
}
use chatster.Hub.State.{Hub}
use chatster.Hub.Drain.{
  Waits, begin_drain, client_finished, deadline, drain, drained, leave_fails, mark_finished,
}
use chatster.Hub.Drain.Ending.{IsOver, IsShutDown, drain-IsShutDown, others}
use chatster.Hub.Drain.Places.{Progress, Reach-free, here, locked_section, locks, next, starting}
use chatster.Tests.Chat.{hub}

-- Client 3 has ended before.
abbrev ending_hub : Hub
ending_hub = record hub { finished = 3 ∷ [] }

abbrev waits : Waits
waits = record {
  has_broker = true;
  fanout_closes = true;
  broker_ends = true;
  closers_return = true;
  leave_started = true;
  leave_ends = true;
  expired = false;
  run_started = true;
  run_returns = true;
}

-- Both clients end, and no deadline comes.
both_ended-IsOver : IsOver (others (2 ∷ 1 ∷ []) (drained ending_hub)) []
unfolding keep contains
both_ended-IsOver = inl refl

drain-IsShutDown_example :
    (h' : Hub) × (drain waits (map client_finished (2 ∷ 1 ∷ []) ++ []) ending_hub
      ≡ some (h', is_nil (others (2 ∷ 1 ∷ []) (drained ending_hub)) && not (leave_fails waits)))
    × IsShutDown ending_hub h'
drain-IsShutDown_example =
    drain-IsShutDown waits (2 ∷ 1 ∷ []) [] ending_hub refl refl refl refl both_ended-IsOver

-- One of them ends, and then the deadline comes.
forced_close :
    (h' : Hub) × (drain waits (map client_finished (1 ∷ []) ++ deadline ∷ []) ending_hub
      ≡ some (h', is_nil (others (1 ∷ []) (drained ending_hub)) && not (leave_fails waits)))
    × IsShutDown ending_hub h'
forced_close =
    drain-IsShutDown waits (1 ∷ []) (deadline ∷ []) ending_hub refl refl refl refl (inr ([], refl))

abbrev progress : Progress
progress = locked_section 1 (starting ending_hub)

one_sends : contains progress.sending 1 ≡ true
unfolding locked_section mark_finished begin_drain keep contains
one_sends = refl

still_open : progress.hub.drain_events ≡ some []
unfolding locked_section mark_finished begin_drain keep contains
still_open = refl

Reach-free_example : length {A = ℕ} [] < progress.hub.drain_capacity
Reach-free_example =
    Reach-free ending_hub progress 1 [] (next here (locks 1 (starting ending_hub))) one_sends
      still_open
