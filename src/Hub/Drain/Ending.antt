-- ===== src/Hub/Drain/Ending.antt =====
-- What the drain waits for, and how it ends.
use chatster.Prelude.{
  none, Option, subst, ◌⊎◌, Bool, Bool-cases, List, [], ap, arith, contains, eq_sym, false,
  if◌then◌else◌, inl, inr, is_nil, keep, length, ltb, map, not, refl, some, sym, true, ℕ, ◌&&◌,
  ◌++◌, ◌==◌, ◌||◌, ◌∙◌, ◌∷◌, ◌≡◌, nat_eq, list_eq,
}
use chatster.Hub.State.{Client, Hub, close_client, delete, update}
use chatster.Hub.Drain.{
  Waits, broker_stops, leave_stops, run_over, Signal, Wait, all_closed, await, begin_drain,
  client_finished, close_all, deadline, drain, drained, end_drain, forced, leave_fails, stop_hub,
}

-- The clients of a list that are not among others.
abbrev pub others : List ℕ → List ℕ → List ℕ
others ids pending = keep (λ p. not (contains ids p)) pending

others-nil : (pending : List ℕ) → others [] pending ≡ pending
unfolding keep contains
others-nil [] = refl
others-nil (p ∷ ps) = ap (◌∷◌ p) (others-nil ps)

others_none : (ids : List ℕ) → others ids [] ≡ []
unfolding keep
others_none ids = refl

keep-delete :
    (id : ℕ) (ids pending : List ℕ) → others ids (delete id pending) ≡ others (id ∷ ids) pending
unfolding keep contains delete
keep-delete id ids [] = refl
keep-delete id ids (p ∷ ps) =
    let flip = eq_sym id p in
    elim (Bool-cases (p == id)) [
      | inl e ↦ rw (e, flip ∙ e) (keep-delete id ids ps)
      | inr e ↦ elim (Bool-cases (contains ids p)) [
        | inl c ↦ rw (e, flip ∙ e, c) (keep-delete id ids ps)
        | inr c ↦ rw (e, flip ∙ e, c) (ap (◌∷◌ p) (keep-delete id ids ps))
      ]
    ]

delete-absent : (id : ℕ) (xs : List ℕ) → contains xs id ≡ false → delete id xs ≡ xs
unfolding contains delete
delete-absent id [] h = refl
delete-absent id (x ∷ xs) h = ground (arith, delete-absent id xs)

removed :
    (id : ℕ) (pending : List ℕ)
    → (if contains pending id then delete id pending else pending) ≡ delete id pending
removed id pending = elim (Bool-cases (contains pending id)) [
  | inl e ↦ rw e refl
  | inr e ↦ rw e (sym (delete-absent id pending e))
]

-- How the loop ends with some clients left.
unfoldable pub outcome : List ℕ → Wait
outcome [] = all_closed
outcome (p ∷ ps) = forced (length (p ∷ ps))

-- The loop has seen the ends of all its clients, or its deadline comes next.
abbrev pub IsOver : List ℕ → List Signal → Type 0
IsOver remaining after = (remaining ≡ []) ⊎ ((rest : List Signal) × (after ≡ deadline ∷ rest))

await-over :
    (pending : List ℕ) (after : List Signal)
    → IsOver pending after
    → await pending after ≡ outcome pending
unfolding await outcome
await-over [] after h = refl
await-over (p ∷ ps) after (inl none_left) = cc
await-over (p ∷ ps) after (inr (rest, e)) = rw e refl

-- When the loop has seen the ends of some clients and is over, it ends, with the clients that it still
-- waits for closed by force: those of the pending ones that were not among the first.
await-outcome :
    (ids pending : List ℕ) (after : List Signal)
    → IsOver (others ids pending) after
    → await pending (map client_finished ids ++ after) ≡ outcome (others ids pending)
unfolding await outcome
await-outcome [] pending after over =
    await-over pending after (subst (λ l. IsOver l after) (others-nil pending) over)
    ∙ ap outcome (sym (others-nil pending))
await-outcome (id ∷ ids) [] after over = ap outcome (sym (others_none (id ∷ ids)))
await-outcome (id ∷ ids) (p ∷ ps) after over =
    ap (λ l. await l (map client_finished ids ++ after)) (removed id (p ∷ ps))
    ∙ await-outcome ids (delete id (p ∷ ps)) after
        (subst (λ l. IsOver l after) (sym (keep-delete id ids (p ∷ ps))) over)
    ∙ ap outcome (keep-delete id ids (p ∷ ps))

-- The hub and its clients once the drain has ended.
pub record IsShutDown (h h' : Hub) : Type 0 where
  pub stopped : h'.done ≡ true
  pub drains : h'.draining ≡ true
  pub empty : h'.clients ≡ []
  pub closed : (id : ℕ) → contains (drained h) id ≡ true → (h'.objects id).done ≡ true

update-done :
    (o : ℕ → Client) (id k : ℕ)
    → (update o id (close_client (o id)) k).done ≡ ((id == k) || (o k).done)
update-done o id k = elim (Bool-cases (k == id)) [
  | inl e ↦ rw (e, eq_sym id k ∙ e) refl
  | inr e ↦ rw (e, eq_sym id k ∙ e) refl
]

close_all-done :
    (ids : List ℕ) (h : Hub) (k : ℕ)
    → ((close_all ids h).objects k).done ≡ (contains ids k || (h.objects k).done)
unfolding close_all contains
close_all-done [] h k = refl
close_all-done (id ∷ ids) h k =
    close_all-done ids (record h { objects = update h.objects id (close_client (h.objects id)) }) k
    ∙ rw (update-done h.objects id k) (ground arith)

-- What closing leaves alone.
close_all-kept :
    (ids : List ℕ) (h : Hub)
    → ((close_all ids h).draining ≡ h.draining) × ((close_all ids h).clients ≡ h.clients)
unfolding close_all
close_all-kept [] h = (refl, refl)
close_all-kept (id ∷ ids) h =
    close_all-kept ids (record h { objects = update h.objects id (close_client (h.objects id)) })

shut_down : (h : Hub) → IsShutDown h (stop_hub (close_all (drained h) (begin_drain h)))
unfolding begin_drain
shut_down h = record {
  stopped = refl;
  drains = (close_all-kept (drained h) (begin_drain h)).0;
  empty = (close_all-kept (drained h) (begin_drain h)).1;
  closed = λ id d. close_all-done (drained h) (begin_drain h) id ∙ rw d refl;
}

end_drain-outcome :
    (w : Waits) (h : Hub) (remaining : List ℕ)
    → leave_stops w ≡ true
    → run_over w ≡ true
    → end_drain w h (outcome remaining) ≡ some (stop_hub h, is_nil remaining && not (leave_fails w))
unfolding end_drain outcome
end_drain-outcome w h [] leave run = rw (leave, run) refl
end_drain-outcome w h (p ∷ ps) leave run =
    let some_left : ltb (length (p ∷ ps)) 1 ≡ false = ground arith in
    rw (leave, run, some_left) refl

goes_on : {A : Type 0} (b : Bool) (x : Option A) → b ≡ true → (if not b then none else x) ≡ x
goes_on true x h = refl
goes_on false x h = cc

-- If the hub has no broker, or its fan-out closes and its goroutines end or the context expires; if
-- the goroutines return that close the clients; if the writer of leave notifications ends, the context
-- expires or there is none; and if the event loop returns or was not started: then the drain ends as
-- soon as the loop has seen the ends of all clients that were registered and not finished, or its
-- deadline behind the ends of some. The hub is stopped then, it drains, no client is registered and
-- all these clients are closed; and the result has no error exactly when none of them was left and no
-- writer of leave notifications was stopped by the context.
pub drain-IsShutDown :
    (w : Waits) (ids : List ℕ) (after : List Signal) (h : Hub)
    → broker_stops w ≡ true
    → w.closers_return ≡ true
    → leave_stops w ≡ true
    → run_over w ≡ true
    → IsOver (others ids (drained h)) after
    → (h' : Hub) × (drain w (map client_finished ids ++ after) h
        ≡ some (h', is_nil (others ids (drained h)) && not (leave_fails w)))
      × IsShutDown h h'
unfolding drain
drain-IsShutDown w ids after h broker closers leave run over =
    let closed = close_all (drained h) (begin_drain h) in
    (
      stop_hub closed,
      goes_on (broker_stops w) _ broker
          ∙ goes_on w.closers_return _ closers
          ∙ (ap (end_drain w closed) (await-outcome ids (drained h) after over)
              ∙ end_drain-outcome w closed (others ids (drained h)) leave run),
      shut_down h,
    )
