-- ===== src/Hub/Drain/Places.antt =====
-- The interleavings of the drain of backend/hub.go with the ends of its clients. An end is two steps,
-- the locked section of `notifyClientFinished` and the send behind it; the loop of `drain` takes what
-- was sent.
use chatster.Prelude.{
  Bool, Bool-cases, List, [], and-split, ap, arith, contains, false, if◌then◌else◌, inl, inr,
  length, length-append, none, not, refl, some, some-injective, subst, sym, true, ℕ, ◌&&◌, ◌++◌,
  ◌+◌, ◌<◌, ◌==◌, ◌∙◌, ◌∷◌, ◌≡◌, ◌≤◌, nat_eq, list_eq,
}
use chatster.Hub.State.{Hub, add_to_set, delete}
use chatster.Hub.Drain.{begin_drain, mark_finished}

-- `sending` holds the clients whose send is still to come.
pub record Progress : Type 0 where
  pub hub : Hub
  pub sending : List ℕ

abbrev pub starting : Hub → Progress
starting h = record { hub = begin_drain h; sending = [] }

unfoldable pub locked_section : ℕ → Progress → Progress
locked_section id p =
    let (h, sends) = mark_finished id p.hub in
    record { hub = h; sending = if sends then id ∷ p.sending else p.sending }

-- The send itself; the channel must have a place.
abbrev pub sent : ℕ → List ℕ → Progress → Progress
sent id queue p = record {
  hub = record (p.hub) { drain_events = some (queue ++ id ∷ []) };
  sending = delete id p.sending;
}

abbrev pub taken : List ℕ → Progress → Progress
taken queue p = record p { hub = record (p.hub) { drain_events = some queue } }

pub data Step : Progress → Progress → Type 0 where
  locks : (id : ℕ) (p : Progress) → Step p (locked_section id p)
  sends :
      (id : ℕ) (queue : List ℕ) (p : Progress)
      → contains p.sending id ≡ true
      → p.hub.drain_events ≡ some queue
      → length queue < p.hub.drain_capacity
      → Step p (sent id queue p)
  takes :
      (id : ℕ) (queue : List ℕ) (p : Progress)
      → p.hub.drain_events ≡ some (id ∷ queue)
      → Step p (taken queue p)

pub data Reach (s : Progress) : Progress → Type 0 where
  here : Reach s s
  next : {p q : Progress} → Reach s p → Step p q → Reach s q

-- Every client that is pending, about to send or sent has its own place.
record HasPlaces (p : Progress) : Type 0 where
  queue : List ℕ
  open' : p.hub.drain_events ≡ some queue
  enough : length queue + length p.sending + length p.hub.drain_pending ≤ p.hub.drain_capacity

starting-HasPlaces : (h : Hub) → HasPlaces (starting h)
unfolding begin_drain
starting-HasPlaces h = record { queue = []; open' = refl; enough = omega arith }

length-delete :
    (id : ℕ) (xs : List ℕ)
    → (length (delete id xs) ≤ length xs)
      × (contains xs id ≡ true → length (delete id xs) < length xs)
unfolding delete contains
length-delete id [] = (omega arith, λ h. cc)
length-delete id (x ∷ xs) =
    let rest = length-delete id xs in
    elim (Bool-cases (x == id)) [
      | inl e ↦ rw e (omega (arith, rest.0), λ h. omega (arith, rest.0))
      | inr e ↦ rw e (omega (arith, rest.0), λ h. omega (arith, rest.1 h))
    ]

if-not :
    {A : Type 0}
    → (a b : Bool) (x y : A)
    → (if not a then x else if not b then x else y) ≡ (if a && b then y else x)
if-not true true x y = refl
if-not true false x y = refl
if-not false b x y = refl

-- What the locked section does while there is a channel.
mark_finished-open :
    (id : ℕ) (h : Hub) (queue : List ℕ)
    → h.drain_events ≡ some queue
    → mark_finished id h ≡ (
        if h.draining && contains h.drain_pending id
        then (
          record h {
            finished = add_to_set id h.finished;
            drain_pending = delete id h.drain_pending;
          },
          true,
        )
        else (record h { finished = add_to_set id h.finished }, false))
unfolding mark_finished
mark_finished-open id h queue e =
    let marked : Hub = record h { finished = add_to_set id h.finished } in
    let pends = contains h.drain_pending id in
    ap
      (λ events. if not h.draining then (marked, false) else elim events as (λ _. Hub × Bool) [
        | none ↦ (marked, false)
        | some queue ↦
            if not pends
            then (marked, false)
            else (record marked { drain_pending = delete id h.drain_pending }, true)
      ])
      e
    ∙ if-not h.draining pends (marked, false)
        (record marked { drain_pending = delete id h.drain_pending }, true)

locked_section-HasPlaces : (id : ℕ) (p : Progress) → HasPlaces p → HasPlaces (locked_section id p)
unfolding locked_section
locked_section-HasPlaces id p v =
    rw (mark_finished-open id p.hub v.queue v.open')
      (elim (Bool-cases (p.hub.draining && contains p.hub.drain_pending id)) [
        | inl e ↦ rw e (record {
          queue = v.queue;
          open' = v.open';
          enough = omega (
            arith,
            v.enough,
            (length-delete id p.hub.drain_pending).1 (and-split p.hub.draining _ e).1,
          );
        })
        | inr e ↦ rw e (record { queue = v.queue; open' = v.open'; enough = v.enough })
      ])

Step-HasPlaces : {p q : Progress} → Step p q → HasPlaces p → HasPlaces q
Step-HasPlaces (locks id p) v = locked_section-HasPlaces id p v
Step-HasPlaces (sends id queue p about opened place) v =
    let same : v.queue ≡ queue = some-injective _ _ (sym v.open' ∙ opened) in
    let room =
      subst (λ l. length l + length p.sending + length p.hub.drain_pending ≤ p.hub.drain_capacity)
        same v.enough in
    record {
      queue = queue ++ id ∷ [];
      open' = refl;
      enough =
          omega (arith, room, length-append queue (id ∷ []), (length-delete id p.sending).1 about);
    }
Step-HasPlaces (takes id queue p opened) v =
    let same : v.queue ≡ id ∷ queue = some-injective _ _ (sym v.open' ∙ opened) in
    let room =
      subst (λ l. length l + length p.sending + length p.hub.drain_pending ≤ p.hub.drain_capacity)
        same v.enough in
    record { queue = queue; open' = refl; enough = omega (arith, room) }

Reach-HasPlaces : {s p : Progress} → HasPlaces s → Reach s p → HasPlaces p
Reach-HasPlaces v here = v
Reach-HasPlaces v (next r step) = Step-HasPlaces step (Reach-HasPlaces v r)

contains-length : (id : ℕ) (xs : List ℕ) → contains xs id ≡ true → 0 < length xs
unfolding contains
contains-length id [] h = cc
contains-length id (x ∷ xs) h = omega arith

-- Whatever the interleaving of the ends of clients with the drain, a client that is about to send its
-- end to the drain finds a place in the channel, so no send waits.
pub Reach-free :
    (h : Hub) (p : Progress) (id : ℕ) (queue : List ℕ)
    → Reach (starting h) p
    → contains p.sending id ≡ true
    → p.hub.drain_events ≡ some queue
    → length queue < p.hub.drain_capacity
Reach-free h p id queue reached about opened =
    let v = Reach-HasPlaces (starting-HasPlaces h) reached in
    let same : v.queue ≡ queue = some-injective _ _ (sym v.open' ∙ opened) in
    let room =
      subst (λ l. length l + length p.sending + length p.hub.drain_pending ≤ p.hub.drain_capacity)
        same v.enough in
    omega (arith, room, contains-length id p.sending about)
