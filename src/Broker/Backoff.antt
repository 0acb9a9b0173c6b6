-- ===== src/Broker/Backoff.antt =====
-- The loop of `Run`: what it hands over, how long it waits and when it returns.
use chatster.Prelude.{
  All, Bool, Bool-cases, List, Option-cases, Result-cases, [], any, ap, append_nil, ap₂, arith,
  get_elem?, if◌then◌else◌, inl, inr, min, ok, ok-injective, refl, some, some-injective, subst, suc,
  sym, zero, ℕ, ◌*◌, ◌++◌, ◌+◌, ◌^◌, ◌||◌, ◌∙◌, ◌∷◌, ◌≡◌,
}
use chatster.Text.{Unicode}
use chatster.Events.{channel_pattern}
use chatster.Events
use chatster.Events.Validity.{IsValid}
use chatster.Broker.{
  Attempt, Packet, RedisFanout, Trace, Wire, next_backoff, receive, receive_all, redis_max_backoff,
  redis_min_backoff, run, run_loop, subscribe_once,
}
use chatster.Broker.Filter.{receive_all-IsValid}

-- The context is cancelled in this round.
abbrev pub ends : Attempt → Bool
ends a = a.cancelled || a.cancelled_in_wait

-- What arrived until the context was cancelled.
unfoldable pub arrived : List Attempt → List Packet
arrived [] = []
arrived (a ∷ attempts) =
    let rest = arrived attempts in
    (if a.subscribed then a.received else []) ++ (if ends a then [] else rest)

-- The wait behind the round `n`, in milliseconds.
abbrev pub wait_at : ℕ → ℕ
wait_at n = min (redis_min_backoff * 2 ^ n) redis_max_backoff

next_backoff-wait_at : (n : ℕ) → next_backoff (wait_at n) ≡ wait_at (suc n)
unfolding next_backoff
next_backoff-wait_at n =
    let double : 2 ^ suc n ≡ 2 * 2 ^ n = omega arith in rw double (ground arith)

-- What the waits from the round `n` on are.
abbrev pub Scheduled : ℕ → List ℕ → Type 0
Scheduled n waits = (i d : ℕ) → get_elem? waits i ≡ some d → d ≡ wait_at (n + i)

Scheduled-nil : (n : ℕ) → Scheduled n []
Scheduled-nil n i d h = cc

Scheduled-cons :
    (n : ℕ) (waits : List ℕ) → Scheduled (suc n) waits → Scheduled n (wait_at n ∷ waits)
Scheduled-cons n waits v zero d h = sym (some-injective _ _ h) ∙ ap wait_at (omega arith)
Scheduled-cons n waits v (suc i) d h = v i d h ∙ ap wait_at (omega arith)

module _ ⦃u : Unicode⦄ {Options : Type 0} (w : Wire) (b : RedisFanout Options) where
  receive_all-append :
      (ms ns : List Packet) → receive_all w b (ms ++ ns) ≡ receive_all w b ms ++ receive_all w b ns
  unfolding receive_all
  receive_all-append [] ns = refl
  receive_all-append (m ∷ ms) ns = elim (Option-cases (receive w b m)) [
    | inl n ↦ rw (n, receive_all) (receive_all-append ms ns)
    | inr (e, s) ↦ rw (s, receive_all) (ap (◌∷◌ e) (receive_all-append ms ns))
  ]

  run_loop-Scheduled :
      (n : ℕ) (ready : Bool) (attempts : List Attempt)
      → Scheduled n (run_loop w b (wait_at n) ready attempts).waits
  unfolding run_loop
  run_loop-Scheduled n ready [] = Scheduled-nil n
  run_loop-Scheduled n ready (a ∷ attempts) = elim (Bool-cases a.cancelled) [
    | inl e ↦ rw e (Scheduled-nil n)
    | inr e ↦ elim (Bool-cases a.cancelled_in_wait) [
      | inl f ↦ rw (e, f) (Scheduled-cons n [] (Scheduled-nil (suc n)))
      | inr f ↦
          let now = ready || a.subscribed in
          let rest =
            subst (λ k. Scheduled (suc n) (run_loop w b k now attempts).waits)
              (sym (next_backoff-wait_at n)) (run_loop-Scheduled (suc n) now attempts) in
          rw (e, f) (Scheduled-cons n _ rest)
    ]
  ]

  subscribe_once-filters :
      (a : Attempt)
      → subscribe_once w b a ≡ receive_all w b (if a.subscribed then a.received else [])
  unfolding receive_all
  subscribe_once-filters a = elim (Bool-cases a.subscribed) [
    | inl s ↦ rw s refl
    | inr s ↦ rw s refl
  ]

  last_round :
      (a : Attempt)
      → subscribe_once w b a ≡ receive_all w b ((if a.subscribed then a.received else []) ++ [])
  last_round a = subscribe_once-filters a ∙ ap (receive_all w b) (sym (append_nil _))

  run_loop-handled :
      (backoff : ℕ) (ready : Bool) (attempts : List Attempt)
      → ((run_loop w b backoff ready attempts).returned ≡ any ends attempts)
        × ((run_loop w b backoff ready attempts).handled ≡ receive_all w b (arrived attempts))
  unfolding run_loop arrived any receive_all
  run_loop-handled backoff ready [] = (refl, refl)
  run_loop-handled backoff ready (a ∷ attempts) = elim (Bool-cases a.cancelled) [
    | inl e ↦ rw e (refl, last_round a)
    | inr e ↦ elim (Bool-cases a.cancelled_in_wait) [
      | inl f ↦ rw (e, f) (refl, last_round a)
      | inr f ↦
          let rest = run_loop-handled (next_backoff backoff) (ready || a.subscribed) attempts in
          let now = if a.subscribed then a.received else [] in
          rw (e, f)
            (
              rest.0,
              ap₂ ◌++◌ (subscribe_once-filters a) rest.1
                  ∙ sym (receive_all-append now (arrived attempts)),
            )
    ]
  ]

  run-loop :
      (attempts : List Attempt) (t : Trace)
      → run w b attempts ≡ ok t
      → run_loop w b redis_min_backoff b.ready attempts ≡ t
  unfolding run
  run-loop attempts t = elim (Result-cases (Events.channel_pattern b.namespace)) [
    | inr (x, e) ↦ rw e (λ h. cc)
    | inl (pattern', e) ↦ rw e (λ h. ok-injective h)
  ]

  -- The loop returns exactly when the context is cancelled in some round, whatever fails before; and
  -- what it handed over by then is what passes the filter of all that arrived, in order, every event
  -- of it valid.
  pub run-handles :
      (attempts : List Attempt) (t : Trace)
      → run w b attempts ≡ ok t
      → (t.returned ≡ any ends attempts)
        × (t.handled ≡ receive_all w b (arrived attempts))
        × All IsValid t.handled
  run-handles attempts t h =
      let loop = run_loop-handled redis_min_backoff b.ready attempts in
      subst
        (λ (x : Trace).
          (x.returned ≡ any ends attempts)
          × (x.handled ≡ receive_all w b (arrived attempts))
          × All IsValid x.handled)
        (run-loop attempts t h)
        (loop.0, loop.1, rw loop.1 (receive_all-IsValid w b (arrived attempts)))

  -- The loop waits behind the round `i`, counted from 0, for 100 milliseconds times 2 to the `i`, and
  -- for 5 seconds at most.
  pub run-waits :
      (attempts : List Attempt) (t : Trace) (i d : ℕ)
      → run w b attempts ≡ ok t
      → get_elem? t.waits i ≡ some d
      → d ≡ min (100 * 2 ^ i) 5000
  run-waits attempts t i d h e =
      subst (λ (x : Trace). Scheduled 0 x.waits) (run-loop attempts t h)
        (run_loop-Scheduled 0 b.ready attempts) i d e
      ∙ ap wait_at (omega arith)
