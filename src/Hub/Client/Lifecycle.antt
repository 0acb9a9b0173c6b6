-- ===== src/Hub/Client/Lifecycle.antt =====
-- The writer of a client and the deadline of its reads, of backend/client.go: `writeMessages` and
-- `nextReadDeadline`. The websocket is an argument: whether a write succeeds.
use chatster.Prelude.{
  Bool, List, Option, [], ap, arith, eq_false, false, if-elim, if◌then◌else◌, inl, inr, ltb, none,
  not, refl, some, suc, sym, take, true, zero, ℕ, ◌&&◌, ◌+◌, ◌==◌, ◌∙◌, ◌∷◌, ◌≡◌, ◌≢◌, ◌≤◌, ◌⊎◌,
  nat_eq, list_eq,
}
use chatster.Db.Rows.{Message, Time}
use chatster.Hub.State.{Client, close_client}

-- 60 seconds in nanoseconds
abbrev pub pong_wait : Time
pong_wait = 60000000000

unfoldable pub next_read_deadline : Time → Client → Time
next_read_deadline now c =
    let deadline = now + pong_wait in
    if not (c.auth_expires_at == 0) && ltb c.auth_expires_at deadline
    then c.auth_expires_at
    else deadline

-- One round of the writer: the client, and the message that was written. It waits while nothing is
-- queued.
unfoldable pub write_next : Bool → Client → Client × Option Message
write_next succeeds c = if c.done then (c, none) else elim c.send [
  | [] ↦ (c, none)
  | m ∷ rest ↦
      if succeeds
      then (record c { send = rest }, some m)
      else (close_client (record c { send = rest }), none)
]

-- The writer over several rounds, while nobody else queues a message or closes the client, with what
-- it wrote.
unfoldable pub write_messages : List Bool → Client → Client × List Message
write_messages [] c = (c, [])
write_messages (succeeds ∷ rounds) c =
    let (c', written) = write_next succeeds c in
    let (c'', later) = write_messages rounds c' in
    (c'', elim written [ none ↦ later | some m ↦ m ∷ later ])

-- No read of a client waits beyond the end of its session.
pub next_read_deadline-expires :
    (now : Time) (c : Client) → c.auth_expires_at ≢ 0 → next_read_deadline now c ≤ c.auth_expires_at
unfolding next_read_deadline
next_read_deadline-expires now c n =
    if-elim (λ (t : Time). t ≤ c.auth_expires_at)
      (not (c.auth_expires_at == 0) && ltb c.auth_expires_at (now + pong_wait)) (λ b. omega arith)
      (λ b. not_earlier (rw (eq_false c.auth_expires_at 0 n) refl ∙ b))
  where
    not_earlier :
        ltb c.auth_expires_at (now + pong_wait) ≡ false → now + pong_wait ≤ c.auth_expires_at
    not_earlier h = ground arith

idle :
    (succeeds : Bool) (c : Client)
    → (c.done ≡ true) ⊎ (c.send ≡ [])
    → write_next succeeds c ≡ (c, none)
unfolding write_next
idle succeeds c (inl closed) = simp (closed)
idle succeeds c (inr empty) =
    if-elim (λ (x : Client × Option Message). x ≡ (c, none)) c.done (λ closed. refl)
      (λ running. simp (empty))

written :
    (c : Client) (m : Message) (rest : List Message)
    → c.done ≡ false
    → c.send ≡ m ∷ rest
    → write_next true c ≡ (record c { send = rest }, some m)
unfolding write_next
written c m rest running e = simp (running, e)

failed :
    (c : Client) (m : Message) (rest : List Message)
    → c.done ≡ false
    → c.send ≡ m ∷ rest
    → write_next false c ≡ (close_client (record c { send = rest }), none)
unfolding write_next
failed c m rest running e = simp (running, e)

abbrev written_after : List Bool → Client × Option Message → List Message
written_after rounds o = elim o.1 [
  | none ↦ (write_messages rounds o.0).1
  | some m ↦ m ∷ (write_messages rounds o.0).1
]

one_round :
    (succeeds : Bool) (rounds : List Bool) (c : Client) (o : Client × Option Message)
    → write_next succeeds c ≡ o
    → (write_messages (succeeds ∷ rounds) c).1 ≡ written_after rounds o
unfolding write_messages
one_round succeeds rounds c o = ap (written_after rounds)

-- A closed client is written nothing.
write_messages-closed :
    (rounds : List Bool) (c : Client) → c.done ≡ true → (write_messages rounds c).1 ≡ []
unfolding write_messages
write_messages-closed [] c closed = refl
write_messages-closed (succeeds ∷ rounds) c closed =
    one_round succeeds rounds c (c, none) (idle succeeds c (inl closed))
    ∙ write_messages-closed rounds c closed

take_nil : (n : ℕ) → take {A = Message} n [] ≡ []
take_nil zero = refl
take_nil (suc n) = refl

-- How many writes succeed before one fails.
abbrev pub successes : List Bool → ℕ
successes [] = 0
successes (true ∷ rounds) = suc (successes rounds)
successes (false ∷ rounds) = 0

-- An open client is written its queue in order, one message for each write that succeeds before the
-- first failure, and nothing after it.
pub write_messages-take :
    (rounds : List Bool) (c : Client)
    → c.done ≡ false
    → (write_messages rounds c).1 ≡ take (successes rounds) c.send
unfolding write_messages
write_messages-take [] c running = refl
write_messages-take (succeeds ∷ rounds) c running =
    from_queue (write_messages-take rounds) succeeds c.send refl
  where
    from_queue :
        ((c' : Client)
          → c'.done ≡ false
          → (write_messages rounds c').1 ≡ take (successes rounds) c'.send)
        → (b : Bool) (q : List Message) → c.send ≡ q
        → (write_messages (b ∷ rounds) c).1 ≡ take (successes (b ∷ rounds)) c.send
    from_queue again b [] e =
        one_round b rounds c (c, none) (idle b c (inr e))
        ∙ again c running
        ∙ ap (take (successes rounds)) e
        ∙ take_nil (successes rounds)
        ∙ sym (ap (take (successes (b ∷ rounds))) e ∙ take_nil (successes (b ∷ rounds)))
    from_queue again true (m ∷ q) e =
        let c' : Client = record c { send = q } in
        one_round true rounds c (c', some m) (written c m q running e)
        ∙ ap (λ (l : List Message). m ∷ l) (again c' running)
        ∙ sym (ap (take (suc (successes rounds))) e)
    from_queue again false (m ∷ q) e =
        let c' : Client = close_client (record c { send = q }) in
        one_round false rounds c (c', none) (failed c m q running e)
        ∙ write_messages-closed rounds c' refl
