-- ===== src/Broker/Filter.antt =====
-- What passes the filter of a subscription.
use chatster.Prelude.{
  All, Bool-cases, List, Option-cases, Result-cases, [], ap, eq_refl, eq→≡, inl, inr, ok, refl,
  some, some-injective, ◌==◌, ◌↔◌, ◌∙◌, ◌∷◌, ◌≡◌, nat_eq, list_eq,
}
use chatster.Text.{Unicode}
use chatster.Events.{Envelope, channel, validate}
use chatster.Events
use chatster.Events.Validity.{IsValid, validate-IsValid}
use chatster.Broker.{Packet, RedisFanout, Wire, receive, receive_all}

module _ ⦃u : Unicode⦄ {Options : Type 0} (w : Wire) (b : RedisFanout Options) where
  -- An event that passes.
  pub record Passes (m : Packet) (e : Envelope) : Type 0 where
    pub decoded : w.unmarshal m.payload ≡ some e
    pub valid : validate e ≡ ok tt
    pub on_channel : Events.channel b.namespace e.room ≡ ok m.channel

  pub receive-Passes : (m : Packet) (e : Envelope) → receive w b m ≡ some e → Passes m e
  unfolding receive
  receive-Passes m e = elim (Option-cases (w.unmarshal m.payload)) [
    | inl n ↦ rw (n, receive) (λ h. cc)
    | inr (d, s) ↦ elim (Result-cases (validate d)) [
      | inr (x, v) ↦ rw (s, receive, v) (λ h. cc)
      | inl (x, v) ↦ elim (Result-cases (Events.channel b.namespace d.room)) [
        | inr (y, c) ↦ rw (s, receive, v, c) (λ h. cc)
        | inl (c, k) ↦ elim (Bool-cases (c == m.channel)) [
          | inr o ↦ rw (s, receive, v, k, o) (λ h. cc)
          | inl o ↦
              rw (s, receive, v, k, o)
                (λ h.
                  let same : d ≡ e = some-injective d e h in
                  rw (← same) (record {
                    decoded = s;
                    valid = v;
                    on_channel = k ∙ ap ok (eq→≡ c m.channel o);
                  }))
        ]
      ]
    ]
  ]

  pub Passes-receive : (m : Packet) (e : Envelope) → Passes m e → receive w b m ≡ some e
  unfolding receive
  Passes-receive m e v = rw (v.decoded, receive, v.valid, v.on_channel, eq_refl m.channel) refl

  -- A subscription hands over the event that a message encodes, if it is valid and the message came
  -- on the channel of its room, and nothing otherwise.
  pub receive-filters : (m : Packet) (e : Envelope) → (receive w b m ≡ some e) ↔ Passes m e
  receive-filters m e = (receive-Passes m e, Passes-receive m e)

  -- All events that are handed over are valid.
  pub receive_all-IsValid : (ms : List Packet) → All IsValid (receive_all w b ms)
  unfolding receive_all
  receive_all-IsValid [] = tt
  receive_all-IsValid (m ∷ ms) = elim (Option-cases (receive w b m)) [
    | inl n ↦ rw (n, receive_all) (receive_all-IsValid ms)
    | inr (e, s) ↦
        rw (s, receive_all)
          (validate-IsValid e ((receive-Passes m e s).valid), receive_all-IsValid ms)
  ]
