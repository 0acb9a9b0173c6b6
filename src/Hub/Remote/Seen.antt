-- ===== src/Hub/Remote/Seen.antt =====
-- The list and the set of the seen events of backend/hub.go.
use chatster.Prelude.{
  Bool, Bool-cases, Distinct, Eq, List, [], arith, contains, contains-append, eq_sym, eq→≡, false,
  if◌then◌else◌, inl, inr, length, ltb, not, refl, subst, suc, sym, true, ◌&&◌, ◌++◌, ◌==◌, ◌||◌,
  ◌∙◌, ◌∷◌, ◌≡◌, ◌≤◌, nat_eq, list_eq,
}
use chatster.Text.{Text}
use chatster.Hub.State.{Hub, add_to_set, delete, max_seen_broker_events}
use chatster.Hub.Remote.{evict_oldest, remember_broker_event}

-- The set holds the identifiers of the list, the list holds no identifier twice, and it is bounded.
pub record IsWindow (h : Hub) : Type 0 where
  pub same : (id : Text) → contains h.seen_events id ≡ contains h.seen_event_ids id
  pub distinct : Distinct h.seen_event_ids
  pub bounded : length h.seen_event_ids ≤ max_seen_broker_events

module _ {ℓ} {A : Type ℓ} ⦃e : Eq A⦄ where
  pub Distinct-snoc :
      (xs : List A) (r : A) → Distinct xs → contains xs r ≡ false → Distinct (xs ++ r ∷ [])
  unfolding contains
  Distinct-snoc [] r d h = (refl, tt)
  Distinct-snoc (x ∷ xs) r d h = (
    ground (arith, contains-append xs (r ∷ []) x, eq_sym x r),
    Distinct-snoc xs r d.1 (ground arith),
  )

  pub contains-add_to_set :
      (a k : A) (xs : List A) → contains (add_to_set a xs) k ≡ (a == k || contains xs k)
  unfolding contains add_to_set
  contains-add_to_set a k xs = elim (Bool-cases (contains xs a)) [
    | inl h ↦ rw h (elim (Bool-cases (a == k)) [
      | inl p ↦ rw p (subst (λ i. contains xs i ≡ true) (eq→≡ a k p) h)
      | inr p ↦ rw p refl
    ])
    | inr h ↦ rw h refl
  ]

  pub contains-delete_set :
      (a k : A) (xs : List A) → contains (delete a xs) k ≡ (contains xs k && not (a == k))
  unfolding contains delete
  contains-delete_set a k [] = refl
  contains-delete_set a k (x ∷ xs) = elim (Bool-cases (x == a)) [
    | inl p ↦ rw (p, eq→≡ x a p, contains-delete_set a k xs) (ground arith)
    | inr p ↦
        rw (p, contains-delete_set a k xs)
          (elim (Bool-cases (x == k)) [
            | inl q ↦ rw (q, sym (eq_sym k a), sym (eq→≡ x k q), p) refl
            | inr q ↦ rw q refl
          ])
  ]

-- Remembering an identifier that is new: the list grows at its end, and loses its first element if
-- it is longer than the bound.

pub remember-new :
    (id : Text) (h : Hub)
    → contains h.seen_events id ≡ false
    → remember_broker_event id h ≡ (
        if ltb max_seen_broker_events (length (h.seen_event_ids ++ id ∷ []))
        then (evict_oldest (h.seen_event_ids ++ id ∷ []) (add_to_set id h.seen_events) h, true)
        else (
          record h {
            seen_event_ids = h.seen_event_ids ++ id ∷ [];
            seen_events = add_to_set id h.seen_events;
          },
          true,
        ))
unfolding remember_broker_event
remember-new id h e = rw e refl

and_true_right : (b : Bool) → (b && true) ≡ b
and_true_right b = ground arith

pub or_swap : (a b : Bool) → (a || b) ≡ (b || (a || false))
or_swap a b = ground arith

pub or_true : (b : Bool) → (b || true) ≡ true
or_true b = ground arith

pub evict-IsWindow :
    (ids seen : List Text) (h : Hub)
    → ((k : Text) → contains seen k ≡ contains ids k)
    → Distinct ids
    → length ids ≤ suc max_seen_broker_events
    → IsWindow (evict_oldest ids seen h)
unfolding evict_oldest contains
evict-IsWindow [] seen h s d n = record { same = s; distinct = tt; bounded = omega arith }
evict-IsWindow (oldest ∷ rest) seen h s d n = record {
  same = λ k.
      contains-delete_set oldest k seen
      ∙ rw (s k) (elim (Bool-cases (oldest == k)) [
        | inl e ↦ rw e (sym (subst (λ i. contains rest i ≡ false) (eq→≡ oldest k e) d.0))
        | inr e ↦ rw e (and_true_right (contains rest k))
      ]);
  distinct = d.1;
  bounded = omega arith;
}
