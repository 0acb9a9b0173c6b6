-- ===== src/Hub/Remote/Window.antt =====
-- The window of remembered events, `seenEvents` and `seenEventIDs` of backend/hub.go.
use mathlib.Core.List.{append_assoc}
use chatster.Prelude.{
  Bool-cases, List, [], arith, contains, contains-append, eq_refl, false, inl, inr, length,
  length-append, ltb, ltb_false→le, ltb→lt, refl, subst, suc, sym, true, ℕ, ◌++◌, ◌+◌, ◌<◌, ◌==◌,
  ◌∙◌, ◌∷◌, ◌≡◌, ◌≤◌, nat_eq, list_eq,
}
use chatster.Text.{Text}
use chatster.Hub.State.{Hub, add_to_set, max_seen_broker_events}
use chatster.Hub.Remote.{evict_oldest, remember_broker_event}
use chatster.Hub.Remote.Seen.{
  Distinct-snoc, IsWindow, contains-add_to_set, evict-IsWindow, or_swap, or_true, remember-new,
}

-- Remembering keeps the list and the set the same, without repetition, within 4096 identifiers.
pub remember-IsWindow : (id : Text) (h : Hub) → IsWindow h → IsWindow (remember_broker_event id h).0
unfolding contains
remember-IsWindow id h v = elim (Bool-cases (contains h.seen_events id)) [
  | inl e ↦ unfold remember_broker_event in rw e v
  | inr e ↦
      let absent : contains h.seen_event_ids id ≡ false = sym (v.same id) ∙ e in
      let d = Distinct-snoc h.seen_event_ids id v.distinct absent in
      let n = length-append h.seen_event_ids (id ∷ []) in
      let s : (k : Text)
          → contains (add_to_set id h.seen_events) k ≡ contains (h.seen_event_ids ++ id ∷ []) k =
        λ k.
          contains-add_to_set id k h.seen_events
          ∙ rw (v.same k, contains-append h.seen_event_ids (id ∷ []) k)
              (or_swap (id == k) (contains h.seen_event_ids k)) in
      rw (remember-new id h e)
        (elim (Bool-cases (ltb max_seen_broker_events (length (h.seen_event_ids ++ id ∷ [])))) [
          | inl m ↦ rw m (
              evict-IsWindow (h.seen_event_ids ++ id ∷ []) (add_to_set id h.seen_events) h s d
                (omega (arith, v.bounded, n)))
          | inr m ↦
              rw m (record {
                same = s;
                distinct = d;
                bounded = ltb_false→le max_seen_broker_events _ m;
              })
        ])
]

-- The identifier is in the list, with at most `n` behind it.
pub record IsRecent (id : Text) (n : ℕ) (h : Hub) : Type 0 where
  pub older : List Text
  pub newer : List Text
  pub listed : h.seen_event_ids ≡ older ++ id ∷ newer
  pub near : length newer ≤ n

IsRecent-contains :
    (id : Text) (n : ℕ) (h : Hub) → IsRecent id n h → contains h.seen_event_ids id ≡ true
unfolding contains
IsRecent-contains id n h v =
    rw (v.listed, contains-append v.older (id ∷ v.newer) id, eq_refl id)
      (or_true (contains v.older id))

evict-IsRecent :
    (id x : Text) (n : ℕ) (older newer seen : List Text) (h : Hub)
    → length newer ≤ n
    → suc n < max_seen_broker_events
    → ltb max_seen_broker_events (length (older ++ id ∷ (newer ++ x ∷ []))) ≡ true
    → IsRecent id (suc n) (evict_oldest (older ++ id ∷ (newer ++ x ∷ [])) seen h)
unfolding evict_oldest
evict-IsRecent id x n [] newer seen h near few full =
    let big = ltb→lt max_seen_broker_events _ full in
    absurd (omega (arith, big, length-append newer (x ∷ [])))
evict-IsRecent id x n (y ∷ older) newer seen h near few full = record {
  older = older;
  newer = newer ++ x ∷ [];
  listed = refl;
  near = omega (arith, near, length-append newer (x ∷ []));
}

remember-IsRecent :
    (id x : Text) (n : ℕ) (h : Hub)
    → IsRecent id n h
    → suc n < max_seen_broker_events
    → IsRecent id (suc n) (remember_broker_event x h).0
remember-IsRecent id x n h v few = elim (Bool-cases (contains h.seen_events x)) [
  | inl e ↦
      unfold remember_broker_event in
      rw e (record {
        older = v.older;
        newer = v.newer;
        listed = v.listed;
        near = omega (arith, v.near);
      })
  | inr e ↦
      let grown : h.seen_event_ids ++ x ∷ [] ≡ v.older ++ id ∷ (v.newer ++ x ∷ []) =
        rw v.listed (append_assoc v.older (id ∷ v.newer) (x ∷ [])) in
      rw (remember-new x h e, grown)
        (elim (Bool-cases
          (ltb max_seen_broker_events (length (v.older ++ id ∷ (v.newer ++ x ∷ []))))) [
            | inl m ↦ rw m (evict-IsRecent id x n v.older v.newer _ h v.near few m)
            | inr m ↦ rw m (record {
              older = v.older;
              newer = v.newer ++ x ∷ [];
              listed = refl;
              near = omega (arith, v.near, length-append v.newer (x ∷ []));
            })
          ])
]

unfoldable pub remember_all : List Text → Hub → Hub
remember_all [] h = h
remember_all (x ∷ xs) h = remember_all xs (remember_broker_event x h).0

remember_all-IsRecent :
    (id : Text) (n : ℕ) (xs : List Text) (h : Hub)
    → IsRecent id n h
    → n + length xs < max_seen_broker_events
    → IsRecent id (n + length xs) (remember_all xs h)
unfolding remember_all
remember_all-IsRecent id n [] h v few = subst (λ k. IsRecent id k h) (omega arith) v
remember_all-IsRecent id n (x ∷ xs) h v few =
    let one = remember-IsRecent id x n h v (omega (arith, few)) in
    subst (λ k. IsRecent id k (remember_all xs (remember_broker_event x h).0)) (omega arith)
      (remember_all-IsRecent id (suc n) xs (remember_broker_event x h).0 one (omega (arith, few)))

remember_all-IsWindow : (xs : List Text) (h : Hub) → IsWindow h → IsWindow (remember_all xs h)
unfolding remember_all
remember_all-IsWindow [] h v = v
remember_all-IsWindow (x ∷ xs) h v =
    remember_all-IsWindow xs (remember_broker_event x h).0 (remember-IsWindow x h v)

evict-new :
    (id : Text) (older seen : List Text) (h : Hub)
    → ltb max_seen_broker_events (length (older ++ id ∷ [])) ≡ true
    → IsRecent id 0 (evict_oldest (older ++ id ∷ []) seen h)
unfolding evict_oldest
evict-new id [] seen h full =
    let big = ltb→lt max_seen_broker_events 1 full in absurd (omega (arith, big))
evict-new id (y ∷ older) seen h full = record {
  older = older;
  newer = [];
  listed = refl;
  near = omega arith;
}

accepted-absent :
    (id : Text) (h : Hub)
    → (remember_broker_event id h).1 ≡ true
    → contains h.seen_events id ≡ false
unfolding remember_broker_event
accepted-absent id h = elim (Bool-cases (contains h.seen_events id)) [
  | inl e ↦ rw e (λ (r : false ≡ true). cc)
  | inr e ↦ λ r. e
]

remember_new-IsRecent :
    (id : Text) (h : Hub)
    → contains h.seen_events id ≡ false
    → IsRecent id 0 (remember_broker_event id h).0
remember_new-IsRecent id h e =
    rw (remember-new id h e)
      (elim (Bool-cases (ltb max_seen_broker_events (length (h.seen_event_ids ++ id ∷ [])))) [
        | inl m ↦ rw m (evict-new id h.seen_event_ids (add_to_set id h.seen_events) h m)
        | inr m ↦
            rw m
              (record { older = h.seen_event_ids; newer = []; listed = refl; near = omega arith })
      ])

pub remember-seen :
    (id : Text) (h : Hub)
    → contains h.seen_events id ≡ true
    → remember_broker_event id h ≡ (h, false)
unfolding remember_broker_event
remember-seen id h e = rw e refl

seen-refused :
    (id : Text) (h : Hub)
    → contains h.seen_events id ≡ true
    → (remember_broker_event id h).1 ≡ false
unfolding remember_broker_event
seen-refused id h e = rw e refl

-- An event that was accepted is refused when it comes again after at most 4095 other events, however
-- much time has passed.
pub remember-duplicate :
    (id : Text) (others : List Text) (h : Hub)
    → IsWindow h
    → (remember_broker_event id h).1 ≡ true
    → length others < max_seen_broker_events
    → (remember_broker_event id (remember_all others (remember_broker_event id h).0)).1 ≡ false
remember-duplicate id others h v accepted few =
    let h' = (remember_broker_event id h).0 in
    let near =
      remember_all-IsRecent id 0 others h'
        (remember_new-IsRecent id h (accepted-absent id h accepted)) (omega (arith, few)) in
    let window = remember_all-IsWindow others h' (remember-IsWindow id h v) in
    seen-refused id (remember_all others h')
      (window.same id ∙ IsRecent-contains id (0 + length others) (remember_all others h') near)
