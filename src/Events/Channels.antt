-- ===== src/Events/Channels.antt =====
-- Channel names of rooms and namespaces, of backend/internal/events/envelope.go.
use chatster.Prelude.{
  >>=-ok, Bool-cases, Result-cases, [], all, ap, arith, contains, false, inl, inr, is_nil,
  is_nil_of_ne, length, le→ltb_false, ltb, ltb_false→le, ne_nil_of_is_nil, ok, ok-injective, refl,
  some-injective, sym, true, ℕ, ◌++◌, ◌∙◌, ◌∷◌, ◌≡◌, ◌≢◌, ◌≤◌, nat_eq, list_eq,
}
use chatster.Text.{Text, Unicode, codes, cut, strip_prefix, to_lower, trim_space}
use chatster.Text.Laws.{is_token_rune, to_lower-token, trim_space-token}
use chatster.Text.Append.{contains-token, cut-append, strip_prefix-append}
use chatster.Db.Room.{normalize_room}
use chatster.Events.{channel, check_lowered_token, check_token, max_token_runes, normalize_token}

-- A normalised token: 1 to 64 lower-case letters, digits, `_` and `-`.
pub record IsToken (t : Text) : Type 0 where
  pub runes : all is_token_rune t ≡ true
  pub given : t ≢ []
  pub fits : length t ≤ max_token_runes

check_token-ok :
    (value s out : Text)
    → check_token value s ≡ ok out
    → (out ≡ value) × (all is_token_rune s ≡ true)
unfolding check_token all
check_token-ok value [] out h = (cc, refl)
check_token-ok value (r ∷ rs) out h = ground (arith, check_token-ok value rs out)

check_token-accepts : (value s : Text) → all is_token_rune s ≡ true → check_token value s ≡ ok value
unfolding check_token all
check_token-accepts value [] h = refl
check_token-accepts value (r ∷ rs) h = ground (arith, check_token-accepts value rs)

check_lowered_token-IsToken :
    (s out : Text) → check_lowered_token s ≡ ok out → (out ≡ s) × IsToken out
unfolding check_lowered_token
check_lowered_token-IsToken s out h = elim (Bool-cases (is_nil s)) [
  | inl e ↦ cc (rw e at h)
  | inr e ↦ elim (Bool-cases (ltb max_token_runes (length s))) [
    | inl k ↦ cc (rw (e, k) at h)
    | inr k ↦
        let (same, runes) = check_token-ok s s out (rw (e, k) at h) in
        (
          same,
          rw same (record {
            runes = runes;
            given = ne_nil_of_is_nil s e;
            fits = ltb_false→le max_token_runes (length s) k;
          }),
        )
  ]
]

strip-injective : (p s t : Text) → p ++ s ≡ p ++ t → s ≡ t
strip-injective p s t e =
    some-injective s t
      (sym (strip_prefix-append p s) ∙ ap (strip_prefix p) e ∙ strip_prefix-append p t)

-- A separator that occurs in neither first part splits a text in one way.
cut-injective :
    (sep : ℕ) (a a' s s' : Text)
    → contains a sep ≡ false
    → contains a' sep ≡ false
    → a ++ sep ∷ s ≡ a' ++ sep ∷ s'
    → (a ≡ a') × (s ≡ s')
cut-injective sep a a' s s' h h' e =
    let same =
      some-injective (a, s) (a', s')
        (sym (cut-append sep a s h) ∙ ap (cut sep) e ∙ cut-append sep a' s' h') in
    (ap (λ (x : Text × Text). x.0) same, ap (λ (x : Text × Text). x.1) same)

IsToken-no_colon : (t : Text) → IsToken t → contains t b':' ≡ false
unfolding is_token_rune
IsToken-no_colon t v = contains-token t b':' refl v.runes

parts-injective :
    (n n' r r' : Text)
    → IsToken n
    → IsToken n'
    → codes "chatster:v1:" ++ (n ++ (codes ":room:" ++ r))
      ≡ codes "chatster:v1:" ++ (n' ++ (codes ":room:" ++ r'))
    → (n ≡ n') × (r ≡ r')
parts-injective n n' r r' v v' e =
    let e₁ =
      strip-injective (codes "chatster:v1:") (n ++ (codes ":room:" ++ r))
        (n' ++ (codes ":room:" ++ r')) e in
    let e₂ =
      cut-injective b':' n n' (codes "room:" ++ r) (codes "room:" ++ r') (IsToken-no_colon n v)
        (IsToken-no_colon n' v') e₁ in
    (e₂.0, strip-injective (codes "room:") r r' e₂.1)

module _ ⦃u : Unicode⦄ where
  pub normalize_token-IsToken : (t out : Text) → normalize_token t ≡ ok out → IsToken out
  unfolding normalize_token
  normalize_token-IsToken t out h = (check_lowered_token-IsToken (to_lower (trim_space t)) out h).1

  pub normalize_token-of_IsToken : {t : Text} → IsToken t → normalize_token t ≡ ok t
  unfolding normalize_token check_lowered_token
  normalize_token-of_IsToken {t} v =
      rw
        (
          trim_space-token t v.runes,
          to_lower-token t v.runes,
          is_nil_of_ne t v.given,
          le→ltb_false _ _ v.fits,
        )
        (check_token-accepts t t v.runes)

  -- The parts of a channel name.
  pub record IsChannel (namespace text c : Text) : Type 0 where
    pub ns : Text
    pub room : Text
    pub ns_normal : normalize_token namespace ≡ ok ns
    pub room_normal : normalize_room text ≡ ok room
    pub named : c ≡ codes "chatster:v1:" ++ (ns ++ (codes ":room:" ++ room))

  channel-IsChannel :
      (namespace text c : Text) → channel namespace text ≡ ok c → IsChannel namespace text c
  unfolding channel
  channel-IsChannel namespace text c h =
      let (ns, k, h₁) = >>=-ok (normalize_token namespace) _ h in
      elim (Result-cases (normalize_room text)) [
        | inr (e, m) ↦ cc (rw (m, channel, k) at h)
        | inl (room, m) ↦ record {
          ns = ns;
          room = room;
          ns_normal = k;
          room_normal = m;
          named = sym (ok-injective (rw (k, channel, m) at h));
        }
      ]

  -- Two namespaces and rooms have one channel only if the namespaces normalise to one token and the
  -- rooms to one room.
  pub channel-injective :
      (namespace namespace' text text' c : Text)
      → channel namespace text ≡ ok c
      → channel namespace' text' ≡ ok c
      → (normalize_token namespace ≡ normalize_token namespace')
        × (normalize_room text ≡ normalize_room text')
  channel-injective namespace namespace' text text' c h k =
      let a = channel-IsChannel namespace text c h in
      let b = channel-IsChannel namespace' text' c k in
      let same =
        parts-injective a.ns b.ns a.room b.room (normalize_token-IsToken namespace a.ns a.ns_normal)
          (normalize_token-IsToken namespace' b.ns b.ns_normal) (sym a.named ∙ b.named) in
      (
        a.ns_normal ∙ ap ok same.0 ∙ sym b.ns_normal,
        a.room_normal ∙ ap ok same.1 ∙ sym b.room_normal,
      )
