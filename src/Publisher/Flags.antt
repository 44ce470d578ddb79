-- ===== src/Publisher/Flags.antt =====
-- The subscriptions of src/tpublisher.cpp as a map from topics and sockets to flags, and whom a
-- message reaches by that map.
use tf.Base.{
  ◌≤◌, ℕ, ◌≡◌, refl, ap, ◌∙◌, Bool, true, false, not, ◌&&◌, List, [], ◌∷◌, ◌++◌, Option, none, some,
  map, any, ◌==◌, if◌then◌else◌, arith, inl, inr, Bool-cases,
}
use tf.Base.Text.{Text, eq, eq_iff}
use tf.Publisher.{
  Pub, Topics, new_pub, value_of, is_some, set_local, subscribe_pub, or_true, except_of, is_except,
  emit, publish_pub, get, subscribe, publish_to, publish,
}
use tf.SystemBus.{Message, op_code}
use tf.Publisher.{text, binary, receive_message}
use tf.Publisher.Delivery.{IsSynced, AllSynced, Reached, Reached-AllSynced}

-- The flag with which a socket is subscribed to a topic.
abbrev pub flag_in : ℕ → Option Pub → Option Bool
flag_in r none = none
flag_in r (some q) = value_of r q.subscribers

unfoldable pub flag_of : Text → ℕ → Topics → Option Bool
flag_of topic r p = flag_in r (get topic p)

value_of-set_local :
    (r s : ℕ) (local : Bool) (subs : List (ℕ × Bool))
    → is_some (value_of r subs) ≡ true
    → value_of s (set_local r local subs) ≡ (if r == s then some local else value_of s subs)
unfolding value_of set_local
value_of-set_local r s local [] h = cc
value_of-set_local r s local ((t, l) ∷ subs) h = ground (arith, value_of-set_local r s local subs)

value_of-append :
    (r s : ℕ) (local : Bool) (subs : List (ℕ × Bool))
    → is_some (value_of r subs) ≡ false
    → value_of s (subs ++ (r, local) ∷ []) ≡ (if r == s then some local else value_of s subs)
unfolding value_of
value_of-append r s local [] h = refl
value_of-append r s local ((t, l) ∷ subs) h = ground (arith, value_of-append r s local subs)

value_of-subscribe_pub :
    (r s : ℕ) (local : Bool) (q : Pub)
    → value_of s (subscribe_pub (some r) local q).1.subscribers
      ≡ (if r == s then some local else value_of s q.subscribers)
unfolding subscribe_pub
value_of-subscribe_pub r s local q = elim (Bool-cases (is_some (value_of r q.subscribers))) [
  | inl e ↦ rw e (value_of-set_local r s local q.subscribers e)
  | inr e ↦ rw e (value_of-append r s local q.subscribers e)
]

eq-same : (t a b : Text) → eq t a ≡ true → eq t b ≡ eq a b
eq-same t a b e = ap (λ x. eq x b) ((eq_iff t a).0 e)

eq-other : (t a b : Text) → eq t a ≡ false → eq t b ≡ true → eq a b ≡ false
eq-other t a b e h = elim (Bool-cases (eq a b)) [
  | inl same ↦ let ends = (eq_iff t b).0 h in let starts = (eq_iff a b).0 same in absurd (cc)
  | inr other ↦ other
]

-- After subscribe() the socket is subscribed to the topic with the flag that was given, and no
-- other subscription, to this or to another topic, has changed.
pub flag_of-subscribe :
    (topic topic' : Text) (local : Bool) (r r' : ℕ) (p : Topics)
    → flag_of topic' r' (subscribe topic local (some r) p)
      ≡ (if eq topic topic' && r == r' then some local else flag_of topic' r' p)
unfolding flag_of subscribe get value_of
flag_of-subscribe topic topic' local r r' [] = elim (Bool-cases (eq topic topic')) [
  | inl e ↦ rw e (value_of-subscribe_pub r r' local new_pub)
  | inr e ↦ rw e
]
flag_of-subscribe topic topic' local r r' ((t, q) ∷ p) = elim (Bool-cases (eq t topic)) [
  | inl e ↦ ground (arith, value_of-subscribe_pub r r' local q, eq-same t topic topic' e)
  | inr e ↦ ground (arith, flag_of-subscribe topic topic' local r r' p, eq-other t topic topic' e)
]

any-emit {ℓ} :
    {A : Type ℓ} (message : A) (except : Option ℕ) (r : ℕ) (rs : List ℕ)
    → any (λ d. d.0 == r) (emit message except rs)
      ≡ (any (λ c. c == r) rs && not (is_except except r))
unfolding emit
any-emit message except r [] = refl
any-emit message none r (s ∷ rs) = ground (arith, any-emit message none r rs)
any-emit message (some x) r (s ∷ rs) = elim (Bool-cases (x == s)) [
  | inl e ↦ rw e (ground (arith, any-emit message (some x) r rs))
  | inr e ↦ rw e (ground (arith, any-emit message (some x) r rs))
]

any-map :
    (r : ℕ) (subs : List (ℕ × Bool))
    → any (λ c. c == r) (map (λ s. s.0) subs) ≡ is_some (value_of r subs)
unfolding value_of
any-map r [] = refl
any-map r ((s, l) ∷ subs) = ground (arith, any-map r subs)

is_except-except_of :
    (s r : ℕ) (q : Pub)
    → is_except (except_of (some s) q) r ≡ (s == r && not (or_true (value_of s q.subscribers)))
unfolding except_of
is_except-except_of s r q = elim (Bool-cases (or_true (value_of s q.subscribers))) [
  | inl e ↦ rw e (ground arith)
  | inr e ↦ rw e (ground arith)
]

any-publish_pub {ℓ} :
    {A : Type ℓ} (message : A) (s r : ℕ) (q : Pub)
    → IsSynced q
    → any (λ d. d.0 == r) (publish_pub message (some s) q) ≡ (
        is_some (value_of r q.subscribers)
        && not (s == r && not (or_true (value_of s q.subscribers))))
unfolding publish_pub
any-publish_pub message s r q h =
    any-emit message (except_of (some s) q) r q.connected
    ∙ ap (λ b. b && not (is_except (except_of (some s) q) r))
        (ap (λ c. any (λ x. x == r) c) h ∙ any-map r q.subscribers)
    ∙ ap (λ b. is_some (value_of r q.subscribers) && not b) (is_except-except_of s r q)

IsSyncedAt : Option Pub → Type 0
IsSyncedAt none = Unit
IsSyncedAt (some q) = IsSynced q

get-IsSyncedAt : (topic : Text) (p : Topics) → AllSynced p → IsSyncedAt (get topic p)
unfolding IsSyncedAt get
get-IsSyncedAt topic [] h = tt
get-IsSyncedAt topic ((t, q) ∷ p) (h, hs) = elim (Bool-cases (eq t topic)) [
  | inl e ↦ rw e h
  | inr e ↦ rw e (get-IsSyncedAt topic p hs)
]

any-publish_to {ℓ} :
    {A : Type ℓ} (message : A) (s r : ℕ) (q : Option Pub)
    → IsSyncedAt q
    → any (λ d. d.0 == r) (publish_to message (some s) q)
      ≡ (is_some (flag_in r q) && not (s == r && not (or_true (flag_in s q))))
unfolding publish_to IsSyncedAt
any-publish_to message s r none h = refl
any-publish_to message s r (some q) h = any-publish_pub message s r q h

-- In every state that is reached, a message that a socket publishes goes to the subscribers of the
-- topic, and to no other socket; the sender gets it only if it is subscribed with the local flag.
pub publish-receivers {ℓ} :
    {A : Type ℓ} (servers : ℕ) (topic : Text) (message : A) (s r : ℕ) (p : Topics)
    → Reached p
    → any (λ d. d.0 == r) (publish servers topic message (some s) p).1
      ≡ (is_some (flag_of topic r p) && not (s == r && not (or_true (flag_of topic s p))))
unfolding publish flag_of
publish-receivers servers topic message s r p h =
    any-publish_to message s r (get topic p) (get-IsSyncedAt topic p (Reached-AllSynced h))

any-publish_to_all {ℓ} :
    {A : Type ℓ} (message : A) (r : ℕ) (q : Option Pub)
    → IsSyncedAt q
    → any (λ d. d.0 == r) (publish_to message none q) ≡ is_some (flag_in r q)
unfolding publish_to publish_pub except_of IsSyncedAt
any-publish_to_all message r none h = refl
any-publish_to_all message r (some q) h =
    any-emit message none r q.connected
    ∙ ap (λ c. any (λ x. x == r) c && true) h
    ∙ ap (λ b. b && true) (any-map r q.subscribers)
    ∙ and-true (is_some (value_of r q.subscribers))
  where
    and-true : (b : Bool) → (b && true) ≡ b
    and-true true = refl
    and-true false = refl

-- A message of the bus that publishes a text or a binary goes to every subscriber of its target, in
-- every state that is reached, and to no other socket.
pub receive_message-receivers :
    (target data' from_utf8 : Text → Text) (msg : Message) (r : ℕ) (p : Topics)
    → Reached p
    → 3 ≤ op_code msg
    → op_code msg ≤ 4
    → any (λ d. d.0 == r) (receive_message target data' from_utf8 msg p)
      ≡ is_some (flag_of (target msg.payload) r p)
unfolding receive_message flag_of
receive_message-receivers target data' from_utf8 msg r p h lo hi =
    let synced = get-IsSyncedAt (target msg.payload) p (Reached-AllSynced h) in
    elim (Bool-cases (op_code msg == 3)) [
      | inl e ↦ rw e (
          any-publish_to_all (text (from_utf8 (data' msg.payload))) r (get (target msg.payload) p)
            synced)
      | inr e ↦
          let is_binary : (op_code msg == 4) ≡ true = ground arith in
          rw (e, is_binary)
            (any-publish_to_all (binary (data' msg.payload)) r (get (target msg.payload) p) synced)
    ]
