-- ===== src/Publisher/Delivery.antt =====
-- Whom a message that is published reaches, for src/tpublisher.cpp.
use tf.Base.{
  ℕ, ◌≡◌, refl, sym, ap, ◌∙◌, Bool, List, [], ◌∷◌, ◌++◌, Option, none, some, map, arith, inl, inr,
  Bool-cases, All,
}
use tf.Base.Text.{Text, eq}
use tf.Publisher.{
  Pub, Topics, new_pub, value_of, is_some, set_local, subscribe_pub, remove_subscriber, disconnect,
  unsubscribe_pub, is_unused, subscribe, keep_used, unsubscribe, unsubscribe_from_all,
}

-- The signals of a topic reach just its subscribers.
abbrev pub IsSynced : Pub → Type 0
IsSynced p = p.connected ≡ map (λ s. s.0) p.subscribers

map-append :
    (xs ys : List (ℕ × Bool)) → map (λ s. s.0) (xs ++ ys) ≡ map (λ s. s.0) xs ++ map (λ s. s.0) ys
map-append [] ys = refl
map-append (x ∷ xs) ys = ap (λ t. x.0 ∷ t) (map-append xs ys)

map-set_local :
    (r : ℕ) (local : Bool) (subs : List (ℕ × Bool))
    → map (λ s. s.0) (set_local r local subs) ≡ map (λ s. s.0) subs
unfolding set_local
map-set_local r local [] = refl
map-set_local r local ((s, l) ∷ subs) = ground (arith, map-set_local r local subs)

disconnect-map :
    (r : ℕ) (subs : List (ℕ × Bool))
    → disconnect r (map (λ s. s.0) subs) ≡ map (λ s. s.0) (remove_subscriber r subs)
unfolding disconnect remove_subscriber
disconnect-map r [] = refl
disconnect-map r ((s, l) ∷ subs) = ground (arith, disconnect-map r subs)

subscribe_pub-IsSynced :
    (socket : Option ℕ) (local : Bool) (p : Pub)
    → IsSynced p
    → IsSynced (subscribe_pub socket local p).1
unfolding subscribe_pub
subscribe_pub-IsSynced none local p h = h
subscribe_pub-IsSynced (some r) local p h = elim (Bool-cases (is_some (value_of r p.subscribers))) [
  | inl e ↦ rw e (h ∙ sym (map-set_local r local p.subscribers))
  | inr e ↦ rw e (ap (λ c. c ++ r ∷ []) h ∙ sym (map-append p.subscribers ((r, local) ∷ [])))
]

unsubscribe_pub-IsSynced :
    (socket : Option ℕ) (p : Pub) → IsSynced p → IsSynced (unsubscribe_pub socket p).1
unfolding unsubscribe_pub
unsubscribe_pub-IsSynced none p h = h
unsubscribe_pub-IsSynced (some r) p h = ap (λ c. disconnect r c) h ∙ disconnect-map r p.subscribers

-- The states that the operations of the publisher lead to.
pub data Reached : Topics → Type 0 where
  nothing : Reached []
  subscribed :
      {p : Topics} (topic : Text) (local : Bool) (socket : Option ℕ)
      → Reached p
      → Reached (subscribe topic local socket p)
  unsubscribed :
      {p : Topics} (topic : Text) (socket : Option ℕ)
      → Reached p
      → Reached (unsubscribe topic socket p)
  left : {p : Topics} (socket : Option ℕ) → Reached p → Reached (unsubscribe_from_all socket p)

abbrev pub AllSynced : Topics → Type 0
AllSynced p = All (λ t. IsSynced t.1) p

subscribe-AllSynced :
    (topic : Text) (local : Bool) (socket : Option ℕ) (p : Topics)
    → AllSynced p
    → AllSynced (subscribe topic local socket p)
unfolding subscribe
subscribe-AllSynced topic local socket [] h = (subscribe_pub-IsSynced socket local new_pub refl, tt)
subscribe-AllSynced topic local socket ((t, q) ∷ p) (h, hs) = elim (Bool-cases (eq t topic)) [
  | inl e ↦ rw e (subscribe_pub-IsSynced socket local q h, hs)
  | inr e ↦ rw e (h, subscribe-AllSynced topic local socket p hs)
]

keep_used-AllSynced :
    (t : Text) (q : Pub) (p : Topics) → IsSynced q → AllSynced p → AllSynced (keep_used t q p)
keep_used-AllSynced t q p h hs = elim (Bool-cases (is_unused q.subscribers)) [
  | inl e ↦ rw e hs
  | inr e ↦ rw e (h, hs)
]

unsubscribe-AllSynced :
    (topic : Text) (socket : Option ℕ) (p : Topics)
    → AllSynced p
    → AllSynced (unsubscribe topic socket p)
unfolding unsubscribe
unsubscribe-AllSynced topic socket [] h = tt
unsubscribe-AllSynced topic socket ((t, q) ∷ p) (h, hs) = elim (Bool-cases (eq t topic)) [
  | inl e ↦ rw e (keep_used-AllSynced t _ p (unsubscribe_pub-IsSynced socket q h) hs)
  | inr e ↦ rw e (h, unsubscribe-AllSynced topic socket p hs)
]

unsubscribe_from_all-AllSynced :
    (socket : Option ℕ) (p : Topics) → AllSynced p → AllSynced (unsubscribe_from_all socket p)
unfolding unsubscribe_from_all
unsubscribe_from_all-AllSynced socket [] h = tt
unsubscribe_from_all-AllSynced socket ((t, q) ∷ p) (h, hs) =
    keep_used-AllSynced t _ _ (unsubscribe_pub-IsSynced socket q h)
      (unsubscribe_from_all-AllSynced socket p hs)

-- However sockets have subscribed and unsubscribed, the receivers that are connected to the signals
-- of a topic are just those in its map of subscribers.
pub Reached-AllSynced : {p : Topics} → Reached p → AllSynced p
Reached-AllSynced nothing = tt
Reached-AllSynced (subscribed {p} topic local socket h) =
    subscribe-AllSynced topic local socket p (Reached-AllSynced h)
Reached-AllSynced (unsubscribed {p} topic socket h) =
    unsubscribe-AllSynced topic socket p (Reached-AllSynced h)
Reached-AllSynced (left {p} socket h) =
    unsubscribe_from_all-AllSynced socket p (Reached-AllSynced h)
