-- ===== src/Publisher.antt =====
-- src/tpublisher.h and src/tpublisher.cpp: topics to which WebSockets subscribe. A socket is the
-- number that stands for its address, and none is the null pointer. The receivers that are
-- connected to the signals of a topic are a list of their own, in the order of connection, since
-- the signals reach them and not the map of subscribers.
use tf.Base.{
  ℕ, ◌≡◌, Bool, true, false, not, ◌&&◌, ◌||◌, List, [], ◌∷◌, ◌++◌, Option, none, some, map, ◌==◌,
  if◌then◌else◌, ltb,
}
use tf.Base.Text.{Text, eq}
use tf.SystemBus as Bus
use tf.SystemBus.{Message}
pub mod Delivery
pub mod Flags

-- class Pub, without the name of the topic
pub record Pub : Type 0 where
  pub subscribers : List (ℕ × Bool)
  pub connected : List ℕ

abbrev pub new_pub : Pub
new_pub = record { subscribers = []; connected = [] }

unfoldable pub value_of : ℕ → List (ℕ × Bool) → Option Bool
value_of r [] = none
value_of r ((s, local) ∷ subs) = if s == r then some local else value_of r subs

abbrev pub is_some : Option Bool → Bool
is_some none = false
is_some (some b) = true

unfoldable pub set_local : ℕ → Bool → List (ℕ × Bool) → List (ℕ × Bool)
set_local r local [] = []
set_local r local ((s, l) ∷ subs) =
    if s == r then (s, local) ∷ subs else (s, l) ∷ set_local r local subs

-- Pub::subscribe(receiver, local)
unfoldable pub subscribe_pub : Option ℕ → Bool → Pub → Bool × Pub
subscribe_pub none local pub' = (false, pub')
subscribe_pub (some r) local pub' =
    if is_some (value_of r pub'.subscribers)
    then (true, record pub' { subscribers = set_local r local pub'.subscribers })
    else (
      true,
      record pub' {
        subscribers = pub'.subscribers ++ (r, local) ∷ [];
        connected = pub'.connected ++ r ∷ [];
      },
    )

unfoldable pub remove_subscriber : ℕ → List (ℕ × Bool) → List (ℕ × Bool)
remove_subscriber r [] = []
remove_subscriber r ((s, l) ∷ subs) =
    if s == r then remove_subscriber r subs else (s, l) ∷ remove_subscriber r subs

unfoldable pub disconnect : ℕ → List ℕ → List ℕ
disconnect r [] = []
disconnect r (s ∷ ss) = if s == r then disconnect r ss else s ∷ disconnect r ss

-- Pub::unsubscribe(receiver)
unfoldable pub unsubscribe_pub : Option ℕ → Pub → Bool × Pub
unsubscribe_pub none pub' = (false, pub')
unsubscribe_pub (some r) pub' = (
  true,
  record {
    subscribers = remove_subscriber r pub'.subscribers;
    connected = disconnect r pub'.connected;
  },
)

abbrev pub is_unused : List (ℕ × Bool) → Bool
is_unused [] = true
is_unused (s ∷ ss) = false

-- subscribers.value(sender, true); no subscriber is null.
abbrev pub or_true : Option Bool → Bool
or_true none = true
or_true (some local) = local

unfoldable pub except_of : Option ℕ → Pub → Option ℕ
except_of none pub' = none
except_of (some s) pub' = if or_true (value_of s pub'.subscribers) then none else some s

abbrev pub is_except : Option ℕ → ℕ → Bool
is_except none r = false
is_except (some s) r = s == r

-- The slots of the sockets: each connected one but the excepted one sends the message.
unfoldable pub emit {ℓ} : {A : Type ℓ} → A → Option ℕ → List ℕ → List (ℕ × A)
emit message except [] = []
emit message except (r ∷ rs) =
    if is_except except r then emit message except rs else (r, message) ∷ emit message except rs

-- Pub::publish(message, sender)
unfoldable pub publish_pub {ℓ} : {A : Type ℓ} → A → Option ℕ → Pub → List (ℕ × A)
publish_pub message sender pub' = emit message (except_of sender pub') pub'.connected

-- pubobj
abbrev pub Topics : Type 0
Topics = List (Text × Pub)

unfoldable pub get : Text → Topics → Option Pub
get topic [] = none
get topic ((t, pub') ∷ p) = if eq t topic then some pub' else get topic p

-- subscribe(topic, local, socket)
unfoldable pub subscribe : Text → Bool → Option ℕ → Topics → Topics
subscribe topic local socket [] = (topic, (subscribe_pub socket local new_pub).1) ∷ []
subscribe topic local socket ((t, pub') ∷ p) =
    if eq t topic
    then (t, (subscribe_pub socket local pub').1) ∷ p
    else (t, pub') ∷ subscribe topic local socket p

abbrev pub keep_used : Text → Pub → Topics → Topics
keep_used t pub' p = if is_unused pub'.subscribers then p else (t, pub') ∷ p

-- unsubscribe(topic, socket)
unfoldable pub unsubscribe : Text → Option ℕ → Topics → Topics
unsubscribe topic socket [] = []
unsubscribe topic socket ((t, pub') ∷ p) =
    if eq t topic
    then keep_used t (unsubscribe_pub socket pub').1 p
    else (t, pub') ∷ unsubscribe topic socket p

-- unsubscribeFromAll(socket)
unfoldable pub unsubscribe_from_all : Option ℕ → Topics → Topics
unsubscribe_from_all socket [] = []
unsubscribe_from_all socket ((t, pub') ∷ p) =
    keep_used t (unsubscribe_pub socket pub').1 (unsubscribe_from_all socket p)

unfoldable pub publish_to {ℓ} : {A : Type ℓ} → A → Option ℕ → Option Pub → List (ℕ × A)
publish_to message sender none = []
publish_to message sender (some pub') = publish_pub message sender pub'

-- publish(topic, message, socket): whether the message goes on the bus, and to which sockets.
unfoldable pub publish {ℓ} : {A : Type ℓ} → ℕ → Text → A → Option ℕ → Topics → Bool × List (ℕ × A)
publish servers topic message socket p = (ltb 1 servers, publish_to message socket (get topic p))

-- What the sockets are told to send: a text or a binary message.
pub data Sending : Type 0 where
  text : Text → Sending
  binary : Text → Sending

-- The target and the data that QDataStream reads from a payload, and QString::fromUtf8(), are
-- functions of Qt, and parameters.
module _ (target data' from_utf8 : Text → Text) where
  unfoldable pub receive_message : Message → Topics → List (ℕ × Sending)
  receive_message msg p =
      if Bus.op_code msg == 3
      then publish_to (text (from_utf8 (data' msg.payload))) none (get (target msg.payload) p)
      else if Bus.op_code msg == 4
      then publish_to (binary (data' msg.payload)) none (get (target msg.payload) p)
      else []

  -- receiveSystemBus(), with the messages that recvAll() returns.
  unfoldable pub receive_system_bus : List Message → Topics → List (ℕ × Sending)
  receive_system_bus [] p = []
  receive_system_bus (msg ∷ messages) p = receive_message msg p ++ receive_system_bus messages p
