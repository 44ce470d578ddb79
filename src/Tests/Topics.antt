-- ===== src/Tests/Topics.antt =====
-- Runs of the code of src/tpublisher.cpp.
use tf.Base.{◌≤◌, arith, ◌≡◌, refl, true, false, not, ◌&&◌, [], ◌∷◌, some, any, ◌==◌}
use tf.Base.Text.{Text, codes, eq}
use tf.Publisher.{
  Topics, is_some, or_true, subscribe, unsubscribe_from_all, publish, publish_pub, publish_to,
  except_of, emit, get, subscribe_pub, value_of, set_local,
}
use tf.SystemBus.{Message, op_code}
use tf.Publisher.Delivery.{Reached, nothing, subscribed, left, AllSynced, Reached-AllSynced}
use tf.Publisher.Flags.{flag_of, publish-receivers}

-- Socket 1 hears its own messages on the topic, and socket 2 does not; socket 3 has left.
abbrev chat : Topics
chat = unsubscribe_from_all (some 3) (
    subscribe (codes "chat") true (some 3)
      (subscribe (codes "chat") false (some 2) (subscribe (codes "chat") true (some 1) [])))

chat-Reached : Reached chat
chat-Reached = left (some 3) (
    subscribed (codes "chat") true (some 3)
      (subscribed (codes "chat") false (some 2) (subscribed (codes "chat") true (some 1) nothing)))

Reached-AllSynced_example : AllSynced chat
Reached-AllSynced_example = Reached-AllSynced chat-Reached

publish-receivers_example :
    any (λ d. d.0 == 2) (publish 1 (codes "chat") (codes "hi") (some 2) chat).1 ≡ (
      is_some (flag_of (codes "chat") 2 chat)
      && not (2 == 2 && not (or_true (flag_of (codes "chat") 2 chat))))
publish-receivers_example = publish-receivers 1 (codes "chat") (codes "hi") 2 2 chat chat-Reached

abbrev two_sockets : Topics
two_sockets = subscribe (codes "chat") false (some 2) (subscribe (codes "chat") true (some 1) [])

-- Socket 2 writes, and only socket 1 hears it.
publish-chat : (publish 1 (codes "chat") (codes "hi") (some 2) two_sockets).1 ≡ (1, codes "hi") ∷ []
unfolding publish publish_to publish_pub except_of emit get subscribe subscribe_pub value_of
    set_local eq
publish-chat = refl

abbrev same : Text → Text
same s = s

-- A text that comes over the bus, whose payload is the topic.
abbrev remote : Message
remote = record { first_byte = 0x83; payload = codes "chat"; valid = true }

remote-op_code : (3 ≤ op_code remote) × (op_code remote ≤ 4)
unfolding op_code
remote-op_code = (omega arith, omega arith)
