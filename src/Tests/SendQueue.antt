-- ===== src/Tests/SendQueue.antt =====
-- helper/send_queue.c on a queue of one and two messages.
use oma_q.Prelude.{ℕ, ◌+◌, ◌≡◌, refl, true, false, none, some, [], replicate, arith}
use oma_q.Prelude.Bytes.{Bytes, codes}
use oma_q.Prelude.Int.{pos}
use oma_q.SendQueue.Invariant.{Inv, init-Inv, add-Inv, add_accepts, add_unchanged, HasSeq}
use oma_q.SendQueue.Order.{Waits, oldest_lem, oldest-add}
use oma_q.SendQueue.Service.Passes.{Passed, service_loop_total, service_send_queue_total}
use oma_q.SendQueue.Service.{Host, Link, Service, service_loop, service_send_queue}
use oma_q.SendQueue.{
  Entry, SendQueue, count_peer, place, member, oldest_from, Message, added, invalid, init, add,
  oldest, message_ok, entry_of, peer_count,
}

abbrev key : Bytes
key = replicate 64 b'a'

abbrev hello : Message
hello = record {
  owner = pos 3;
  friend_number = 7;
  conversation = codes "7";
  self_key = key;
  peer_key = key;
  request = codes "r1";
  reply = none;
  text = codes "hi";
}

abbrev later : Message
later = record hello { text = codes "again" }

abbrev one : SendQueue
one = (add init hello (pos 1000)).1

hello_added : (add init hello (pos 1000)).0 ≡ added
unfolding add init message_ok count_peer place
hello_added = refl

bad_key : (add init (record hello { self_key = [] }) (pos 1)).0 ≡ invalid
unfolding add message_ok
bad_key = refl

init-HasSeq : HasSeq init
unfolding init
init-HasSeq = omega arith

add-Inv_example : Inv one
add-Inv_example = add-Inv init hello (pos 1000) init-Inv init-HasSeq

one-Inv : Inv one
one-Inv = add-Inv init hello (pos 1000) init-Inv init-HasSeq

one-HasSeq : HasSeq one
unfolding add init message_ok count_peer place
one-HasSeq = omega arith

add_accepts_example : (add one later (pos 1001)).0 ≡ added
unfolding add init message_ok count_peer place peer_count
add_accepts_example =
    add_accepts one later 1001 one-Inv refl (omega arith) (omega arith) (omega arith)

-- A 65-byte friend key changes nothing.
add_unchanged_example : (add one (record hello { peer_key = [] }) (pos 5)).1 ≡ one
unfolding add message_ok
add_unchanged_example = add_unchanged one (record hello { peer_key = [] }) (pos 5) (λ h. cc)

abbrev first : Entry
first = entry_of init hello 1000

oldest_lem_example : Waits [] one.entries 0 first
unfolding add init message_ok count_peer place oldest oldest_from member
oldest_lem_example = ((oldest_lem one []).0 0 first refl).0

oldest-add_example : oldest (add one later (pos 1001)).1 [] ≡ some (0, first)
unfolding add init message_ok count_peer place oldest oldest_from member
oldest-add_example =
    oldest-add one (add one later (pos 1001)).1 later 1001 [] (0, first) one-Inv one-HasSeq refl
      refl

-- A host whose friend 7 is online without a Ratchet session; the world counts the events.
abbrev lonely : Link
lonely = record {
  primary_uncertain = false;
  recovery_required = false;
  has_tox = true;
  is_locked = false;
  has_ratchet = true;
  self_pk_hex = some key;
  friend_pk_hex = λ _. some key;
  friend_online = λ _. true;
  has_session = λ _. false;
}

abbrev host : Host
host = record {
  World = ℕ;
  link = λ _. lonely;
  direct_state = λ _ _. true;
  emit_message_failed = λ _ _ w. w + 1;
  send_direct_text_now = λ _ w. w + 100;
}

service_loop_total_example : Passed host 64 (service_loop host 65 1001 one [] 0)
service_loop_total_example = service_loop_total host 1001 one 0 one-Inv

abbrev service : Service ℕ
service = record { queue = one; wake = true; check_ms = 0; world = 0 }

service_send_queue_total_example :
    (s' : Service ℕ) × (service_send_queue host 65 true (pos 2000) service ≡ some s')
    × Inv s'.queue
    × (true ≡ true → s'.queue.count ≡ 0)
service_send_queue_total_example = service_send_queue_total host true (pos 2000) service one-Inv
