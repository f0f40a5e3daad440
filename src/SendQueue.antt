-- ===== src/SendQueue.antt =====
-- helper/send_queue.c and helper/send_queue.h: direct messages that wait for a Ratchet session.
-- `entries` is the array of 64 slots; `none` is a slot whose `used` is 0, which the code keeps all
-- zero. Pointer arguments are not null, but for `reply`, where null stands for "".
pub mod Slots
pub mod Invariant
pub mod Order
pub mod Service
use mathlib.Core.Option
use oma_q.Prelude.{
  ℕ, suc, ◌+◌, ◌-◌, ◌%◌, ◌^◌, Bool, true, false, not, ◌&&◌, ◌||◌, Option, none, some, List, [], ◌∷◌,
  ltb, leb, ◌==◌, if◌then◌else◌, length, get_elem?, set, replicate,
}
use oma_q.Prelude.Bytes.{Bytes, all_bytes, is_lower_hex}
use oma_q.Prelude.Int.{ℤ, pos, negsuc, ◌==ℤ◌}

abbrev pub queue_max : ℕ
queue_max = 64

abbrev pub peer_max : ℕ
peer_max = 16

abbrev pub wait_ms : ℕ
wait_ms = 300000

abbrev pub conversation_max : ℕ
conversation_max = 16

abbrev pub id_max : ℕ
id_max = 80

abbrev pub text_max : ℕ
text_max = 512

pub record Entry : Type 0 where
  pub owner : ℤ
  pub friend_number : ℕ
  pub seq : ℕ
  pub deadline_ms : ℕ
  pub conversation : Bytes
  pub self_key : Bytes
  pub peer_key : Bytes
  pub request : Bytes
  pub reply : Bytes
  pub text : Bytes

abbrev pub Slot : Type 0
Slot = Option Entry

pub record SendQueue : Type 0 where
  pub entries : List Slot
  pub count : ℕ
  pub next_seq : ℕ

-- the arguments of `omaq_send_queue_add`
pub record Message : Type 0 where
  pub owner : ℤ
  pub friend_number : ℕ
  pub conversation : Bytes
  pub self_key : Bytes
  pub peer_key : Bytes
  pub request : Bytes
  pub reply : Option Bytes
  pub text : Bytes

-- 0, -1 and -2
pub data AddResult : Type 0 where
  added invalid full : AddResult

unfoldable pub text_fits : Bytes → ℕ → Bool → Bool
text_fits text size required = let len = length text in (not required || ltb 0 len) && ltb len size

unfoldable pub key_ok : Bytes → Bool
key_ok key = length key == 64 && all_bytes is_lower_hex key

unfoldable pub init : SendQueue
init = record { entries = replicate queue_max none; count = 0; next_seq = 0 }

-- the entries of one friend
unfoldable pub count_peer : ℕ → List Slot → ℕ
count_peer f [] = 0
count_peer f (none ∷ s) = count_peer f s
count_peer f (some e ∷ s) = (if e.friend_number == f then 1 else 0) + count_peer f s

unfoldable pub peer_count : SendQueue → ℕ → ℕ
peer_count q f = count_peer f q.entries

-- the search for the first free slot, and the write to it
unfoldable pub place : Entry → List Slot → Option (List Slot)
place e [] = none
place e (none ∷ s) = some (some e ∷ s)
place e (some x ∷ s) = Option.map (◌∷◌ (some x)) (place e s)

abbrev pub reply_text : Option Bytes → Bytes
reply_text none = []
reply_text (some r) = r

unfoldable pub message_ok : Message → Bool
unfolding key_ok text_fits
message_ok m =
    key_ok m.self_key
    && (key_ok m.peer_key
        && (text_fits m.conversation conversation_max true
            && (text_fits m.request id_max true
                && (text_fits (reply_text m.reply) id_max false
                    && text_fits m.text text_max true))))

-- `++next_seq` on a uint64_t
abbrev pub bump_seq : ℕ → ℕ
bump_seq n = (n + 1) % 2 ^ 64

abbrev pub entry_of : SendQueue → Message → ℕ → Entry
entry_of q m now = record {
  owner = m.owner;
  friend_number = m.friend_number;
  seq = bump_seq q.next_seq;
  deadline_ms = now + wait_ms;
  conversation = m.conversation;
  self_key = m.self_key;
  peer_key = m.peer_key;
  request = m.request;
  reply = reply_text m.reply;
  text = m.text;
}

-- the end of `add`, on the result of the search
abbrev pub commit : SendQueue → Option (List Slot) → AddResult × SendQueue
commit q none = (full, q)
commit q (some s) =
    (added, record { entries = s; count = q.count + 1; next_seq = bump_seq q.next_seq })

abbrev pub int64_max : ℕ
int64_max = 2 ^ 63 - 1

unfoldable pub add : SendQueue → Message → ℤ → AddResult × SendQueue
unfolding peer_count
add q m (negsuc _) = (invalid, q)
add q m (pos now) =
    if ltb (int64_max - wait_ms) now || not (message_ok m)
    then (invalid, q)
    else if leb queue_max q.count || leb peer_max (peer_count q m.friend_number)
    then (full, q)
    else commit q (place (entry_of q m now) q.entries)

unfoldable pub member : ℕ → List ℕ → Bool
member f [] = false
member f (x ∷ xs) = x == f || member f xs

-- whether the entry replaces the oldest one found so far
abbrev pub beats : Entry → Option (ℕ × Entry) → Bool
beats e none = true
beats e (some (_, b)) = ltb e.seq b.seq

-- the loop from slot `i`, with the oldest entry so far and its index
unfoldable pub oldest_from : List ℕ → ℕ → Option (ℕ × Entry) → List Slot → Option (ℕ × Entry)
oldest_from skip i best [] = best
oldest_from skip i best (none ∷ s) = oldest_from skip (i + 1) best s
oldest_from skip i best (some e ∷ s) =
    oldest_from skip (i + 1)
      (if not (member e.friend_number skip) && beats e best then some (i, e) else best) s

-- the index that `omaq_send_queue_oldest` returns, with the entry there; `none` is -1
unfoldable pub oldest : SendQueue → List ℕ → Option (ℕ × Entry)
oldest q skip = oldest_from skip 0 none q.entries

unfoldable pub owned_from : ℤ → ℕ → List Slot → Option ℕ
owned_from owner i [] = none
owned_from owner i (none ∷ s) = owned_from owner (i + 1) s
owned_from owner i (some e ∷ s) = if e.owner ==ℤ owner then some i else owned_from owner (i + 1) s

unfoldable pub owned : SendQueue → ℤ → Option ℕ
owned q owner = owned_from owner 0 q.entries

-- `remove` on the slot that the index names; `none` is an index out of range
abbrev pub vacate : SendQueue → ℕ → Option Slot → SendQueue
vacate q i none = q
vacate q i (some none) = q
vacate q i (some (some e)) = record q { entries = set q.entries i none; count = q.count - 1 }

unfoldable pub remove : SendQueue → ℤ → SendQueue
remove q (negsuc _) = q
remove q (pos i) = vacate q i (get_elem? q.entries i)
