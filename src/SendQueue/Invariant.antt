-- ===== src/SendQueue/Invariant.antt =====
-- helper/send_queue.c: what every queue satisfies that the operations build from an empty one.
use oma_q.Prelude.{
  ℕ, ◌+◌, ◌^◌, ◌≤◌, ◌<◌, ◌≡◌, refl, sym, ap, subst, ◌∙◌, ◌≢◌, ◌⊎◌, inl, inr, true, false, Option,
  none, some, List, ◌==◌, length, get_elem?, arith, Bool-cases, length-set, length-replicate,
}
use oma_q.Prelude.Int.{ℤ, pos, negsuc}
use oma_q.SendQueue.Slots.{
  used, Each, Distinct, Each-imp, Places, place-Places, place_total, Places-length, Places-used,
  Places-count_peer, Places-Each, Places-Distinct, used-set, count_peer-set, Each-set, Distinct-set,
  used-replicate, count_peer-replicate, Each-replicate, Distinct-replicate,
}
use oma_q.SendQueue.{
  Entry, Slot, SendQueue, Message, AddResult, added, invalid, full, wait_ms, init, count_peer,
  peer_count, place, message_ok, bump_seq, entry_of, commit, add, vacate, remove,
}

-- The entry's strings fit their arrays, its keys are 64 bytes, and its deadline is an int64_t.
pub record Fits (e : Entry) : Type 0 where
  pub self_key_length : length e.self_key ≡ 64
  pub peer_key_length : length e.peer_key ≡ 64
  pub conversation_fits : (0 < length e.conversation) × (length e.conversation < 16)
  pub request_fits : (0 < length e.request) × (length e.request < 80)
  pub reply_fits : length e.reply < 80
  pub text_fits_array : (0 < length e.text) × (length e.text < 512)
  pub deadline_fits : e.deadline_ms < 2 ^ 63

pub record Inv (q : SendQueue) : Type 0 where
  pub slots : length q.entries ≡ 64
  pub counted : q.count ≡ used q.entries
  pub peers : (f : ℕ) → count_peer f q.entries ≤ 16
  pub below_next : Each (λ e. e.seq ≤ q.next_seq) q.entries
  pub distinct : Distinct q.entries
  pub fits : Each Fits q.entries

-- An empty queue satisfies it.
pub init-Inv : Inv init
unfolding init
init-Inv = record {
  slots = length-replicate {A = Slot} 64 none;
  counted = sym (used-replicate 64);
  peers = λ f. omega (arith, count_peer-replicate f 64);
  below_next = Each-replicate (λ e. e.seq ≤ 0) 64;
  distinct = Distinct-replicate 64;
  fits = Each-replicate Fits 64;
}

message_ok-Fits :
    (q : SendQueue) (m : Message) (now : ℕ)
    → message_ok m ≡ true
    → now + wait_ms < 2 ^ 63
    → Fits (entry_of q m now)
unfolding message_ok
message_ok-Fits q m now h b = record {
  self_key_length = ground arith;
  peer_key_length = ground arith;
  conversation_fits = ground arith;
  request_fits = ground arith;
  reply_fits = ground arith;
  text_fits_array = ground arith;
  deadline_fits = b;
}

module _ (q : SendQueue) (m : Message) (now : ℕ) (v : Inv q) where
  -- the state after a successful search, field by field
  commit-Inv :
      (t : List Slot)
      → Places (entry_of q m now) q.entries t
      → Fits (entry_of q m now)
      → bump_seq q.next_seq ≡ q.next_seq + 1
      → peer_count q m.friend_number < 16
      → Inv (commit q (some t)).1
  unfolding peer_count
  commit-Inv t p fits n room = record {
    slots = omega (arith, Places-length p, v.slots);
    counted = omega (arith, Places-used p, v.counted);
    peers = λ f. peers f (Bool-cases (m.friend_number == f));
    below_next =
        Places-Each (λ e. e.seq ≤ bump_seq q.next_seq) p (omega arith)
          (Each-imp (λ e. e.seq ≤ q.next_seq) _ (λ e h. omega arith) q.entries v.below_next);
    distinct =
        Places-Distinct p
          (Each-imp (λ e. e.seq ≤ q.next_seq) _ (λ e h c. absurd (omega arith)) q.entries
            v.below_next)
          v.distinct;
    fits = Places-Each Fits p fits v.fits;
  }
    where
      peers :
          (f : ℕ)
          → ((m.friend_number == f) ≡ true) ⊎ ((m.friend_number == f) ≡ false)
          → count_peer f t ≤ 16
      peers f (inl same) = ground (arith, Places-count_peer f p, v.peers f)
      peers f (inr other) = ground (arith, Places-count_peer f p, v.peers f)

-- What an accepted message left behind: its entry, in a slot that was free.
pub record Added (q : SendQueue) (m : Message) (now : ℕ) (q' : SendQueue) : Type 0 where
  pub message_valid : message_ok m ≡ true
  pub in_time : now + wait_ms < 2 ^ 63
  pub room : q.count < 64
  pub peer_room : peer_count q m.friend_number < 16
  pub placed : place (entry_of q m now) q.entries ≡ some q'.entries
  pub count_next : q'.count ≡ q.count + 1
  pub seq_next : q'.next_seq ≡ bump_seq q.next_seq

-- `peer_count` stays shut here
pub add-Added :
    (q q' : SendQueue) (m : Message) (now : ℕ) → add q m (pos now) ≡ (added, q') → Added q m now q'
unfolding add
add-Added q q' m now h = record {
  message_valid = ground arith;
  in_time = ground arith;
  room = ground arith;
  peer_room = ground arith;
  placed = ground arith;
  count_next = ground arith;
  seq_next = ground arith;
}

-- Unless a message is accepted, the queue is what it was.
pub add_unchanged :
    (q : SendQueue) (m : Message) (now : ℤ) → (add q m now).0 ≢ added → (add q m now).1 ≡ q
unfolding add
add_unchanged q m (negsuc n) h = refl
add_unchanged q m (pos n) h = ground arith

-- The sequence counter has not yet wrapped: 2 ^ 64 - 1 messages are more than a helper can take.
abbrev pub HasSeq : SendQueue → Type 0
HasSeq q = q.next_seq + 1 < 2 ^ 64

Added-Inv :
    (q q' : SendQueue) (m : Message) (now : ℕ) → Inv q → HasSeq q → Added q m now q' → Inv q'
Added-Inv q q' m now v s a = subst Inv (ground (arith, a.count_next, a.seq_next)) (
    commit-Inv q m now v q'.entries (place-Places _ _ _ a.placed)
      (message_ok-Fits q m now a.message_valid a.in_time) (omega arith) a.peer_room)

add_negative : (q : SendQueue) (m : Message) (n : ℕ) → q ≡ (add q m (negsuc n)).1
unfolding add
add_negative q m n = refl

add_cases :
    (q : SendQueue) (m : Message) (now : ℤ) (r : AddResult × SendQueue)
    → add q m now ≡ r
    → Inv q
    → HasSeq q
    → Inv r.1
add_cases q m (pos now) (added, q') e v s = Added-Inv q q' m now v s (add-Added q q' m now e)
add_cases q m (pos now) (invalid, q') e v s =
    subst Inv (sym (add_unchanged q m (pos now) (λ h. cc)) ∙ ap (λ p. p.1) e) v
add_cases q m (pos now) (full, q') e v s =
    subst Inv (sym (add_unchanged q m (pos now) (λ h. cc)) ∙ ap (λ p. p.1) e) v
add_cases q m (negsuc n) r e v s = subst Inv (add_negative q m n ∙ ap (λ p. p.1) e) v

-- `add` keeps the invariant, whatever the message and the time, while the counter can count on.
pub add-Inv : (q : SendQueue) (m : Message) (now : ℤ) → Inv q → HasSeq q → Inv (add q m now).1
add-Inv q m now v s = add_cases q m now (add q m now) refl v s

-- A valid message is accepted whenever the queue holds fewer than 64 entries, and fewer than 16 of
-- its friend: the search for a free slot then finds one.
pub add_accepts :
    (q : SendQueue) (m : Message) (now : ℕ)
    → Inv q
    → message_ok m ≡ true
    → now + wait_ms < 2 ^ 63
    → q.count < 64
    → peer_count q m.friend_number < 16
    → (add q m (pos now)).0 ≡ added
unfolding add
add_accepts q m now v valid time room peers =
    let (t, e) = place_total (entry_of q m now) q.entries (omega (arith, v.slots, v.counted)) in
    ground (arith, e)

vacate-Inv :
    (q : SendQueue) (i : ℕ) (s : Option Slot)
    → get_elem? q.entries i ≡ s
    → Inv q
    → Inv (vacate q i s)
vacate-Inv q i none e v = v
vacate-Inv q i (some none) e v = v
vacate-Inv q i (some (some x)) e v = record {
  slots = omega (arith, v.slots, length-set q.entries i none);
  counted = omega (arith, v.counted, used-set x q.entries i e);
  peers = λ f. omega (arith, v.peers f, count_peer-set x f q.entries i e);
  below_next = Each-set _ q.entries i v.below_next;
  distinct = Distinct-set q.entries i v.distinct;
  fits = Each-set Fits q.entries i v.fits;
}

-- `remove` keeps the invariant at every index: the count falls exactly when an entry goes.
pub remove-Inv : (q : SendQueue) (i : ℤ) → Inv q → Inv (remove q i)
unfolding remove
remove-Inv q (negsuc n) v = v
remove-Inv q (pos i) v = vacate-Inv q i (get_elem? q.entries i) refl v
