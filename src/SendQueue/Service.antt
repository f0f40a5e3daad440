-- ===== src/SendQueue/Service.antt =====
-- helper/omaq.c: `service_send_queue` and the functions that drain the queue. The transport, the
-- Ratchet store, the events and the clock are the host's: a parameter.
mod Drain
pub mod Passes
use oma_q.Prelude.{
  ℕ, zero, suc, ◌+◌, ◌≡◌, Bool, true, false, not, ◌&&◌, ◌||◌, Option, none, some, List, [], ◌∷◌,
  ◌++◌, ltb, leb, ◌==◌, if◌then◌else◌,
}
use oma_q.Prelude.Bytes.{Bytes, bytes_eq}
use oma_q.Prelude.Int.{ℤ, pos, negsuc}
use oma_q.SendQueue.{Entry, SendQueue, oldest, owned, remove}

-- the error codes of `message.failed`
pub data FailCode : Type 0 where
  identity_primary_uncertain identity_changed locked offline no_ratchet : FailCode
  forbidden ratchet_timeout helper_unavailable : FailCode

-- what `queued_direct_blocker` looks at; `none` is a lookup that fails
pub record Link : Type 0 where
  pub primary_uncertain : Bool
  pub recovery_required : Bool
  pub has_tox : Bool
  pub is_locked : Bool
  pub has_ratchet : Bool
  pub self_pk_hex : Option Bytes
  pub friend_pk_hex : ℕ → Option Bytes
  pub friend_online : ℕ → Bool
  pub has_session : ℕ → Bool

-- a code, `*ready = 1`, or neither
pub data Verdict : Type 0 where
  blocked : FailCode → Verdict
  ready waiting : Verdict

abbrev pub key_is : Option Bytes → Bytes → Bool
key_is none key = false
key_is (some k) key = bytes_eq k key

-- the tests behind the lookup of the friend's key
abbrev pub friend_blocker : Link → Entry → ℕ → Option Bytes → Verdict
friend_blocker l e now none = blocked forbidden
friend_blocker l e now (some k) =
    if not (bytes_eq k e.peer_key)
    then blocked identity_changed
    else if not (l.friend_online e.friend_number)
    then blocked offline
    else if l.has_session e.friend_number
    then ready
    else if leb e.deadline_ms now
    then blocked ratchet_timeout
    else waiting

unfoldable pub queued_direct_blocker : Link → Entry → ℕ → Verdict
queued_direct_blocker l e now =
    if l.primary_uncertain
    then blocked identity_primary_uncertain
    else if l.recovery_required
    then blocked identity_changed
    else if not l.has_tox
    then blocked (if l.is_locked then locked else offline)
    else if not l.has_ratchet
    then blocked no_ratchet
    else if not (key_is l.self_pk_hex e.self_key)
    then blocked identity_changed
    else friend_blocker l e now (l.friend_pk_hex e.friend_number)

pub record Host : Type 1 where
  pub World : Type 0
  -- the state of the connection at this moment
  pub link : World → Link
  -- `direct_state_for_friend(...) == 0`
  pub direct_state : World → ℕ → Bool
  pub emit_message_failed : Entry → FailCode → World → World
  pub send_direct_text_now : Entry → World → World

-- one client's or the whole service's view of the queue: its wake flag and next check
pub record Service (W : Type 0) : Type 0 where
  pub queue : SendQueue
  pub wake : Bool
  pub check_ms : ℕ
  pub world : W

module _ (h : Host) where
  open h use {World, link, direct_state, emit_message_failed, send_direct_text_now}

  -- what an entry that is not waiting comes to
  unfoldable pub settle : Entry → Verdict → World → World
  settle e (blocked code) w = emit_message_failed e code w
  settle e ready w =
      if direct_state w e.friend_number
      then send_direct_text_now e w
      else emit_message_failed e forbidden w
  settle e waiting w = w

  -- the loop of `service_send_queue`; `none` means that the fuel ran out
  unfoldable pub service_loop :
      ℕ → ℕ → SendQueue → List ℕ → World → Option (SendQueue × List ℕ × World)
  unfolding settle
  service_loop zero now q wait w = none
  service_loop (suc fuel) now q wait w = elim (oldest q wait) [
    | none ↦ some (q, wait, w)
    | some (i, e) ↦ elim (queued_direct_blocker (link w) e now) [
      | waiting ↦ service_loop fuel now q (wait ++ e.friend_number ∷ []) w
      | ready ↦ service_loop fuel now (remove q (pos i)) wait (settle e ready w)
      | blocked code ↦ service_loop fuel now (remove q (pos i)) wait (settle e (blocked code) w)
    ]
  ]

  unfoldable pub fail_send_queue : ℕ → FailCode → SendQueue → World → Option (SendQueue × World)
  fail_send_queue zero code q w = none
  fail_send_queue (suc fuel) code q w = elim (oldest q []) [
    | none ↦ some (q, w)
    | some (i, e) ↦ fail_send_queue fuel code (remove q (pos i)) (emit_message_failed e code w)
  ]

  -- the state after a loop that came to its end
  abbrev pub resume :
      Service World → ℕ → Option (SendQueue × List ℕ × World) → Option (Service World)
  resume s now none = none
  resume s now (some (q, _, w)) =
      some (record { queue = q; wake = false; check_ms = now + 250; world = w })

  abbrev pub emptied : Service World → Option (SendQueue × World) → Option (Service World)
  emptied s none = none
  emptied s (some (q, w)) = some (record s { queue = q; world = w })

  -- `shutdown_requested()` and `monotonic_millis()` are arguments.
  unfoldable pub service_send_queue : ℕ → Bool → ℤ → Service World → Option (Service World)
  service_send_queue fuel shutdown (pos now) s =
      if s.queue.count == 0
      then some s
      else if shutdown
      then emptied s (fail_send_queue fuel helper_unavailable s.queue s.world)
      else if not s.wake && ltb now s.check_ms
      then some s
      else resume s now (service_loop fuel now s.queue [] s.world)
  service_send_queue fuel shutdown (negsuc n) s =
      if s.queue.count == 0
      then some s
      else if shutdown
      then emptied s (fail_send_queue fuel helper_unavailable s.queue s.world)
      else some s

unfoldable pub send_queue_owner_disconnect : ℕ → ℤ → SendQueue → Option SendQueue
send_queue_owner_disconnect zero owner q = none
send_queue_owner_disconnect (suc fuel) owner q = elim (owned q owner) [
  | none ↦ some q
  | some i ↦ send_queue_owner_disconnect fuel owner (remove q (pos i))
]
