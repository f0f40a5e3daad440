-- ===== src/Calls/Reached.antt =====
-- helper/av.c: every state that calls, their ends, the audio thread and time lead to.
use oma_q.Prelude.{ℕ, ◌+◌, ◌*◌, ◌≤◌, ◌<◌, ◌≡◌, subst, Bool, true, false, some, List, [], arith}
use oma_q.Prelude.Int.{ℤ}
use oma_q.Calls.Rings.{Frame}
use oma_q.Calls.State.{
  CallOk, init-CallOk, note_incoming-CallOk, note_active-CallOk, start_call-CallOk, answer-CallOk,
  stop_call-CallOk, note_end-CallOk, receive-CallOk, forget_friend-CallOk, take_audio_error-CallOk,
  reset-CallOk, capture_push-CallOk, playback_write-CallOk,
}
use oma_q.Calls.Pump.{pump_total}
use oma_q.Calls.{
  Call, Clock, Room, no_friend, call_init, note_incoming, note_active, start_call, answer,
  stop_call, note_end, receive, pump, forget_friend, take_audio_error, reset, capture_push,
  playback_write, local_stopped, recent_call_blocked, within_cooldown, refused, noted,
}

-- Friends are numbers below UINT32_MAX.
pub data Reached : Call → Type 0 where
  start : Reached call_init
  incoming :
      {c : Call} (now : Clock) (f : ℕ)
      → f < no_friend
      → Reached c
      → Reached (note_incoming now f c).1
  active :
      {c : Call} (now : Clock) (spawned : Bool) (f : ℕ)
      → f < no_friend
      → Reached c
      → Reached (note_active now spawned f c).1
  called :
      {c : Call} (now : Clock) (sent : Bool) (f : ℕ)
      → f < no_friend
      → Reached c
      → Reached (start_call now sent f c).1
  answered :
      {c : Call} (now : Clock) (sent spawned : Bool) (f : ℕ)
      → f < no_friend
      → Reached c
      → Reached (answer now sent spawned f c).1
  hung_up :
      {c : Call} (now : Clock) (hung : Bool) (f : ℕ)
      → Reached c
      → Reached (stop_call now hung f c).1
  ended : {c : Call} (now : Clock) (f : ℕ) → Reached c → Reached (note_end now f c).1
  received :
      {c : Call} (f : ℕ) (pcm : List ℤ) (samples channels rate : ℕ)
      → Reached c
      → Reached (receive f pcm samples channels rate c)
  pumped :
      {c r : Call} (sends : List Frame → Frame → Bool) (ok : Bool) (out : List Frame)
      → Reached c
      → pump sends c ≡ some (ok, out, r)
      → Reached r
  forgot : {c : Call} (f : ℕ) → Reached c → Reached (forget_friend f c)
  told : {c : Call} → Reached c → Reached (take_audio_error c).1
  cleared : {c : Call} → Reached c → Reached (reset c)
  captured : {c : Call} (pcm : Frame) → Reached c → Reached (capture_push pcm c)
  played : {c : Call} (rooms : List Room) → Reached c → Reached (playback_write rooms [] c).2

pump-CallOk :
    (sends : List Frame → Frame → Bool) (c : Call) (ok : Bool) (out : List Frame) (r : Call)
    → CallOk c
    → pump sends c ≡ some (ok, out, r)
    → CallOk r
pump-CallOk sends c ok out r v h =
    let (a, b, r', e, w, p) = pump_total sends c v in subst CallOk (ground arith) w

-- Whatever happens, audio runs only in an active call, its thread is there just then, and without
-- it both rings are empty; an active or incoming call has a friend, and no call is ever ending.
pub Reached-CallOk : {c : Call} → Reached c → CallOk c
Reached-CallOk start = init-CallOk
Reached-CallOk (incoming {c = c} now f l p) = note_incoming-CallOk now f c l (Reached-CallOk p)
Reached-CallOk (active {c = c} now s f l p) = note_active-CallOk now s f c l (Reached-CallOk p)
Reached-CallOk (called {c = c} now s f l p) = start_call-CallOk now s f c l (Reached-CallOk p)
Reached-CallOk (answered {c = c} now s t f l p) = answer-CallOk now s t f c l (Reached-CallOk p)
Reached-CallOk (hung_up {c = c} now h f p) = stop_call-CallOk now h f c (Reached-CallOk p)
Reached-CallOk (ended {c = c} now f p) = note_end-CallOk now f c (Reached-CallOk p)
Reached-CallOk (received {c = c} f pcm n k r p) = receive-CallOk f pcm n k r c (Reached-CallOk p)
Reached-CallOk (pumped {c = c} {r = r} s ok out p h) = pump-CallOk s c ok out r (Reached-CallOk p) h
Reached-CallOk (forgot {c = c} f p) = forget_friend-CallOk f c (Reached-CallOk p)
Reached-CallOk (told {c = c} p) = take_audio_error-CallOk c (Reached-CallOk p)
Reached-CallOk (cleared {c = c} p) = reset-CallOk c (Reached-CallOk p)
Reached-CallOk (captured {c = c} pcm p) = capture_push-CallOk pcm c (Reached-CallOk p)
Reached-CallOk (played {c = c} rooms p) = playback_write-CallOk rooms [] c (Reached-CallOk p)

stopped_of_ok : (c : Call) → CallOk c → c.call ≡ no_friend → local_stopped c ≡ true
unfolding local_stopped
stopped_of_ok c v h = ground arith

-- With no call, nothing local is left of the last one: no audio runs, no thread is there, no frame
-- waits.
pub Reached-local_stopped : {c : Call} → Reached c → c.call ≡ no_friend → local_stopped c ≡ true
Reached-local_stopped {c} p h = stopped_of_ok c (Reached-CallOk p) h

-- A time of the clock in nanoseconds, of which less than a second stands behind the seconds.
abbrev pub nanoseconds : ℕ × ℕ → ℕ
nanoseconds (sec, nsec) = sec * 1000000000 + nsec

abbrev pub IsTime : ℕ × ℕ → Type 0
IsTime (sec, nsec) = nsec < 1000000000

within-nanoseconds :
    (end now : ℕ × ℕ)
    → IsTime end
    → IsTime now
    → nanoseconds end ≤ nanoseconds now
    → nanoseconds now ≤ nanoseconds end + 1999000000
    → within_cooldown end now ≡ true
unfolding within_cooldown
within-nanoseconds (s, n) (t, m) p q l u = ground arith

beyond-nanoseconds :
    (end now : ℕ × ℕ)
    → IsTime end
    → IsTime now
    → nanoseconds end + 2000000000 ≤ nanoseconds now
    → within_cooldown end now ≡ false
unfolding within_cooldown
beyond-nanoseconds (s, n) (t, m) p q l = ground arith

-- After a call with a friend has ended, by the friend or from here, events of that friend and new
-- calls to it are refused, and change nothing, up to 1.999 seconds after the end; from two seconds
-- after it on they are taken again. (The clock, which does not go back, can be read each time. In the
-- millisecond between, it depends on how the difference is rounded.)
pub end_cooldown :
    (c : Call) (f : ℕ) (end now later : ℕ × ℕ) (hung spawned sent : Bool)
    → c.call ≡ f
    → f < no_friend
    → IsTime end
    → IsTime now
    → IsTime later
    → nanoseconds end ≤ nanoseconds now
    → nanoseconds now ≤ nanoseconds end + 1999000000
    → nanoseconds end + 2000000000 ≤ nanoseconds later
    → let r = (note_end (some end) f c).1 in
      ((stop_call (some end) hung f c).1 ≡ r)
      × (note_incoming (some now) f r ≡ (refused, r))
      × (note_active (some now) spawned f r ≡ (refused, r))
      × (start_call (some now) sent f r ≡ (false, r))
      × ((note_incoming (some later) f r).0 ≡ noted)
      × ((note_active (some later) spawned f r).0 ≡ noted)
      × ((start_call (some later) true f r).0 ≡ true)
unfolding note_end stop_call note_incoming note_active start_call recent_call_blocked
end_cooldown c f end now later hung spawned sent h l p q x a b d =
    let w = within-nanoseconds end now p q a b in
    let v = beyond-nanoseconds end later p x d in
    (
      ground arith,
      ground arith,
      ground arith,
      ground arith,
      ground arith,
      ground arith,
      ground arith,
    )
