-- ===== src/Calls/State.antt =====
-- helper/av.c: what holds of a call whatever happens to it, and the pause after a call.
use oma_q.Prelude.{
  ℕ, ◌<◌, ◌≡◌, ◌≢◌, refl, Bool, true, false, none, some, List, [], ◌∷◌, ◌++◌, ltb, ◌==◌,
  if◌then◌else◌, length, take, ◌*◌, Bool-cases, Option-cases, inl, inr, arith,
}
use oma_q.Prelude.Int.{ℤ}
use oma_q.Calls.Rings.{
  Frame, Ring, ring_init, push, pop, RingOk, init-RingOk, push-RingOk, pop-RingOk,
}
use oma_q.Calls.{
  Call, Clock, no_friend, call_init, audio_start, audio_stop, note_incoming, note_active,
  start_call, answer, stop_call, note_end, receive, forget_friend, take_audio_error, reset,
  capture_push, playback_write, Room, mix, hang_up, note_audio_error,
}

-- Audio runs only in an active call, its thread is there just then, and without it the rings are
-- empty. An active or incoming call has a friend.
pub record CallOk (c : Call) : Type 0 where
  pub active_call : c.active ≡ true → c.call ≢ no_friend
  pub incoming_call : c.incoming ≡ true → c.call ≢ no_friend
  pub running_active : c.running ≡ true → c.active ≡ true
  pub started_running : c.started ≡ c.running
  pub never_ending : c.ending ≡ false
  pub idle_capture : c.running ≡ false → c.capture.count ≡ 0
  pub idle_playback : c.running ≡ false → c.playback.count ≡ 0
  pub capture_ok : RingOk c.capture
  pub playback_ok : RingOk c.playback

pub init-CallOk : CallOk call_init
unfolding call_init ring_init
init-CallOk = record {
  active_call = λ h. cc;
  incoming_call = λ h. cc;
  running_active = λ h. cc;
  started_running = refl;
  never_ending = refl;
  idle_capture = λ h. refl;
  idle_playback = λ h. refl;
  capture_ok = init-RingOk;
  playback_ok = init-RingOk;
}

pub note_incoming-CallOk :
    (now : Clock) (friend : ℕ) (c : Call)
    → friend < no_friend
    → CallOk c
    → CallOk (note_incoming now friend c).1
unfolding note_incoming
note_incoming-CallOk now friend c l v = ground arith

pub note_active-CallOk :
    (now : Clock) (spawned : Bool) (friend : ℕ) (c : Call)
    → friend < no_friend
    → CallOk c
    → CallOk (note_active now spawned friend c).1
unfolding note_active audio_start ring_init
note_active-CallOk now true friend c l v = ground (arith, init-RingOk)
note_active-CallOk now false friend c l v = ground (arith, init-RingOk)

pub start_call-CallOk :
    (now : Clock) (sent : Bool) (friend : ℕ) (c : Call)
    → friend < no_friend
    → CallOk c
    → CallOk (start_call now sent friend c).1
unfolding start_call
start_call-CallOk now sent friend c l v = ground arith

hang_up-CallOk : (now : Clock) (who : ℕ) (c : Call) → CallOk c → CallOk (hang_up now who c)
unfolding audio_stop ring_init
hang_up-CallOk now who c v = ground (arith, init-RingOk)

pub forget_friend-CallOk : (friend : ℕ) (c : Call) → CallOk c → CallOk (forget_friend friend c)
unfolding forget_friend
forget_friend-CallOk friend c v = ground arith

pub take_audio_error-CallOk : (c : Call) → CallOk c → CallOk (take_audio_error c).1
unfolding take_audio_error
take_audio_error-CallOk c v = ground arith

pub reset-CallOk : (c : Call) → CallOk c → CallOk (reset c)
unfolding reset audio_stop ring_init
reset-CallOk c v = ground (arith, init-RingOk)

pub capture_push-CallOk : (pcm : Frame) (c : Call) → CallOk c → CallOk (capture_push pcm c)
unfolding capture_push
capture_push-CallOk pcm c v = ground (arith, push-RingOk c.capture pcm)

pub stop_call-CallOk :
    (now : Clock) (hung : Bool) (friend : ℕ) (c : Call)
    → CallOk c
    → CallOk (stop_call now hung friend c).1
unfolding stop_call audio_stop ring_init
stop_call-CallOk now hung friend c v = ground (arith, init-RingOk)

pub note_end-CallOk :
    (now : Clock) (friend : ℕ) (c : Call) → CallOk c → CallOk (note_end now friend c).1
unfolding note_end audio_stop ring_init
note_end-CallOk now friend c v = ground (arith, init-RingOk)

answering-CallOk :
    (friend : ℕ) (c : Call) → friend < no_friend → CallOk c → CallOk (record c { call = friend })
answering-CallOk friend c l v = ground arith

pub answer-CallOk :
    (now : Clock) (sent spawned : Bool) (friend : ℕ) (c : Call)
    → friend < no_friend
    → CallOk c
    → CallOk (answer now sent spawned friend c).1
unfolding answer
answer-CallOk now sent spawned friend c l v = ground (
  arith,
  note_active-CallOk now spawned friend (record c { call = friend }) l
      (answering-CallOk friend c l v),
)

playing-CallOk :
    (f : Frame) (c : Call)
    → c.running ≡ true
    → CallOk c
    → CallOk (record c { playback = push c.playback f })
playing-CallOk f c h v = ground (arith, push-RingOk c.playback f)

pub receive-CallOk :
    (friend : ℕ) (pcm : List ℤ) (samples channels rate : ℕ) (c : Call)
    → CallOk c
    → CallOk (receive friend pcm samples channels rate c)
unfolding receive
receive-CallOk friend pcm samples channels rate c v = elim (Bool-cases c.running) [
  | inr e ↦ ground arith
  | inl e ↦ ground (
    arith,
    playing-CallOk (if channels == 1 then take samples pcm else mix (take (samples * 2) pcm)) c e v,
  )
]

-- a frame taken out of the ring of the microphone
pub taken-CallOk :
    (c : Call) (f : Frame) (r : Ring)
    → CallOk c
    → pop c.capture ≡ some (f, r)
    → CallOk (record c { capture = r })
unfolding pop
taken-CallOk c f r v h = ground (arith, pop-RingOk c.capture r f)

pub error-CallOk : (friend : ℕ) (c : Call) → CallOk c → CallOk (note_audio_error friend c)
error-CallOk friend c v = ground arith

played-CallOk :
    (c : Call) (f : Frame) (r : Ring)
    → CallOk c
    → pop c.playback ≡ some (f, r)
    → CallOk (record c { playback = r })
unfolding pop
played-CallOk c f r v h = ground (arith, pop-RingOk c.playback r f)

write_room :
    (room : Room) (rooms : List Room) (played : List Frame) (c : Call) (f : Frame) (r : Ring)
    → pop c.playback ≡ some (f, r)
    → CallOk c
    → (CallOk (record c { playback = r })
        → CallOk (playback_write rooms (played ++ f ∷ []) (record c { playback = r })).2)
    → CallOk (playback_write (room ∷ rooms) played c).2
unfolding playback_write
write_room none rooms played c f r e v ih = rw (e, playback_write) v
write_room (some (writable, taken)) rooms played c f r e v ih =
    elim (Bool-cases (ltb writable (length f * 2))) [
      | inl h ↦ rw (e, playback_write, h) v
      | inr h ↦ elim (Bool-cases taken) [
        | inl k ↦ rw (e, playback_write, h, k) (ih (played-CallOk c f r v e))
        | inr k ↦ rw (e, playback_write, h, k) (played-CallOk c f r v e)
      ]
    ]

pub playback_write-CallOk :
    (rooms : List Room) (played : List Frame) (c : Call)
    → CallOk c
    → CallOk (playback_write rooms played c).2
unfolding playback_write
playback_write-CallOk [] played c v = v
playback_write-CallOk (room ∷ rooms) played c v = elim (Option-cases (pop c.playback)) [
  | inl e ↦ rw (e, playback_write) v
  | inr ((f, r), e) ↦
      write_room room rooms played c f r e v
        (playback_write-CallOk rooms (played ++ f ∷ []) (record c { playback = r }))
]
