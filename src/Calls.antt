-- ===== src/Calls.antt =====
-- helper/av.c: the state of a call and of its audio, in the build with PulseAudio. The audio thread
-- shares the rings and the flags with the main thread under a lock, so each of its visits is one
-- operation here. What toxcore, the thread's start and the clock answer are arguments; a clock
-- reading is seconds and nanoseconds, or none where it fails.
pub mod Rings
pub mod State
pub mod Pump
pub mod Reached
pub mod Capture
use oma_q.Prelude.{
  ℕ, zero, suc, ◌+◌, ◌-◌, ◌*◌, ◌/◌, ◌%◌, ◌^◌, Bool, true, false, not, ◌&&◌, ◌||◌, Option, none,
  some, List, [], ◌∷◌, ◌++◌, ltb, leb, ◌==◌, if◌then◌else◌, length, take, drop, replicate, get_or,
  min,
}
use oma_q.Prelude.Int.{ℤ, pos, negsuc, ◌+ℤ◌, half}
use oma_q.Calls.Rings.{Frame, Ring, ring_init, ring_frames, push, pop}

abbrev pub audio_rate : ℕ
audio_rate = 48000

abbrev pub frame_samples : ℕ
frame_samples = 960

abbrev pub max_samples : ℕ
max_samples = 2880

-- `UINT32_MAX`, no friend
abbrev pub no_friend : ℕ
no_friend = 2 ^ 32 - 1

abbrev pub Clock : Type 0
Clock = Option (ℕ × ℕ)

pub record Call : Type 0 where
  pub call : ℕ
  pub active : Bool
  pub ending : Bool
  pub incoming : Bool
  pub recent_call : ℕ
  pub recent_end : ℕ × ℕ
  pub started : Bool
  pub running : Bool
  pub error : Bool
  pub error_friend : ℕ
  pub capture : Ring
  pub playback : Ring

unfoldable pub call_init : Call
unfolding ring_init
call_init = record {
  call = no_friend;
  active = false;
  ending = false;
  incoming = false;
  recent_call = no_friend;
  recent_end = (0, 0);
  started = false;
  running = false;
  error = false;
  error_friend = no_friend;
  capture = ring_init;
  playback = ring_init;
}

abbrev pub note_audio_error : ℕ → Call → Call
note_audio_error friend c = record c { error = true; error_friend = friend }

abbrev pub clear_audio_error : Call → Call
clear_audio_error c = record c { error = false; error_friend = no_friend }

-- `elapsed_ms >= 0 && elapsed_ms < 2000`, the milliseconds split into what counts up and what counts
-- down; `/` rounds towards zero
unfoldable pub within_cooldown : ℕ × ℕ → ℕ × ℕ → Bool
within_cooldown (end_sec, end_nsec) (sec, nsec) =
    let up = sec * 1000 + (nsec - end_nsec) / 1000000 in
    let down = end_sec * 1000 + (end_nsec - nsec) / 1000000 in leb down up && ltb up (down + 2000)

unfoldable pub recent_call_blocked : Call → ℕ → Clock → Bool
recent_call_blocked c friend none = false
recent_call_blocked c friend (some now) =
    friend == c.recent_call && within_cooldown c.recent_end now

abbrev pub time_or_zero : Clock → ℕ × ℕ
time_or_zero none = (0, 0)
time_or_zero (some now) = now

abbrev pub note_recent_call : ℕ → Clock → Call → Call
note_recent_call friend now c = record c { recent_call = friend; recent_end = time_or_zero now }

unfoldable pub audio_stop : Call → Call
audio_stop c = record c {
  running = false;
  started = false;
  capture = ring_init;
  playback = ring_init;
}

-- `spawned` is whether the thread starts.
unfoldable pub audio_start : Bool → ℕ → Call → Call
unfolding audio_stop
audio_start spawned friend c =
    let fresh = record (audio_stop c) { running = true; error = false; error_friend = no_friend } in
    if spawned
    then record fresh { started = true }
    else note_audio_error friend (record fresh { running = false })

abbrev pub busy : Call → Bool
busy c = not (c.call == no_friend)

-- the test with which a friend's event is refused
abbrev pub refuses : Call → ℕ → Clock → Bool
refuses c friend now =
    (c.call == no_friend && recent_call_blocked c friend now)
    || (not (c.call == no_friend) && not (c.call == friend))

-- -1, 0 and 1
pub data Noted : Type 0 where
  refused unchanged noted : Noted

unfoldable pub note_incoming : Clock → ℕ → Call → Noted × Call
note_incoming now friend c =
    if refuses c friend now
    then (refused, c)
    else if c.call == friend
    then (unchanged, c)
    else (noted, record c { call = friend; active = false; ending = false; incoming = true })

unfoldable pub note_active : Clock → Bool → ℕ → Call → Noted × Call
note_active now spawned friend c =
    if refuses c friend now
    then (refused, c)
    else if c.ending
    then (unchanged, c)
    else if c.active
    then (unchanged, record c { call = friend })
    else (noted, audio_start spawned friend (record c { call = friend; active = true }))

-- `sent` is whether toxcore takes the call. True is the return of 0.
unfoldable pub start_call : Clock → Bool → ℕ → Call → Bool × Call
start_call now sent friend c =
    if not (c.call == no_friend) || recent_call_blocked c friend now
    then (false, c)
    else if not sent
    then (false, c)
    else (true, record c { call = friend; active = false; ending = false; incoming = false })

unfoldable pub answer : Clock → Bool → Bool → ℕ → Call → Bool × Call
answer now sent spawned friend c =
    if c.ending
    then (false, c)
    else if not (c.call == no_friend) && not (c.call == friend)
    then (false, c)
    else if not sent
    then (false, c)
    else (true, (note_active now spawned friend (record c { call = friend })).1)

-- the state of a call that is over
abbrev pub hang_up : Clock → ℕ → Call → Call
hang_up now who c =
    note_recent_call who now
      (record (clear_audio_error (record (audio_stop c) { active = false })) {
        call = no_friend;
        ending = false;
        incoming = false;
      })

-- -1, 0 and 1
pub data Stopped : Type 0 where
  no_call stopped control_failed : Stopped

unfoldable pub stop_call : Clock → Bool → ℕ → Call → Stopped × Call
stop_call now hung friend c =
    let who = if friend == no_friend then c.call else friend in
    if who == no_friend || (c.call == no_friend || not (who == c.call))
    then (no_call, c)
    else (if hung then stopped else control_failed, hang_up now who c)

unfoldable pub note_end : Clock → ℕ → Call → Bool × Call
note_end now friend c = if not (c.call == friend) then (false, c) else (
  true,
  clear_audio_error (
      note_recent_call friend now (record (audio_stop c) {
        call = no_friend;
        active = false;
        ending = false;
        incoming = false;
      })),
)

unfoldable pub local_stopped : Call → Bool
local_stopped c =
    (not c.running && (not c.started && (c.capture.count == 0 && c.playback.count == 0)))
    && (c.call == no_friend && (not c.active && not c.incoming))

-- the samples of two channels, each pair mixed to one
unfoldable pub mix : List ℤ → List ℤ
mix (a ∷ b ∷ s) = half (a +ℤ b) ∷ mix s
mix s = []

-- `samples` counts those of one channel; a pointer to fewer is not modelled.
unfoldable pub receive : ℕ → List ℤ → ℕ → ℕ → ℕ → Call → Call
receive friend pcm samples channels rate c =
    if samples == 0
      || (ltb max_samples samples
          || (not (channels == 1 || channels == 2)
              || (not (rate == audio_rate) || (not c.active || not (friend == c.call)))))
    then c
    else if not c.running
    then c
    else record c {
      playback =
          push c.playback
            (if channels == 1 then take samples pcm else mix (take (samples * 2) pcm));
    }

-- The frames given to toxcore, the oldest first. `sends` is what it answers to a frame, given those
-- that it has taken in this call of the function: as the loop ends with the first refusal, they are
-- all that its answer can depend on besides its state before. The loop ends within 17 rounds, as the
-- ring holds at most 16 frames.
unfoldable pub pump_loop :
    (List Frame → Frame → Bool) → ℕ → List Frame → Call → Option (Bool × List Frame × Call)
pump_loop sends zero sent c = none
pump_loop sends (suc fuel) sent c = elim (pop c.capture) [
  | none ↦ some (true, sent, c)
  | some (frame, rest) ↦ elim (c.call == no_friend || (not c.active || not (sends sent frame))) [
    | true ↦ some (false, sent, note_audio_error c.call (record c { capture = rest }))
    | false ↦ pump_loop sends fuel (sent ++ frame ∷ []) (record c { capture = rest })
  ]
]

unfoldable pub pump : (List Frame → Frame → Bool) → Call → Option (Bool × List Frame × Call)
pump sends c = pump_loop sends 17 [] c

unfoldable pub is_current : ℕ → Call → Bool
is_current friend c = not (c.call == no_friend) && c.call == friend

pub data CallState : Type 0 where
  active incoming ringing : CallState

unfoldable pub status : Call → Option (ℕ × CallState)
status c =
    if c.call == no_friend || c.ending
    then none
    else some (c.call, if c.active then active else if c.incoming then incoming else ringing)

unfoldable pub friend_busy : ℕ → Call → Bool
friend_busy friend c = c.call == friend

unfoldable pub forget_friend : ℕ → Call → Call
forget_friend friend c = if c.error_friend == friend then clear_audio_error c else c

-- The friend of the error, if there is one.
unfoldable pub take_audio_error : Call → Option ℕ × Call
take_audio_error c = if c.error then (some c.error_friend, clear_audio_error c) else (none, c)

unfoldable pub reset : Call → Call
reset c = clear_audio_error (record (audio_stop c) {
  call = no_friend;
  active = false;
  ending = false;
  incoming = false;
  recent_call = no_friend;
  recent_end = (0, 0);
})

-- the audio thread's frame of the microphone
unfoldable pub capture_push : Frame → Call → Call
capture_push pcm c = if not c.running then c else record c { capture = push c.capture pcm }

-- What the device answers in a round: the bytes it has room for, and whether it takes the frame;
-- none where it cannot tell.
abbrev pub Room : Type 0
Room = Option (ℕ × Bool)

-- the loop of the audio thread over the frames to play, with those that the device took; false is
-- the return of -1, and the answers are as many as the loop asks for
unfoldable pub playback_write : List Room → List Frame → Call → Bool × List Frame × Call
playback_write [] played c = (true, played, c)
playback_write (room ∷ rooms) played c = elim (pop c.playback) [
  | none ↦ (true, played, c)
  | some (frame, rest) ↦ elim room [
    | none ↦ (false, played, c)
    | some (writable, taken) ↦ elim (ltb writable (length frame * 2)) [
      | true ↦ (true, played, c)
      | false ↦ elim taken [
        | true ↦ playback_write rooms (played ++ frame ∷ []) (record c { playback = rest })
        | false ↦ (false, played, record c { playback = rest })
      ]
    ]
  ]
]

-- the samples that wait in the audio thread to fill a frame
pub record Filling : Type 0 where
  pub buffer : List ℤ
  pub call : Call

-- One round of `capture_accumulate`: as many samples as the frame has room for.
unfoldable pub fill_round : List ℤ → Filling → Filling
unfolding capture_push
fill_round some_pcm s =
    let filled = s.buffer ++ some_pcm in
    if length filled == frame_samples
    then record { buffer = []; call = capture_push filled s.call }
    else record s { buffer = filled }

-- A round takes a sample or more, so as much fuel as there are samples is enough.
unfoldable pub accumulate_loop : ℕ → List ℤ → Filling → Filling
accumulate_loop zero pcm s = s
accumulate_loop (suc fuel) [] s = s
accumulate_loop (suc fuel) (x ∷ pcm) s =
    let room = frame_samples - length s.buffer in
    accumulate_loop fuel (drop room (x ∷ pcm)) (fill_round (take room (x ∷ pcm)) s)

-- Where the device has a gap, the samples are zeros.
unfoldable pub capture_accumulate : Option (List ℤ) → ℕ → Filling → Filling
capture_accumulate none samples s = accumulate_loop samples (replicate samples (pos 0)) s
capture_accumulate (some pcm) samples s = accumulate_loop samples (take samples pcm) s
