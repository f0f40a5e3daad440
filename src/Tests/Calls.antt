-- ===== src/Tests/Calls.antt =====
-- helper/av.c: a call that comes in, is taken, and ends.
use oma_q.Prelude.{◌≡◌, refl, Bool, true, false, some, List, [], ◌∷◌, ◌==◌, length, arith}
use oma_q.Prelude.Int.{pos, negsuc, ◌+ℤ◌}
use oma_q.Calls.Rings.{Frame, ring_init}
use oma_q.Calls.{
  Call, noted, call_init, audio_start, note_incoming, note_active, start_call, answer, stop_call,
  note_end, mix, recent_call_blocked, refused, capture_push, capture_accumulate, status, active,
  incoming,
}
use oma_q.Calls.State.{CallOk}
use oma_q.Calls.Capture.{sample_by_sample, capture_accumulate_lem}
use oma_q.Calls.Reached.{Reached, start, ended, Reached-CallOk, end_cooldown}

abbrev ringing : Call
ringing = (note_incoming (some (100, 0)) 7 call_init).1

abbrev talking : Call
talking = (answer (some (101, 0)) true true 7 ringing).1

status-ringing : status ringing ≡ some (7, incoming)
unfolding status note_incoming call_init recent_call_blocked
status-ringing = refl

status-talking : status talking ≡ some (7, active)
unfolding status answer note_active note_incoming call_init recent_call_blocked audio_start
    ring_init
status-talking = refl

-- 3 - 8 is -5, and half of it -2.
mixed : mix (pos 3 ∷ negsuc 7 ∷ []) ≡ negsuc 1 ∷ []
unfolding mix ◌+ℤ◌
mixed = refl

talking-Reached : Reached talking
talking-Reached =
    Reached.answered {c = ringing} (some (101, 0)) true true 7 (omega arith)
      (Reached.incoming {c = call_init} (some (100, 0)) 7 (omega arith) start)

Reached-CallOk_example : CallOk talking
Reached-CallOk_example = Reached-CallOk talking-Reached

over-Reached : Reached (note_end (some (130, 0)) 7 talking).1
over-Reached = ended {c = talking} (some (130, 0)) 7 talking-Reached

abbrev in_call : Call
in_call = record call_init { call = 7 }

end_cooldown_example :
    let r = (note_end (some (10, 900000000)) 7 in_call).1 in
    ((stop_call (some (10, 900000000)) true 7 in_call).1 ≡ r)
    × (note_incoming (some (12, 899000000)) 7 r ≡ (refused, r))
    × (note_active (some (12, 899000000)) true 7 r ≡ (refused, r))
    × (start_call (some (12, 899000000)) true 7 r ≡ (false, r))
    × ((note_incoming (some (12, 900000000)) 7 r).0 ≡ noted)
    × ((note_active (some (12, 900000000)) true 7 r).0 ≡ noted)
    × ((start_call (some (12, 900000000)) true 7 r).0 ≡ true)
end_cooldown_example =
    end_cooldown in_call 7 (10, 900000000) (12, 899000000) (12, 900000000) true true true refl
      (omega arith) (omega arith) (omega arith) (omega arith) (omega arith) (omega arith)
      (omega arith)

-- Toxcore takes one frame and then no more, though the frames are the same.
abbrev takes_one : List Frame → Frame → Bool
takes_one done frame = length done == 0

abbrev spoken : Call
spoken = capture_push (pos 0 ∷ []) (capture_push (pos 0 ∷ []) talking)

capture_accumulate_lem_example :
    capture_accumulate
      (some (pos 1 ∷ negsuc 0 ∷ []))
      2
      (record { buffer = pos 5 ∷ []; call = talking })
    ≡ sample_by_sample (pos 1 ∷ negsuc 0 ∷ []) (record { buffer = pos 5 ∷ []; call = talking })
capture_accumulate_lem_example =
    capture_accumulate_lem (pos 1 ∷ negsuc 0 ∷ []) (record { buffer = pos 5 ∷ []; call = talking })
      (omega arith)
