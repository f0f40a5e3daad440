-- ===== src/Rate/Windows/MessageLimits.antt =====
-- helper/rate.c: the limits of the messages in all.
use oma_q.Prelude.{
  ℕ, ◌+◌, ◌≤◌, ◌≡◌, inl, inr, refl, Bool, true, false, ◌||◌, none, some, List, ◌∷◌, ◌++◌, leb,
  length, Bool-cases, arith,
}
use oma_q.Prelude.Bytes.{Bytes}
use oma_q.Prelude.Int.{pos}
use oma_q.Rate.{is_blank}
use oma_q.Rate.Windows.Budget.{Ticks, same, accepted, after, Within, after_le, in_two_windows}
use oma_q.Rate.Windows.{Meter, refresh}
use oma_q.Rate.Windows.Limits.{Counts, count_none, refreshed}
use oma_q.Rate.Windows.Messages.{
  MessageRate, message_init, message_allow, message_global_test, message_entry, settle_message,
  search_message, message_key_len, global_burst, global_minute, burst_seconds, burst_per_key,
  per_minute,
}

pub record MessageCall : Type 0 where
  pub conversation : Bytes
  pub actor : Bytes
  pub now : ℕ

abbrev pub message_step : MessageRate → MessageCall → Bool × MessageRate
message_step r x = message_allow r x.conversation x.actor (pos x.now)

abbrev pub message_time : MessageCall → ℕ
message_time x = x.now

abbrev pub burst_meter : MessageRate → Meter
burst_meter r = r.burst

abbrev pub minute_meter : MessageRate → Meter
minute_meter r = r.minute

message_entry-Counts :
    (r : MessageRate) (o : _)
    → Counts r.burst (message_entry r o).0 (message_entry r o).1.burst
      × Counts r.minute (message_entry r o).0 (message_entry r o).1.minute
unfolding message_entry
message_entry-Counts r none = (refl, refl)
message_entry-Counts r (some (i, e)) =
    elim (Bool-cases (leb burst_per_key e.burst.count || leb per_minute e.minute.count)) [
      | inl p ↦ (rw p refl, rw p refl)
      | inr p ↦ (rw p refl, rw p refl)
    ]

or_false : (a b : Bool) → (a || b) ≡ false → (a ≡ false) × (b ≡ false)
or_false true b h = ground arith
or_false false b h = (refl, h)

burst-Ticks :
    (r : MessageRate) (x : MessageCall)
    → (burst_meter r).count ≤ global_burst
    → Ticks burst_seconds global_burst x.now
        (message_step r x).0
        (burst_meter r)
        (burst_meter (message_step r x).1)
unfolding message_allow message_global_test
burst-Ticks r x h =
    let key = x.conversation ++ b':' ∷ x.actor in
    let fresh = record r {
      burst = refresh x.now burst_seconds r.burst;
      minute = refresh x.now 60 r.minute;
    } in
    elim (Bool-cases
      (is_blank x.conversation || (is_blank x.actor || leb message_key_len (length key)))) [
        | inl p ↦ rw p (same refl refl)
        | inr p ↦
            elim (Bool-cases (
              leb global_burst (refresh x.now burst_seconds r.burst).count
              || leb global_minute (refresh x.now 60 r.minute).count)) [
                | inl q ↦ rw (p, q) (count_none burst_seconds global_burst x.now r.burst h)
                | inr q ↦
                    rw (p, q)
                      (refreshed burst_seconds global_burst x.now r.burst _ _ h (or_false _ _ q).0
                        (message_entry-Counts fresh
                          (settle_message x.now key r.entries (search_message key r.entries))).0)
              ]
      ]

minute-Ticks :
    (r : MessageRate) (x : MessageCall)
    → (minute_meter r).count ≤ global_minute
    → Ticks 60 global_minute x.now
        (message_step r x).0
        (minute_meter r)
        (minute_meter (message_step r x).1)
unfolding message_allow message_global_test
minute-Ticks r x h =
    let key = x.conversation ++ b':' ∷ x.actor in
    let fresh = record r {
      burst = refresh x.now burst_seconds r.burst;
      minute = refresh x.now 60 r.minute;
    } in
    elim (Bool-cases
      (is_blank x.conversation || (is_blank x.actor || leb message_key_len (length key)))) [
        | inl p ↦ rw p (same refl refl)
        | inr p ↦
            elim (Bool-cases (
              leb global_burst (refresh x.now burst_seconds r.burst).count
              || leb global_minute (refresh x.now 60 r.minute).count)) [
                | inl q ↦ rw (p, q) (count_none 60 global_minute x.now r.minute h)
                | inr q ↦
                    rw (p, q)
                      (refreshed 60 global_minute x.now r.minute _ _ h (or_false _ _ q).1
                        (message_entry-Counts fresh
                          (settle_message x.now key r.entries (search_message key r.entries))).1)
              ]
      ]

-- After any run of messages, those accepted of any further run of messages that come in the order
-- of time are at most 80 if they come within 10 seconds, and at most 240 within 60 seconds.
pub message_budget :
    (xs ys zs : List MessageCall) (t u : ℕ)
    → Within message_step message_time t (t + 10) ys
    → Within message_step message_time u (u + 60) zs
    → (accepted message_step message_time (after message_step message_time message_init xs) ys ≤ 80)
      × (accepted message_step message_time (after message_step message_time message_init xs) zs
          ≤ 240)
unfolding message_init
message_budget xs ys zs t u v w =
    let b =
      after_le message_step message_time burst_meter 10 40 burst-Ticks message_init xs
        (omega arith) in
    let m =
      after_le message_step message_time minute_meter 60 120 minute-Ticks message_init xs
        (omega arith) in
    (
      omega (
        arith,
        in_two_windows message_step message_time burst_meter 10 40 burst-Ticks
            (after message_step message_time message_init xs) t t ys b (omega arith) v,
      ),
      omega (
        arith,
        in_two_windows message_step message_time minute_meter 60 120 minute-Ticks
            (after message_step message_time message_init xs) u u zs m (omega arith) w,
      ),
    )
