-- ===== src/Tests/Rate.antt =====
-- helper/rate.c on runs of one, two and three calls.
use oma_q.Prelude.{◌≤◌, ◌≡◌, refl, false, [], ◌∷◌, arith}
use oma_q.Prelude.Bytes.{codes}
use oma_q.Prelude.Decimal.{print_decimal, print_digits}
use oma_q.Prelude.Int.{pos}
use oma_q.Rate.Windows.{control_init, control_allow, control_key}
use oma_q.Rate.Windows.Offers.{offer_init}
use oma_q.Rate.Windows.Messages.{message_init}
use oma_q.Rate.Windows.Budget.{accepted, after, Within}
use oma_q.Rate.Windows.Limits.{
  ControlCall, control_step, control_time, control_budget, OfferCall, offer_step, offer_time,
  offer_budget,
}
use oma_q.Rate.Windows.MessageLimits.{MessageCall, message_step, message_time, message_budget}

edit_key : control_key b'e' 12 (codes "ab") ≡ codes "e12:ab"
unfolding control_key print_decimal print_digits
edit_key = refl

bad_kind : (control_allow control_init b'q' 1 (codes "ab") (pos 5)).0 ≡ false
unfolding control_allow
bad_kind = refl

abbrev packet : ControlCall
packet = record { kind = b'r'; group = 3; actor = codes "peer"; now = 100 }

control_budget_example :
    accepted control_step control_time
      (after control_step control_time control_init (packet ∷ []))
      (packet ∷ record packet { now = 159 } ∷ [])
    ≤ 240
unfolding Within
control_budget_example =
    control_budget (packet ∷ []) (packet ∷ record packet { now = 159 } ∷ []) 100
      (omega arith, omega arith, (omega arith, omega arith, tt))

abbrev offer : OfferCall
offer = record { group = codes "g"; actor = codes "peer"; now = 100 }

offer_budget_example :
    accepted offer_step offer_time
      (after offer_step offer_time offer_init (offer ∷ []))
      (offer ∷ record offer { now = 159 } ∷ [])
    ≤ 60
unfolding Within
offer_budget_example =
    offer_budget (offer ∷ []) (offer ∷ record offer { now = 159 } ∷ []) 100
      (omega arith, omega arith, (omega arith, omega arith, tt))

abbrev text : MessageCall
text = record { conversation = codes "7"; actor = codes "peer"; now = 100 }

message_budget_example :
    (accepted message_step message_time
        (after message_step message_time message_init [])
        (text ∷ [])
      ≤ 80)
    × (accepted message_step message_time
          (after message_step message_time message_init [])
          (text ∷ record text { now = 159 } ∷ [])
        ≤ 240)
unfolding Within
message_budget_example =
    message_budget [] (text ∷ []) (text ∷ record text { now = 159 } ∷ []) 100 100
      (omega arith, omega arith, tt) (omega arith, omega arith, (omega arith, omega arith, tt))
