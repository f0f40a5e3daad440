-- ===== src/Tests/Unread.antt =====
-- helper/conversation.c on two conversations.
use oma_q.Prelude.{ℕ, ◌≡◌, ◌+◌, if◌then◌else◌, refl, Bool, true, false, some, [], ◌∷◌, min}
use oma_q.Prelude.Bytes.{Bytes, codes, bytes_eq}
use oma_q.Prelude.Int.{ℤ, pos}
use oma_q.Unread.{
  UnreadState, unread_init, unread_increment, unread_count, unread_id_ok, unread_find,
  unread_reserve, find, bump_at, unread_count_max,
}
use oma_q.Unread.Invariant.{Inv, start, increment, Reached-Inv}
use oma_q.Unread.Counts.{unread_increment_lem}

abbrev always : ℕ → Bool
always n = true

abbrev seven : Bytes
seven = codes "7"

abbrev eight : Bytes
eight = codes "8"

abbrev one : UnreadState
one = record { entries = record { id = seven; count = 1 } ∷ []; capacity = 16 }

abbrev two : UnreadState
two = record { entries = record { id = seven; count = 2 } ∷ []; capacity = 16 }

leading_zero : unread_id_ok (codes "07") ≡ false
unfolding unread_id_ok
leading_zero = refl

largest_friend : unread_id_ok (codes "4294967295") ≡ true
unfolding unread_id_ok
largest_friend = refl

above_friend : unread_id_ok (codes "4294967296") ≡ false
unfolding unread_id_ok
above_friend = refl

seven_added : unread_increment always unread_init seven ≡ some one
unfolding unread_increment unread_init unread_id_ok unread_find find unread_reserve
seven_added = refl

seven_again : unread_increment always one seven ≡ some two
unfolding unread_increment unread_id_ok unread_find find bump_at
seven_again = refl

Reached-Inv_example : Inv two
Reached-Inv_example = Reached-Inv (
    increment always {state = one} seven
      (increment always {state = unread_init} seven start seven_added) seven_again)

one-Inv : Inv one
one-Inv = Reached-Inv (increment always {state = unread_init} seven start seven_added)

unread_increment_lem_example :
    (unread_count two seven ≡ min (unread_count one seven + 1) unread_count_max)
    × ((d : Bytes) → bytes_eq seven d ≡ false → unread_count two d ≡ unread_count one d)
unread_increment_lem_example = unread_increment_lem always one seven two one-Inv seven_again

abbrev huge : UnreadState
huge = record {
  entries = record { id = seven; count = 4294967295 } ∷ record { id = eight; count = 1 } ∷ [];
  capacity = 16;
}

abbrev only_eight : Bytes → ℤ
only_eight c = if bytes_eq c eight then pos 1 else pos 0

abbrev both : UnreadState
both = record {
  entries = record { id = seven; count = 4 } ∷ record { id = eight; count = 1 } ∷ [];
  capacity = 16;
}

abbrev pruned : UnreadState
pruned = record { entries = record { id = eight; count = 1 } ∷ []; capacity = 16 }
