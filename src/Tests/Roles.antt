-- ===== src/Tests/Roles.antt =====
-- helper/roles.c on some roles and names.
use oma_q.Prelude.{◌≤◌, ◌<◌, ◌≡◌, refl, true, false, some}
use oma_q.Prelude.Bytes.{codes}
use oma_q.Roles.{member, admin, invite, set_role, kick, role_may, action_parse}
use oma_q.Roles.Laws.{rank, role_may-rank}

admin_not_admin : role_may admin kick admin ≡ false
unfolding role_may
admin_not_admin = refl

set_role_parsed : action_parse (codes "setRole") ≡ some set_role
unfolding action_parse
set_role_parsed = refl

role_may-rank_example :
    (role_may admin kick member ≡ true → rank member < rank admin)
    × (role_may admin invite member ≡ true → (rank member ≤ rank admin) × (rank member < 3))
    × (role_may admin set_role member ≡ true → (rank member ≤ rank admin) × (rank member < 3))
role_may-rank_example = role_may-rank admin member
