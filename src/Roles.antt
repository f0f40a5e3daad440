-- ===== src/Roles.antt =====
-- helper/roles.c and helper/roles.h: what a member of a group may do.
pub mod Laws
use oma_q.Prelude.{
  ℕ, Bool, true, false, not, ◌&&◌, ◌||◌, Option, none, some, List, [], ◌∷◌, if◌then◌else◌,
}
use oma_q.Prelude.Bytes.{Bytes, codes, bytes_eq}

-- `outside` is a value of the enumeration's type that is none of its constants.
pub data Role : Type 0 where
  member admin owner : Role
  outside : ℕ → Role

-- For `invite` and `set_role` the target is the role that is given, for `kick` that of the victim.
pub data Action : Type 0 where
  read write leave invite set_role kick dissolve : Action
  unknown : ℕ → Action

unfoldable pub role_name : Role → Bytes
role_name member = codes "member"
role_name admin = codes "admin"
role_name owner = codes "owner"
role_name (outside n) = []

unfoldable pub role_parse : Bytes → Option Role
role_parse s =
    if bytes_eq s (codes "member")
    then some member
    else if bytes_eq s (codes "admin")
    then some admin
    else if bytes_eq s (codes "owner")
    then some owner
    else none

unfoldable pub action_parse : Bytes → Option Action
action_parse s =
    if bytes_eq s (codes "read")
    then some read
    else if bytes_eq s (codes "write")
    then some write
    else if bytes_eq s (codes "leave")
    then some leave
    else if bytes_eq s (codes "invite")
    then some invite
    else if bytes_eq s (codes "setRole")
    then some set_role
    else if bytes_eq s (codes "kick")
    then some kick
    else if bytes_eq s (codes "dissolve")
    then some dissolve
    else none

abbrev pub is_member : Role → Bool
is_member member = true
is_member _ = false

abbrev pub is_admin : Role → Bool
is_admin admin = true
is_admin _ = false

abbrev pub is_owner : Role → Bool
is_owner owner = true
is_owner _ = false

unfoldable pub role_valid : Role → Bool
role_valid role = is_member role || (is_admin role || is_owner role)

-- the switch behind the tests of the arguments
abbrev pub may_valid : Role → Action → Role → Bool
may_valid actor read target = true
may_valid actor write target = true
may_valid actor leave target = true
may_valid actor invite target =
    if is_member actor then false else is_member target || is_admin target
may_valid actor set_role target =
    if is_owner target
    then false
    else if is_owner actor
    then is_member target || is_admin target
    else if is_admin actor
    then is_admin target
    else false
may_valid actor kick target =
    if is_owner actor
    then not (is_owner target)
    else if is_admin actor
    then is_member target
    else false
may_valid actor dissolve target = is_owner actor
may_valid actor (unknown n) target = false

unfoldable pub role_may : Role → Action → Role → Bool
unfolding role_valid
role_may actor what target =
    if not (role_valid actor) || not (role_valid target) then false else may_valid actor what target
