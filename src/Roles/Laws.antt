-- ===== src/Roles/Laws.antt =====
-- helper/roles.c: what the table of permissions promises.
use oma_q.Prelude.{ℕ, ◌≤◌, ◌<◌, ◌≡◌, ◌↔◌, ap, true, some, Bool-cases, inl, inr, arith}
use oma_q.Prelude.Bytes.{Bytes, codes, bytes_eq, bytes_eq→eq}
use oma_q.Roles.{
  Role, member, admin, owner, outside, Action, read, write, leave, invite, set_role, kick, dissolve,
  unknown, role_name, role_parse, role_valid, role_may,
}

-- 0 for a value outside the enumeration
abbrev pub rank : Role → ℕ
rank (outside n) = 0
rank member = 1
rank admin = 2
rank owner = 3

-- Who may remove a member from a group ranks above that member, and who may give a role, by an
-- invitation or a change of role, ranks no lower than the role given, which is not the owner's.
pub role_may-rank :
    (a t : Role)
    → (role_may a kick t ≡ true → rank t < rank a)
      × (role_may a invite t ≡ true → (rank t ≤ rank a) × (rank t < 3))
      × (role_may a set_role t ≡ true → (rank t ≤ rank a) × (rank t < 3))
unfolding role_may
role_may-rank member t = (λ h. ground arith, λ h. ground arith, λ h. ground arith)
role_may-rank (outside n) t = (λ h. ground arith, λ h. ground arith, λ h. ground arith)
role_may-rank admin t = (λ h. ground arith, λ h. ground arith, λ h. ground arith)
role_may-rank owner t = (λ h. ground arith, λ h. ground arith, λ h. ground arith)

may_cases :
    (a b : Role) (w : Action) (t : Role)
    → rank a < rank b
    → role_may a w t ≡ true
    → role_may b w t ≡ true
unfolding role_may
may_cases a b read t l h = ground arith
may_cases a b write t l h = ground arith
may_cases a b leave t l h = ground arith
may_cases a b invite t l h = ground arith
may_cases a b set_role t l h = ground arith
may_cases a b kick t l h = ground arith
may_cases a b dissolve t l h = ground arith
may_cases a b (unknown n) t l h = ground arith

-- What one role may do, every role that ranks no lower may do to the same target.
pub role_may_mono :
    (a b : Role) (w : Action) (t : Role)
    → rank a ≤ rank b
    → role_may a w t ≡ true
    → role_may b w t ≡ true
unfolding role_may
role_may_mono (outside n) b w t l h = ground arith
role_may_mono member (outside n) w t l h = ground arith
role_may_mono admin (outside n) w t l h = ground arith
role_may_mono owner (outside n) w t l h = ground arith
role_may_mono member member w t l h = h
role_may_mono member admin w t l h = may_cases member admin w t (omega arith) h
role_may_mono member owner w t l h = may_cases member owner w t (omega arith) h
role_may_mono admin member w t l h = ground arith
role_may_mono admin admin w t l h = h
role_may_mono admin owner w t l h = may_cases admin owner w t (omega arith) h
role_may_mono owner member w t l h = ground arith
role_may_mono owner admin w t l h = ground arith
role_may_mono owner owner w t l h = h

parse_sound :
    (s : Bytes) (r : Role) → role_parse s ≡ some r → (role_valid r ≡ true) × (s ≡ role_name r)
unfolding role_parse role_name role_valid
parse_sound s r h = elim (Bool-cases (bytes_eq s (codes "member"))) [
  | inl e ↦ ground (arith, bytes_eq→eq s (codes "member") e)
  | inr e ↦ elim (Bool-cases (bytes_eq s (codes "admin"))) [
    | inl f ↦ ground (arith, bytes_eq→eq s (codes "admin") f)
    | inr f ↦ elim (Bool-cases (bytes_eq s (codes "owner"))) [
      | inl g ↦ ground (arith, bytes_eq→eq s (codes "owner") g)
      | inr g ↦ ground arith
    ]
  ]
]

parse_total :
    (s : Bytes) (r : Role) → (role_valid r ≡ true) × (s ≡ role_name r) → role_parse s ≡ some r
unfolding role_parse role_name role_valid
parse_total s member (v, e) = ap role_parse e
parse_total s admin (v, e) = ap role_parse e
parse_total s owner (v, e) = ap role_parse e
parse_total s (outside n) (v, e) = ground arith

-- A text is read as a role exactly if it is the name of that role, and the role is valid.
pub role_parse_iff :
    (s : Bytes) (r : Role) → (role_parse s ≡ some r) ↔ ((role_valid r ≡ true) × (s ≡ role_name r))
unfolding role_parse role_name role_valid
role_parse_iff s r = (parse_sound s r, parse_total s r)
