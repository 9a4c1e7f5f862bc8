-- ===== src/Teams/Members.antt =====
-- The members of a team, through any edits of the roles.
use mathlib.Core.List.{append-nil, append_assoc}
use skorekeeper.Common.{
  String, false, ◌||◌, not, List, [], ◌∷◌, ◌++◌, Option, none, some, filter, elem, elem-append,
  AreUnique, str_eq, if◌then◌else◌, get_or, ◌≡◌, refl, sym, ap, subst, ◌∙◌, arith, eq_iff, inl, inr,
  Bool-cases, some_inj,
}
use skorekeeper.Common.Text.{includes}
use skorekeeper.Teams.{
  Roles, RoleKey, admin_role, scorekeeper_role, spectator_role, members_of, put_members, TeamState,
  validate, all_members, add_team_member, remove_team_member,
}

AreUnique-middle :
    (xs ys : List String) (e : String)
    → AreUnique (xs ++ ys)
    → elem e (xs ++ ys) ≡ false
    → AreUnique (xs ++ e ∷ ys)
AreUnique-middle [] ys e u h = (h, u)
AreUnique-middle (x ∷ xs) ys e (fresh, u) h = (
  ground (arith, elem-append x xs ys, elem-append x xs (e ∷ ys), eq_iff x e, eq_iff e x),
  AreUnique-middle xs ys e u (ground arith),
)

abbrev others : String → List String → List String
others e xs = filter (λ o. not (str_eq o e)) xs

elem-others :
    (s e : String) (xs ys zs : List String)
    → elem s (xs ++ ys ++ zs) ≡ false
    → elem s (xs ++ others e ys ++ zs) ≡ false
elem-others s e [] [] zs h = h
elem-others s e [] (y ∷ ys) zs h = ground (arith, elem-others s e [] ys zs)
elem-others s e (x ∷ xs) ys zs h = ground (arith, elem-others s e xs ys zs)

AreUnique-others :
    (e : String) (xs ys zs : List String)
    → AreUnique (xs ++ ys ++ zs)
    → AreUnique (xs ++ others e ys ++ zs)
AreUnique-others e (x ∷ xs) ys zs (fresh, u) =
    (elem-others x e xs ys zs fresh, AreUnique-others e xs ys zs u)
AreUnique-others e [] [] zs u = u
AreUnique-others e [] (y ∷ ys) zs (fresh, u) = elim (Bool-cases (str_eq y e)) [
  | inl same ↦ rw same (AreUnique-others e [] ys zs u)
  | inr other ↦ rw other (elem-others y e [] ys zs fresh, AreUnique-others e [] ys zs u)
]

others-append : (e : String) (xs : List String) → elem e xs ≡ false → others e (xs ++ e ∷ []) ≡ xs
others-append e [] h = ap (λ b. if not b then e ∷ [] else []) ((eq_iff e e).1 refl)
others-append e (x ∷ xs) h = ground (arith, others-append e xs)

-- No email has two roles, or one role twice.
abbrev pub IsMembership : TeamState → Type 0
IsMembership s = AreUnique (all_members s.roles)

added_unique :
    (email : String) (role : RoleKey) (r : Roles)
    → AreUnique (all_members r)
    → elem email (all_members r) ≡ false
    → AreUnique (all_members (put_members role (members_of role r ++ email ∷ []) r))
unfolding all_members
added_unique email admin_role r u h =
    let here = append_assoc r.admins r.scorekeepers r.spectators in
    let rest = r.scorekeepers ++ r.spectators in
    subst AreUnique
      (sym (
        append_assoc (r.admins ++ email ∷ []) r.scorekeepers r.spectators
        ∙ append_assoc r.admins (email ∷ []) rest))
      (AreUnique-middle r.admins rest email (subst AreUnique here u)
        (ap (elem email) (sym here) ∙ h))
added_unique email scorekeeper_role r u h =
    subst AreUnique
      (sym (
        ap (λ xs. xs ++ r.spectators) (sym (append_assoc r.admins r.scorekeepers (email ∷ [])))
        ∙ append_assoc (r.admins ++ r.scorekeepers) (email ∷ []) r.spectators))
      (AreUnique-middle (r.admins ++ r.scorekeepers) r.spectators email u h)
added_unique email spectator_role r u h =
    let whole = r.admins ++ r.scorekeepers ++ r.spectators in
    subst AreUnique (append_assoc (r.admins ++ r.scorekeepers) r.spectators (email ∷ [])) (
      AreUnique-middle whole [] email (subst AreUnique (sym (append-nil whole)) u)
        (ap (elem email) (append-nil whole) ∙ h))

removed_unique :
    (email : String) (role : RoleKey) (r : Roles)
    → AreUnique (all_members r)
    → AreUnique (all_members (put_members role (others email (members_of role r)) r))
unfolding all_members
removed_unique email admin_role r u =
    subst AreUnique (sym (append_assoc (others email r.admins) r.scorekeepers r.spectators)) (
      AreUnique-others email [] r.admins (r.scorekeepers ++ r.spectators)
        (subst AreUnique (append_assoc r.admins r.scorekeepers r.spectators) u))
removed_unique email scorekeeper_role r u =
    AreUnique-others email r.admins r.scorekeepers r.spectators u
removed_unique email spectator_role r u = subst AreUnique (append-nil _) (
    AreUnique-others email (r.admins ++ r.scorekeepers) r.spectators []
      (subst AreUnique (sym (append-nil _)) u))

-- What an invitation that succeeds has done.
add_team_member_lem :
    (email : String) (role : RoleKey) (s t : TeamState)
    → add_team_member email role s ≡ some t
    → (elem email (all_members s.roles) ≡ false)
      × (record s { roles = put_members role (members_of role s.roles ++ email ∷ []) s.roles } ≡ t)
unfolding add_team_member
add_team_member_lem email role s t e =
    elim (Bool-cases (str_eq email "" || not (validate email 100))) [
      | inl bad ↦ let raised = rw bad at e in absurd cc
      | inr fine ↦ elim (Bool-cases (not (includes email "@"))) [
        | inl bad ↦ let raised = rw (fine, bad) at e in absurd cc
        | inr sign ↦ elim (Bool-cases (elem email (all_members s.roles))) [
          | inl known ↦ let raised = rw (fine, sign, known) at e in absurd cc
          | inr fresh ↦ (fresh, some_inj _ _ (rw (fine, sign, fresh) at e))
        ]
      ]
    ]

members_kept :
    (email : String) (role : RoleKey) (r : Roles)
    → elem email (all_members r) ≡ false
    → elem email (members_of role r) ≡ false
unfolding all_members
members_kept email admin_role r h = ground (
  arith,
  elem-append email (r.admins ++ r.scorekeepers) r.spectators,
  elem-append email r.admins r.scorekeepers,
)
members_kept email scorekeeper_role r h = ground (
  arith,
  elem-append email (r.admins ++ r.scorekeepers) r.spectators,
  elem-append email r.admins r.scorekeepers,
)
members_kept email spectator_role r h =
    ground (arith, elem-append email (r.admins ++ r.scorekeepers) r.spectators)

taken_back :
    (email : String) (role : RoleKey) (s : TeamState)
    → elem email (members_of role s.roles) ≡ false
    → remove_team_member email role
        (record s { roles = put_members role (members_of role s.roles ++ email ∷ []) s.roles })
      ≡ s
unfolding remove_team_member
taken_back email admin_role s h =
    ap (λ xs. record s { roles = record s.roles { admins = xs } })
      (others-append email s.roles.admins h)
taken_back email scorekeeper_role s h =
    ap (λ xs. record s { roles = record s.roles { scorekeepers = xs } })
      (others-append email s.roles.scorekeepers h)
taken_back email spectator_role s h =
    ap (λ xs. record s { roles = record s.roles { spectators = xs } })
      (others-append email s.roles.spectators h)

-- If a member is added, removing it from the role gives back the team as it was.
pub remove_team_member-add_team_member :
    (email : String) (role : RoleKey) (s t : TeamState)
    → add_team_member email role s ≡ some t
    → remove_team_member email role t ≡ s
remove_team_member-add_team_member email role s t e =
    let added = add_team_member_lem email role s t e in
    ap (remove_team_member email role) (sym added.1)
    ∙ taken_back email role s (members_kept email role s.roles added.0)

pub data MemberEdit : Type 0 where
  invite dismiss : String → RoleKey → MemberEdit

abbrev pub edit_members : List MemberEdit → TeamState → TeamState
edit_members [] s = s
edit_members (invite email role ∷ edits) s =
    edit_members edits (get_or (add_team_member email role s) s)
edit_members (dismiss email role ∷ edits) s = edit_members edits (remove_team_member email role s)

add_team_member-IsMembership :
    (email : String) (role : RoleKey) (s : TeamState)
    → IsMembership s
    → IsMembership (get_or (add_team_member email role s) s)
add_team_member-IsMembership email role s u = invited (add_team_member email role s) refl
  where
    invited : (o : Option TeamState) → add_team_member email role s ≡ o → IsMembership (get_or o s)
    invited none e = u
    invited (some t) e =
        let added = add_team_member_lem email role s t e in
        subst IsMembership added.1 (added_unique email role s.roles u added.0)

-- Whatever members are added and removed, no email comes to have two roles, or one twice.
pub edit_members-IsMembership :
    (edits : List MemberEdit) (s : TeamState) → IsMembership s → IsMembership (edit_members edits s)
unfolding remove_team_member
edit_members-IsMembership [] s u = u
edit_members-IsMembership (invite email role ∷ edits) s u =
    edit_members-IsMembership edits _ (add_team_member-IsMembership email role s u)
edit_members-IsMembership (dismiss email role ∷ edits) s u =
    edit_members-IsMembership edits (remove_team_member email role s)
      (removed_unique email role s.roles u)
