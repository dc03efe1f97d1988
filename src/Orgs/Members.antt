-- ===== src/Orgs/Members.antt =====
-- Memberships of an org: `getMembership`, `listMembers`, `countAdmins`, `updateMembershipRole`,
-- `removeMembership` and `transferOrgOwnership` of server/shared/utils/org-store.ts. Each
-- transaction is one function on the tables.
use specifyr.Prelude.{
  ℕ, ◌&&◌, Option, none, some, List, [], ◌∷◌, ◌++◌, Text, ◌==◌, leb, if◌then◌else◌,
}
use specifyr.Database.{select, select_one, update, delete, count}
use specifyr.Orgs.Rows.{
  Role, admin, member, role_eq, User, Org, OrgMembership, Db, is_org, is_membership, is_admin_of,
  is_grant_of,
}

pub data Reason : Type 0 where
  not_member owner_immutable would_orphan_admins same_owner : Reason

-- `{ ok: true }` or `{ ok: false, reason }`
pub data MutationResult : Type 0 where
  done : MutationResult
  refused : Reason → MutationResult

abbrev pub set_role : Role → OrgMembership → OrgMembership
set_role role m = record m { role = role }

abbrev pub set_owner : ℕ → Org → Org
set_owner user_id o = record o { owner_user_id = user_id }

unfoldable pub get_membership : ℕ → ℕ → Db → Option OrgMembership
get_membership org_id user_id db =
    if db.is_configured then select_one (is_membership org_id user_id) db.memberships else none

unfoldable pub get_org_by_id : ℕ → Db → Option Org
get_org_by_id org_id db = select_one (is_org org_id) db.orgs

unfoldable pub count_admins : ℕ → Db → ℕ
count_admins org_id db = if db.is_configured then count (is_admin_of org_id) db.memberships else 0

pub record MemberRow : Type 0 where
  pub user_id : ℕ
  pub email : Text
  pub display_name : Option Text
  pub role : Role
  pub joined_at : ℕ

-- `innerJoin(users, eq(users.id, orgMemberships.userId))`
member_rows : OrgMembership → List User → List MemberRow
member_rows m [] = []
member_rows m (u ∷ us) =
    if u.id == m.user_id
    then record {
      user_id = u.id;
      email = u.email;
      display_name = u.display_name;
      role = m.role;
      joined_at = m.created_at;
    }
      ∷ member_rows m us
    else member_rows m us

join_members : List OrgMembership → List User → List MemberRow
join_members [] us = []
join_members (m ∷ ms) us = member_rows m us ++ join_members ms us

unfoldable pub list_members : ℕ → Db → List MemberRow
unfolding member_rows join_members
list_members org_id db =
    if db.is_configured
    then join_members (select (λ m. m.org_id == org_id) db.memberships) db.users
    else []

-- What the guards of `updateMembershipRole` decide, in the order of the code.
update_guard : ℕ → ℕ → Role → Org → OrgMembership → List OrgMembership → Option Reason
update_guard org_id user_id role org m ms =
    if org.owner_user_id == user_id && role_eq role member
    then some owner_immutable
    else if role_eq m.role admin && role_eq role member && leb (count (is_admin_of org_id) ms) 1
    then some would_orphan_admins
    else none

unfoldable pub update_membership_role : ℕ → ℕ → Role → Db → MutationResult × Db
unfolding update_guard
update_membership_role org_id user_id role db =
    if db.is_configured
    then elim (select_one (is_org org_id) db.orgs) [
      | none ↦ (refused not_member, db)
      | some org ↦ elim (select_one (is_membership org_id user_id) db.memberships) [
        | none ↦ (refused not_member, db)
        | some m ↦ elim (update_guard org_id user_id role org m db.memberships) [
          | some reason ↦ (refused reason, db)
          | none ↦ (
            done,
            record db {
              memberships = update (is_membership org_id user_id) (set_role role) db.memberships;
            },
          )
        ]
      ]
    ]
    else (refused not_member, db)

remove_guard : ℕ → ℕ → Org → OrgMembership → List OrgMembership → Option Reason
remove_guard org_id user_id org m ms =
    if org.owner_user_id == user_id
    then some owner_immutable
    else if role_eq m.role admin && leb (count (is_admin_of org_id) ms) 1
    then some would_orphan_admins
    else none

-- The foreign key of the grants to the memberships has `onDelete("cascade")`. The memberships of
-- projects have no such key: the statement does not reach them, and the tables here leave them out.
unfoldable pub remove_membership : ℕ → ℕ → Db → MutationResult × Db
unfolding remove_guard
remove_membership org_id user_id db =
    if db.is_configured
    then elim (select_one (is_org org_id) db.orgs) [
      | none ↦ (refused not_member, db)
      | some org ↦ elim (select_one (is_membership org_id user_id) db.memberships) [
        | none ↦ (refused not_member, db)
        | some m ↦ elim (remove_guard org_id user_id org m db.memberships) [
          | some reason ↦ (refused reason, db)
          | none ↦ (
            done,
            record db {
              memberships = delete (is_membership org_id user_id) db.memberships;
              permissions = delete (is_grant_of org_id user_id) db.permissions;
            },
          )
        ]
      ]
    ]
    else (refused not_member, db)

unfoldable pub transfer_org_ownership : ℕ → ℕ → Db → MutationResult × Db
transfer_org_ownership org_id new_owner db =
    if db.is_configured
    then elim (select_one (is_org org_id) db.orgs) [
      | none ↦ (refused not_member, db)
      | some org ↦
          if org.owner_user_id == new_owner
          then (refused same_owner, db)
          else elim (select_one (is_membership org_id new_owner) db.memberships) [
            | none ↦ (refused not_member, db)
            | some m ↦ (
              done,
              record db {
                orgs = update (is_org org_id) (set_owner new_owner) db.orgs;
                memberships =
                    update (is_membership org_id org.owner_user_id) (set_role admin)
                      (update (is_membership org_id new_owner) (set_role admin) db.memberships);
              },
            )
          ]
    ]
    else (refused not_member, db)
