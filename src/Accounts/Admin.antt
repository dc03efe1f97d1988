-- ===== src/Accounts/Admin.antt =====
-- `requirePlatformAdmin` of server/shared/utils/platform-admin-auth.ts and the handlers that block
-- and delete a user, under server/admin/api/admin/users.
use specifyr.Prelude.{ℕ, Bool, false, Option, none, some, ◌==◌, ltb, if◌then◌else◌}
use specifyr.Database.{select_one, update, delete, count}
use specifyr.Accounts.Rows.{User, Db, has_id}

pub data Denial : Type 0 where
  not_authenticated db_not_configured platform_admin_only : Denial
  cannot_block_yourself cannot_delete_yourself user_not_found : Denial
  owns_orgs : ℕ → Denial

pub data Response : Type 0 where
  done : Response
  denied : Denial → Response

-- `none` is that the caller is a platform admin.
unfoldable pub require_platform_admin : Option ℕ → Db → Option Denial
require_platform_admin none db = some not_authenticated
require_platform_admin (some user_id) db =
    if db.is_configured
    then elim (select_one (has_id user_id) db.users) [
      | none ↦ some platform_admin_only
      | some u ↦ if u.is_platform_admin then none else some platform_admin_only
    ]
    else some db_not_configured

abbrev pub set_blocked : Bool → ℕ → User → User
set_blocked blocked now u = record u {
  blocked_at = if blocked then some now else none;
  updated_at = now;
}

-- The handler behind `requirePlatformAdmin`, for the caller `admin_id`.
pub block_user : ℕ → ℕ → ℕ → Bool → Db → Response × Db
block_user now admin_id id blocked db =
    if id == admin_id
    then (denied cannot_block_yourself, db)
    else elim (select_one (has_id id) db.users) [
      | none ↦ (denied user_not_found, db)
      | some u ↦ (done, record db { users = update (has_id id) (set_blocked blocked now) db.users })
    ]

unfoldable pub patch_user : ℕ → Option ℕ → ℕ → Bool → Db → Response × Db
unfolding block_user
patch_user now none id blocked db = (denied not_authenticated, db)
patch_user now (some caller) id blocked db = elim (require_platform_admin (some caller) db) [
  | some why ↦ (denied why, db)
  | none ↦ block_user now caller id blocked db
]

-- The references of the other tables to the user cascade, and that of a setting is set to null.
pub erase_user : ℕ → ℕ → Db → Response × Db
erase_user admin_id id db =
    let owned = count (λ o. o == id) db.org_owners in
    if id == admin_id
    then (denied cannot_delete_yourself, db)
    else if ltb 0 owned
    then (denied (owns_orgs owned), db)
    else elim (select_one (has_id id) db.users) [
      | none ↦ (denied user_not_found, db)
      | some u ↦ (
        done,
        record db {
          users = delete (has_id id) db.users;
          settings =
              update (λ s. elim s.updated_by_user_id [ none ↦ false | some by ↦ by == id ])
                (λ s. record s { updated_by_user_id = none }) db.settings;
        },
      )
    ]

unfoldable pub delete_user : Option ℕ → ℕ → Db → Response × Db
unfolding erase_user
delete_user none id db = (denied not_authenticated, db)
delete_user (some caller) id db = elim (require_platform_admin (some caller) db) [
  | some why ↦ (denied why, db)
  | none ↦ erase_user caller id db
]
