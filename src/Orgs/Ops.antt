-- ===== src/Orgs/Ops.antt =====
-- The operations on an org as one type of requests, so that a history of the tables is a list of
-- them. An operation that throws leaves the tables as they were.
use specifyr.Prelude.{ℕ, Bool, Option, List, [], ◌∷◌, Text}
use specifyr.Prelude.Result.{Result, ok, throw}
use specifyr.Orgs.Rows.{Role, OrgPermission, Db, Error}
use specifyr.Orgs.Create.{create_org_with_admin}
use specifyr.Orgs.Members.{update_membership_role, remove_membership, transfer_org_ownership}
use specifyr.Orgs.Invites.{create_invite, accept_invite, revoke_invite}
use specifyr.Orgs.Permissions.{grant_permission, revoke_permission}

pub data Op : Type 0 where
  create : ℕ → ℕ → Text → Bool → Text → ℕ → Op
  set_role : ℕ → ℕ → Role → Op
  remove transfer : ℕ → ℕ → Op
  invite : Text → ℕ → ℕ → Text → Role → ℕ → Op
  accept : Text → ℕ → ℕ → Op
  revoke : Text → ℕ → Op
  grant : ℕ → ℕ → ℕ → OrgPermission → Option ℕ → Op
  revoke_grant : ℕ → ℕ → OrgPermission → Op

abbrev pub committed : {A : Type 0} → Db → Result Error (A × Db) → Db
committed db (ok (_, db')) = db'
committed db (throw _) = db

unfoldable pub apply : (Text → Text) → Op → Db → Db
apply lower (create id now pool ddl_ok name user) db =
    committed db (create_org_with_admin id now pool ddl_ok name user db)
apply lower (set_role org user role) db = (update_membership_role org user role db).1
apply lower (remove org user) db = (remove_membership org user db).1
apply lower (transfer org user) db = (transfer_org_ownership org user db).1
apply lower (invite token now org email role user) db =
    committed db (create_invite lower token now org email role user db)
apply lower (accept token user now) db = committed db (accept_invite token user now db)
apply lower (revoke token now) db = committed db (revoke_invite token now db)
apply lower (grant now org user p by) db = committed db (grant_permission now org user p by db)
apply lower (revoke_grant org user p) db = committed db (revoke_permission org user p db)

unfoldable pub apply_all : (Text → Text) → List Op → Db → Db
apply_all lower [] db = db
apply_all lower (op ∷ ops) db = apply_all lower ops (apply lower op db)
