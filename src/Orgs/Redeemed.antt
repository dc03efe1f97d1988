-- ===== src/Orgs/Redeemed.antt =====
-- What stays of a redemption: an invite is accepted once.
use specifyr.Prelude.{
  ℕ, ◌≡◌, refl, Bool, true, false, some, none, List, [], ◌∷◌, arith, Text, text_eq_iff,
  Option-cases, inl, inr, is_some, any,
}
use specifyr.Prelude.Result.{ok}
use specifyr.Database.{select_one, update}
use specifyr.Orgs.Rows.{Role, OrgInvite, Db}
use specifyr.Orgs.Create.{create_org_with_admin}
use specifyr.Orgs.Members.{update_membership_role, remove_membership, transfer_org_ownership}
use specifyr.Orgs.Invites.{
  create_invite, accept_invite, accept_check, revoke_invite, is_invite, new_invite, accepted,
  rejected, already_used, stamp_accepted, stamp_revoked,
}
use specifyr.Orgs.Permissions.{grant_permission, revoke_permission}
use specifyr.Orgs.Lookups.{stamped_accepted, select_invite-token}
use specifyr.Orgs.Ops.{
  Op, create, set_role, remove, transfer, invite, accept, revoke, grant, revoke_grant, apply,
  apply_all,
}

-- The invite that a token finds has been accepted.
abbrev is_used : Text → List OrgInvite → Bool
is_used token is = elim (select_one (is_invite token) is) [
  | none ↦ false
  | some i ↦ is_some i.accepted_at
]

abbrev IsRedeemed : Text → Db → Type 0
IsRedeemed token db = (db.is_configured ≡ true) × (is_used token db.invites ≡ true)

is_used-revoked :
    (token t : Text) (now : ℕ) (is : List OrgInvite)
    → is_used token (update (is_invite t) (stamp_revoked now) is) ≡ is_used token is
is_used-revoked token t now [] = refl
is_used-revoked token t now (i ∷ is) = ground (arith, is_used-revoked token t now is)

is_used-accepted :
    (token t : Text) (now : ℕ) (is : List OrgInvite)
    → is_used token is ≡ true
    → is_used token (update (is_invite t) (stamp_accepted now) is) ≡ true
is_used-accepted token t now [] h = h
is_used-accepted token t now (i ∷ is) h = ground (arith, is_used-accepted token t now is)

is_used-found :
    (token : Text) (is : List OrgInvite) → is_used token is ≡ true → any (is_invite token) is ≡ true
is_used-found token [] h = ground (arith, h)
is_used-found token (i ∷ is) h = ground (arith, is_used-found token is)

is_used-inserted :
    (token : Text) (i : OrgInvite) (is : List OrgInvite)
    → any (is_invite i.token) is ≡ false
    → is_used token is ≡ true
    → is_used token (i ∷ is) ≡ true
is_used-inserted token i is free h =
    ground (arith, is_used-found token is h, text_eq_iff i.token token)

apply-IsRedeemed :
    (lower : Text → Text) (token : Text) (op : Op) (db : Db)
    → IsRedeemed token db
    → IsRedeemed token (apply lower op db)
unfolding apply create_org_with_admin update_membership_role remove_membership
    transfer_org_ownership create_invite accept_invite revoke_invite grant_permission
    revoke_permission
apply-IsRedeemed lower token (create id now pool ddl_ok name user) db h = ground arith
apply-IsRedeemed lower token (set_role org user role) db h = ground arith
apply-IsRedeemed lower token (remove org user) db h = ground arith
apply-IsRedeemed lower token (transfer org user) db h = ground arith
apply-IsRedeemed lower token (invite t now org email role user) db h =
    ground (arith, is_used-inserted token (new_invite lower t now org email role user) db.invites)
apply-IsRedeemed lower token (accept t user now) db h =
    elim (Option-cases (select_one (is_invite t) db.invites)) [
      | inl missing ↦ ground (arith, missing)
      | inr (i, found) ↦ ground (arith, found, is_used-accepted token i.token now db.invites)
    ]
apply-IsRedeemed lower token (revoke t now) db h =
    ground (arith, is_used-revoked token t now db.invites)
apply-IsRedeemed lower token (grant now org user p by) db h = ground arith
apply-IsRedeemed lower token (revoke_grant org user p) db h = ground arith

apply_all-IsRedeemed :
    (lower : Text → Text) (token : Text) (ops : List Op) (db : Db)
    → IsRedeemed token db
    → IsRedeemed token (apply_all lower ops db)
unfolding apply_all
apply_all-IsRedeemed lower token [] db h = h
apply_all-IsRedeemed lower token (op ∷ ops) db h =
    apply_all-IsRedeemed lower token ops (apply lower op db) (apply-IsRedeemed lower token op db h)

accept-IsRedeemed :
    (token : Text) (u now org_id : ℕ) (slug : Text) (role : Role) (db db' : Db)
    → accept_invite token u now db ≡ ok (accepted org_id slug role, db')
    → IsRedeemed token db'
unfolding accept_invite
accept-IsRedeemed token u now org_id slug role db db' e =
    elim (Option-cases (select_one (is_invite token) db.invites)) [
      | inl missing ↦ ground arith
      | inr (i, found) ↦ ground (
        arith,
        select_invite-token token db.invites i found,
        stamped_accepted token now db.invites i found,
      )
    ]

accept-redeemed :
    (token : Text) (v now : ℕ) (db : Db)
    → IsRedeemed token db
    → accept_invite token v now db ≡ ok (rejected already_used, db)
unfolding accept_invite accept_check
accept-redeemed token v now db h = ground (arith, h)

-- Once a token has been redeemed, and after any org operations behind that, whoever presents it,
-- at whatever time, is told that it is used, and no table changes.
pub accept_once :
    (lower : Text → Text) (token : Text) (u v now later org_id : ℕ) (slug : Text) (role : Role)
    (db db' : Db) (ops : List Op)
    → accept_invite token u now db ≡ ok (accepted org_id slug role, db')
    → accept_invite token v later (apply_all lower ops db')
      ≡ ok (rejected already_used, apply_all lower ops db')
accept_once lower token u v now later org_id slug role db db' ops e =
    accept-redeemed token v later (apply_all lower ops db') (
      apply_all-IsRedeemed lower token ops db'
        (accept-IsRedeemed token u now org_id slug role db db' e))
