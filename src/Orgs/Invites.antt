-- ===== src/Orgs/Invites.antt =====
-- Invites: `createInvite`, `listOpenInvites`, `acceptInvite` and `revokeInvite` of
-- server/shared/utils/org-store.ts, and the status that api/invites/[token].get.ts reports.
-- Tokens and clock readings are arguments, and so is `toLowerCase` of JavaScript, `lower`.
use specifyr.Prelude.{
  ℕ, ◌+◌, ◌*◌, Bool, not, ◌&&◌, Option, none, some, List, [], ◌∷◌, Text, text_eq, ◌==◌, leb, ltb,
  any, is_some, if◌then◌else◌,
}
use specifyr.Prelude.Result.{ok, throw, ◌>>◌, require}
use specifyr.Database.{select, select_one, update, upsert}
use specifyr.Orgs.Rows.{
  Role, OrgMembership, OrgInvite, Db, db_not_configured, unique_violation, foreign_key_violation,
  missing_org, is_org, is_membership,
}
use specifyr.Orgs.Create.{OrgAction}
use specifyr.Orgs.Members.{set_role}

pub data InviteReason : Type 0 where
  not_found expired already_used revoked : InviteReason

-- `{ ok: true, orgId, orgSlug, role }` or `{ ok: false, reason }`
pub data AcceptResult : Type 0 where
  accepted : ℕ → Text → Role → AcceptResult
  rejected : InviteReason → AcceptResult

abbrev pub invite_ttl_ms : ℕ
invite_ttl_ms = 7 * 24 * 60 * 60 * 1000

-- `eq(orgInvites.token, token)`
abbrev pub is_invite : Text → OrgInvite → Bool
is_invite token i = text_eq i.token token

abbrev pub new_invite : (Text → Text) → Text → ℕ → ℕ → Text → Role → ℕ → OrgInvite
new_invite lower token now org_id email role created_by = record {
  token = token;
  org_id = org_id;
  invited_email = lower email;
  invited_role = role;
  created_by = some created_by;
  created_at = now;
  expires_at = now + invite_ttl_ms;
  accepted_at = none;
  revoked_at = none;
}

insert_invite : OrgInvite → OrgAction OrgInvite
insert_invite i db =
    if any (is_invite i.token) db.invites
    then throw unique_violation
    else if any (is_org i.org_id) db.orgs
    then ok (i, record db { invites = i ∷ db.invites })
    else throw foreign_key_violation

unfoldable pub create_invite : (Text → Text) → Text → ℕ → ℕ → Text → Role → ℕ → OrgAction OrgInvite
unfolding insert_invite
create_invite lower token now org_id email role created_by db = do
  require db.is_configured db_not_configured
  insert_invite (new_invite lower token now org_id email role created_by) db

-- `listOpenInvites` lists them by `createdAt`, the latest first.
insert_latest : OrgInvite → List OrgInvite → List OrgInvite
insert_latest x [] = x ∷ []
insert_latest x (y ∷ ys) =
    if leb y.created_at x.created_at then x ∷ y ∷ ys else y ∷ insert_latest x ys

sort_latest : List OrgInvite → List OrgInvite
sort_latest [] = []
sort_latest (x ∷ xs) = insert_latest x (sort_latest xs)

abbrev pub is_open : ℕ → OrgInvite → Bool
is_open org_id i = i.org_id == org_id && (not (is_some i.accepted_at) && not (is_some i.revoked_at))

unfoldable pub list_open_invites : ℕ → Db → List OrgInvite
unfolding insert_latest sort_latest
list_open_invites org_id db =
    if db.is_configured then sort_latest (select (is_open org_id) db.invites) else []

-- The early returns of `acceptInvite`, in the order of the code.
unfoldable pub accept_check : ℕ → OrgInvite → Option InviteReason
accept_check now i =
    if is_some i.accepted_at
    then some already_used
    else if is_some i.revoked_at
    then some revoked
    else if ltb i.expires_at now
    then some expired
    else none

abbrev pub stamp_accepted : ℕ → OrgInvite → OrgInvite
stamp_accepted t i = record i { accepted_at = some t }

abbrev pub stamp_revoked : ℕ → OrgInvite → OrgInvite
stamp_revoked t i = record i { revoked_at = some t }

-- The insert into `org_memberships` with `onConflictDoUpdate`.
abbrev pub invited_membership : ℕ → ℕ → OrgInvite → OrgMembership
invited_membership now user_id i = record {
  org_id = i.org_id;
  user_id = user_id;
  role = i.invited_role;
  created_at = now;
}

-- The three statements of a redemption.
redeem : ℕ → ℕ → OrgInvite → Db → Db
redeem now user_id i db = record db {
  memberships =
      upsert (is_membership i.org_id user_id) (set_role i.invited_role)
        (invited_membership now user_id i) db.memberships;
  invites = update (is_invite i.token) (stamp_accepted now) db.invites;
}

-- A membership of an org that is gone breaks a foreign key, or else the last lookup throws.
unfoldable pub accept_invite : Text → ℕ → ℕ → OrgAction AcceptResult
unfolding redeem accept_check
accept_invite token user_id now db =
    if db.is_configured
    then elim (select_one (is_invite token) db.invites) [
      | none ↦ ok (rejected not_found, db)
      | some i ↦ elim (accept_check now i) [
        | some reason ↦ ok (rejected reason, db)
        | none ↦ elim (select_one (is_org i.org_id) db.orgs) [
          | none ↦ throw missing_org
          | some org ↦ ok (accepted i.org_id org.slug i.invited_role, redeem now user_id i db)
        ]
      ]
    ]
    else throw db_not_configured

unfoldable pub revoke_invite : Text → ℕ → OrgAction (Unit {0})
revoke_invite token now db =
    if db.is_configured
    then ok (tt, record db { invites = update (is_invite token) (stamp_revoked now) db.invites })
    else throw db_not_configured

pub data InviteStatus : Type 0 where
  revoked accepted expired pending : InviteStatus

-- The `status` of `GET /api/invites/:token`.
unfoldable pub invite_status : ℕ → OrgInvite → InviteStatus
invite_status now i =
    if is_some i.revoked_at
    then InviteStatus.revoked
    else if is_some i.accepted_at
    then InviteStatus.accepted
    else if ltb i.expires_at now
    then InviteStatus.expired
    else pending
