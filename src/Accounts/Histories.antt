-- ===== src/Accounts/Histories.antt =====
-- Histories of the users: what stays of a registration and of a block.
use specifyr.Prelude.{
  ℕ, ◌≡◌, refl, Bool, true, false, not, ◌&&◌, Option, none, some, List, [], ◌∷◌, Text, arith,
  Option-cases, inl, inr, is_some, any, ◌==◌, if◌then◌else◌,
}
use specifyr.Database.{select_one, update, delete, upsert}
use specifyr.Accounts.Rows.{User, Db, has_email, has_id}
use specifyr.Accounts.Settings.{SettingsBody, write_body, patch_settings}
use specifyr.Accounts.SignIn.{
  Env, Request, blocked, signed_in, refused, is_invite_flow, refreshed, new_user, upsert_user,
  registration_gate, request_email, request_name, is_platform_admin, admit, sign_in,
}
use specifyr.Accounts.Admin.{set_blocked, patch_user, delete_user}
use specifyr.Accounts.Ops.{Op, sign, write_settings, set_block, erase, written, apply, apply_all}
use specifyr.Accounts.Registration.{select_email-upsert}

-- The user with the email has the id, and is blocked or is not.
abbrev pub stands : ℕ → Bool → Text → List User → Bool
stands id b email us = elim (select_one (has_email email) us) [
  | none ↦ false
  | some u ↦ (u.id == id) && (if b then is_some u.blocked_at else not (is_some u.blocked_at))
]

-- The request deletes the user, or asks for the opposite of what `b` says of the block.
abbrev pub changes : ℕ → Bool → Op → Bool
changes id b (sign _ _ _ _) = false
changes id b (write_settings _ _ _) = false
changes id b (set_block _ _ i block) = (i == id) && (if b then not block else block)
changes id b (erase _ i) = i == id

stands-update :
    (id i now : ℕ) (b block : Bool) (email : Text) (us : List User)
    → ((i == id) && (if b then not block else block)) ≡ false
    → stands id b email us ≡ true
    → stands id b email (update (has_id i) (set_blocked block now) us) ≡ true
stands-update id i now b block email [] f h = h
stands-update id i now b block email (u ∷ us) f h =
    ground (arith, stands-update id i now b block email us f)

stands-delete :
    (id i : ℕ) (b : Bool) (email : Text) (us : List User)
    → (i == id) ≡ false
    → stands id b email us ≡ true
    → stands id b email (delete (has_id i) us) ≡ true
stands-delete id i b email [] f h = h
stands-delete id i b email (u ∷ us) f h = ground (arith, stands-delete id i b email us f)

stands-upsert :
    (id now : ℕ) (b is_admin : Bool) (email e : Text) (row : User) (us : List User)
    → stands id b email us ≡ true
    → stands id b email (upsert (has_email e) (refreshed is_admin now) row us) ≡ true
stands-upsert id now b is_admin email e row [] h = ground (arith, h)
stands-upsert id now b is_admin email e row (u ∷ us) h =
    ground (arith, stands-upsert id now b is_admin email e row us)

abbrev Standing : ℕ → Bool → Text → Db → Type 0
Standing id b email db = (db.is_configured ≡ true) × (stands id b email db.users ≡ true)

patch_user-Standing :
    (id i now : ℕ) (b block : Bool) (email : Text) (caller : Option ℕ) (db : Db)
    → ((i == id) && (if b then not block else block)) ≡ false
    → Standing id b email db
    → Standing id b email (patch_user now caller i block db).1
unfolding patch_user
patch_user-Standing id i now b block email none db f h = h
patch_user-Standing id i now b block email (some caller) db f h =
    ground (arith, stands-update id i now b block email db.users f)

delete_user-Standing :
    (id i : ℕ) (b : Bool) (email : Text) (caller : Option ℕ) (db : Db)
    → (i == id) ≡ false
    → Standing id b email db
    → Standing id b email (delete_user caller i db).1
unfolding delete_user
delete_user-Standing id i b email none db f h = h
delete_user-Standing id i b email (some caller) db f h =
    ground (arith, stands-delete id i b email db.users f)

upsert_user-Standing :
    (id i now : ℕ) (b is_admin : Bool) (email e : Text) (name : Option Text) (db : Db)
    → Standing id b email db
    → Standing id b email (upsert_user i now e name is_admin db).1
unfolding upsert_user
upsert_user-Standing id i now b is_admin email e name db h =
    let row = new_user i e name is_admin now in
    elim (Option-cases (select_one (has_email e) db.users)) [
      | inl new ↦ ground (arith, new, stands-upsert id now b is_admin email e row db.users)
      | inr (v, found) ↦ ground (arith, found, stands-upsert id now b is_admin email e row db.users)
    ]

module _ (lower : Text → Text) where
  write_body-Standing :
      (id now user_id : ℕ) (b : Bool) (email : Text) (body : SettingsBody) (db : Db)
      → Standing id b email db
      → Standing id b email (written db (write_body lower user_id now body db))
  unfolding write_body
  write_body-Standing id now user_id b email body db h = ground (arith, h)

  patch_settings-Standing :
      (id now : ℕ) (caller : Option ℕ) (b : Bool) (email : Text) (body : SettingsBody) (db : Db)
      → Standing id b email db
      → Standing id b email (written db (patch_settings lower caller now body db))
  unfolding patch_settings
  patch_settings-Standing id now none b email body db h = h
  patch_settings-Standing id now (some user_id) b email body db h =
      ground (arith, write_body-Standing id now user_id b email body db h)

  sign_in-Standing :
      (id i now : ℕ) (b : Bool) (email : Text) (env : Env) (req : Request) (db : Db)
      → Standing id b email db
      → Standing id b email (sign_in lower i now env req db).1
  unfolding sign_in admit
  sign_in-Standing id i now b email env req db h =
      let e = request_email lower env req in
      let kept =
        upsert_user-Standing id i now b (is_platform_admin lower env e db) email e
          (request_name lower req) db h in
      ground (arith, kept)

  apply-Standing :
      (id : ℕ) (b : Bool) (email : Text) (op : Op) (db : Db)
      → changes id b op ≡ false
      → Standing id b email db
      → Standing id b email (apply lower op db)
  unfolding apply
  apply-Standing id b email (sign i now env req) db f h =
      sign_in-Standing id i now b email env req db h
  apply-Standing id b email (write_settings caller now body) db f h =
      patch_settings-Standing id now caller b email body db h
  apply-Standing id b email (set_block now caller i block) db f h =
      patch_user-Standing id i now b block email caller db f h
  apply-Standing id b email (erase caller i) db f h =
      delete_user-Standing id i b email caller db f h

  apply_all-Standing :
      (id : ℕ) (b : Bool) (email : Text) (ops : List Op) (db : Db)
      → any (changes id b) ops ≡ false
      → Standing id b email db
      → Standing id b email (apply_all lower ops db)
  unfolding apply_all
  apply_all-Standing id b email [] db f h = h
  apply_all-Standing id b email (op ∷ ops) db f h =
      apply_all-Standing id b email ops (apply lower op db) (ground (arith, f))
        (apply-Standing id b email op db (ground (arith, f)) h)

  -- A user who is blocked stays out along every history of sign-ins, settings, blocks and deletions
  -- in which nobody asks to unblock or to delete the user: with a database configured, every request
  -- with the user's email is refused and changes nothing, whatever the path, and also when the
  -- environment names the email as that of an admin.
  pub blocked_stays_out :
      (id now : ℕ) (env : Env) (req : Request) (c : ℕ) (s : Text) (u : User) (ops : List Op)
      (db : Db)
      → db.is_configured ≡ true
      → select_one (has_email (c ∷ s)) db.users ≡ some u
      → is_some u.blocked_at ≡ true
      → any (changes u.id true) ops ≡ false
      → request_email lower env req ≡ c ∷ s
      → let db' = apply_all lower ops db in
        sign_in lower id now env req db' ≡ (refused blocked, db')
  unfolding sign_in admit
  blocked_stays_out id now env req c s u ops db configured found is_blocked quiet from =
      let kept = apply_all-Standing u.id true (c ∷ s) ops db quiet (configured, ground arith) in
      elim (Option-cases (select_one (has_email (c ∷ s)) (apply_all lower ops db).users)) [
        | inl missing ↦ ground (arith, kept, missing)
        | inr (v, there) ↦ ground (arith, kept, there, from)
      ]

  invited-Standing :
      (id now : ℕ) (env : Env) (req : Request) (c : ℕ) (s : Text) (db : Db)
      → db.is_configured ≡ true
      → request_email lower env req ≡ c ∷ s
      → is_invite_flow req.path ≡ true
      → select_one (has_email (c ∷ s)) db.users ≡ none
      → any (has_id id) db.users ≡ false
      → Standing id false (c ∷ s) (sign_in lower id now env req db).1
  unfolding sign_in admit registration_gate upsert_user
  invited-Standing id now env req c s db configured from path new fresh =
      let is_admin = is_platform_admin lower env (c ∷ s) db in
      let row = new_user id (c ∷ s) (request_name lower req) is_admin now in
      ground (arith, select_email-upsert lower (c ∷ s) is_admin now row db.users refl new)

  -- Whatever the registration policy, with a database configured, one request below `/invites/`,
  -- with any token or none, signs up an email that no user has, under an id that is fresh. Along
  -- every history behind it of sign-ins, settings, blocks and deletions in which nobody asks to
  -- block or to delete that user, every request with the email is let in, whatever its path.
  pub invite_path_registers :
      (id now later other : ℕ) (env env' : Env) (req req' : Request) (c : ℕ) (s : Text)
      (ops : List Op) (db : Db)
      → db.is_configured ≡ true
      → request_email lower env req ≡ c ∷ s
      → request_email lower env' req' ≡ c ∷ s
      → is_invite_flow req.path ≡ true
      → select_one (has_email (c ∷ s)) db.users ≡ none
      → any (has_id id) db.users ≡ false
      → any (changes id false) ops ≡ false
      → (sign_in lower other later env' req'
          (apply_all lower ops (sign_in lower id now env req db).1)).0
        ≡ signed_in id (c ∷ s)
  unfolding sign_in admit upsert_user
  invite_path_registers id now later other env env' req req' c s ops db configured from from' path
        new fresh quiet =
      let joined = (sign_in lower id now env req db).1 in
      let kept =
        apply_all-Standing id false (c ∷ s) ops joined quiet
          (invited-Standing id now env req c s db configured from path new fresh) in
      elim (Option-cases (select_one (has_email (c ∷ s)) (apply_all lower ops joined).users)) [
        | inl missing ↦ ground (arith, kept, missing)
        | inr (v, there) ↦ ground (arith, kept, there, from')
      ]
