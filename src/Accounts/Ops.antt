-- ===== src/Accounts/Ops.antt =====
-- The requests that change the users or the settings, so that a history of the tables is a list of
-- them. A request that throws leaves the tables as they were.
use specifyr.Prelude.{ℕ, Bool, Option, List, [], ◌∷◌, Text}
use specifyr.Prelude.Result.{Result, ok, throw}
use specifyr.Accounts.Rows.{Db}
use specifyr.Accounts.Settings.{SettingsBody, Error, patch_settings}
use specifyr.Accounts.SignIn.{Env, Request, sign_in}
use specifyr.Accounts.Admin.{patch_user, delete_user}

pub data Op : Type 0 where
  sign : ℕ → ℕ → Env → Request → Op
  write_settings : Option ℕ → ℕ → SettingsBody → Op
  set_block : ℕ → Option ℕ → ℕ → Bool → Op
  erase : Option ℕ → ℕ → Op

abbrev pub written : Db → Result Error Db → Db
written db (ok db') = db'
written db (throw _) = db

module _ (lower : Text → Text) where
  unfoldable pub apply : Op → Db → Db
  apply (sign id now env req) db = (sign_in lower id now env req db).1
  apply (write_settings caller now body) db = written db (patch_settings lower caller now body db)
  apply (set_block now caller id block) db = (patch_user now caller id block db).1
  apply (erase caller id) db = (delete_user caller id db).1

  unfoldable pub apply_all : List Op → Db → Db
  unfolding apply
  apply_all [] db = db
  apply_all (op ∷ ops) db = apply_all ops (apply op db)
