-- ===== src/Drafts/Ops.antt =====
-- The requests on spec drafts as one type, so that a history of the tables is a list of them.
pub mod Kept
pub mod Keys
pub mod Histories
use specifyr.Prelude.{
  ℕ, ◌+◌, ◌≤◌, ◌≡◌, refl, ◌∙◌, ◌≢◌, Bool, true, false, ◌&&◌, not, Option, none, some, List, [], ◌∷◌,
  map, Text, arith, ◌==◌, any, if◌then◌else◌, Option-cases, Bool-cases, inl, inr, is_some,
}
use specifyr.Prelude.Result.{Result, ok, throw, require, Result-cases}
use specifyr.Database.{select, select_one, update, delete}
use specifyr.Drafts.Disk.{Dir}
use specifyr.Drafts.Rows.{
  Status, draft, published, status_eq, Project, SpecDraft, SpecDraftFile, Db, is_project,
  is_writable, is_owned, file_of,
}
use specifyr.Drafts.Store.{
  Error, DraftFileInput, CreateDraftInput, PatchDraftInput, patched, new_draft, insert_files,
  replace_files, create_draft, patch_draft, delete_draft,
}
use specifyr.Drafts.Publish.{set_version, flip, is_flippable, publish_draft}

-- The requests that change the tables. A publish comes with the directory as it finds it.
pub data Op : Type 0 where
  create : ℕ → ℕ → CreateDraftInput → Op
  patch : ℕ → ℕ → ℕ → ℕ → PatchDraftInput → Op
  remove : ℕ → ℕ → ℕ → Op
  publish : (Text → Text → Bool) → ℕ → ℕ → ℕ → ℕ → Dir → Op

abbrev pub committed : {A : Type 0} → Db → Result Error (A × Db) → Db
committed db (ok (_, db')) = db'
committed db (throw _) = db

unfoldable pub apply : Op → Db → Db
apply (create id now input) db = committed db (create_draft id now input db)
apply (patch now id project_id owner p) db = committed db (patch_draft now id project_id owner p db)
apply (remove id project_id owner) db = (delete_draft id project_id owner db).1
apply (publish le now id project_id owner dir) db =
    (publish_draft le now id project_id owner db dir).db

unfoldable pub apply_all : List Op → Db → Db
apply_all [] db = db
apply_all (op ∷ ops) db = apply_all ops (apply op db)

abbrev pub has_id : ℕ → SpecDraft → Bool
has_id id d = d.id == id

-- The draft with an id is there, and published.
abbrev pub IsPublished : ℕ → SpecDraft → Db → Type 0
IsPublished id d db = (select_one (has_id id) db.drafts ≡ some d) × (d.status ≡ published)

-- The primary key of `spec_drafts`.
abbrev pub HasUniqueIds : List SpecDraft → Type 0
HasUniqueIds [] = Unit
HasUniqueIds (d ∷ ds) = (any (has_id d.id) ds ≡ false) × HasUniqueIds ds
