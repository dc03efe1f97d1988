-- ===== src/Drafts/Store.antt =====
-- `createDraft`, `listDraftsForUser`, `getDraftWithFiles`, `patchDraft` and `deleteDraft` of
-- server/shared/utils/spec-draft-store.ts. The generated id and the time are arguments.
use specifyr.Prelude.{
  ℕ, Bool, not, ◌&&◌, Option, none, some, List, [], ◌∷◌, map, Text, text_eq, ◌==◌, leb, any,
  if◌then◌else◌,
}
use specifyr.Prelude.Result.{Result, ok, Action, ◌>>=◌, ◌>>◌, require}
use specifyr.Database.{select, select_one, update, delete}
use specifyr.Drafts.Disk.{PublicSpecFile, sort_files}
use specifyr.Drafts.Rows.{
  draft, published, status_eq, SpecDraft, SpecDraftFile, Db, in_project, is_owned, is_writable,
  file_of,
}

pub data Error : Type 0 where
  db_not_configured unique_violation : Error

pub record DraftFileInput : Type 0 where
  pub name : Text
  pub content : Text

abbrev pub file_row : ℕ → DraftFileInput → SpecDraftFile
file_row id f = record { draft_id = id; name = f.name; content = f.content }

-- The primary key (draft_id, name) of the files.
abbrev pub same_file : SpecDraftFile → SpecDraftFile → Bool
same_file f g = g.draft_id == f.draft_id && text_eq g.name f.name

-- One `insert` of several rows: it fails if a key is there already, or twice among the rows.
unfoldable pub insert_files :
    ℕ → List DraftFileInput → List SpecDraftFile → Result Error (List SpecDraftFile)
insert_files id [] rows = ok rows
insert_files id (f ∷ fs) rows = do
  done ← insert_files id fs rows
  require (not (any (same_file (file_row id f)) done)) unique_violation
  ok (file_row id f ∷ done)

pub record CreateDraftInput : Type 0 where
  pub project_id : ℕ
  pub owner_user_id : ℕ
  pub title : Text
  pub base_version : ℕ
  pub files : List DraftFileInput
  pub conversation : Text

abbrev pub new_draft : ℕ → ℕ → CreateDraftInput → SpecDraft
new_draft id now input = record {
  id = id;
  project_id = input.project_id;
  owner_user_id = input.owner_user_id;
  title = input.title;
  status = draft;
  base_version = input.base_version;
  conversation = input.conversation;
  created_at = now;
  updated_at = now;
  published_at = none;
}

unfoldable pub create_draft : ℕ → ℕ → CreateDraftInput → Action Db Error SpecDraft
unfolding insert_files
create_draft id now input db = do
  require db.is_configured db_not_configured
  require (not (any (λ d. d.id == id) db.drafts)) unique_violation
  files ← insert_files id input.files db.draft_files
  ok (
    new_draft id now input,
    record db { drafts = new_draft id now input ∷ db.drafts; draft_files = files },
  )

-- `orderBy(desc(specDrafts.updatedAt))`
insert_desc : SpecDraft → List SpecDraft → List SpecDraft
insert_desc x [] = x ∷ []
insert_desc x (y ∷ ys) = if leb y.updated_at x.updated_at then x ∷ y ∷ ys else y ∷ insert_desc x ys

sort_desc : List SpecDraft → List SpecDraft
sort_desc [] = []
sort_desc (x ∷ xs) = insert_desc x (sort_desc xs)

unfoldable pub list_drafts_for_user : ℕ → ℕ → Db → List SpecDraft
unfolding insert_desc sort_desc
list_drafts_for_user project_id owner db =
    if db.is_configured
    then sort_desc (select (λ d. d.project_id == project_id && d.owner_user_id == owner) db.drafts)
    else []

abbrev pub public_file : SpecDraftFile → PublicSpecFile
public_file f = record { name = f.name; content = f.content }

pub record DraftWithFiles : Type 0 where
  pub row : SpecDraft
  pub files : List PublicSpecFile

-- The parameter is the order of the database's collation, for `orderBy(asc(specDraftFiles.name))`.
unfoldable pub get_draft_with_files : (Text → Text → Bool) → ℕ → ℕ → ℕ → Db → Option DraftWithFiles
get_draft_with_files le id project_id caller db =
    if db.is_configured
    then elim (select_one (in_project id project_id) db.drafts) [
      | none ↦ none
      | some d ↦
          if status_eq d.status draft && not (d.owner_user_id == caller)
          then none
          else some (record {
            row = d;
            files = sort_files le (map public_file (select (file_of id) db.draft_files));
          })
    ]
    else none

pub record PatchDraftInput : Type 0 where
  pub title : Option Text
  pub files : Option (List DraftFileInput)
  pub conversation : Option Text

abbrev pub or_old : Option Text → Text → Text
or_old none old = old
or_old (some new) old = new

abbrev pub patched : ℕ → PatchDraftInput → SpecDraft → SpecDraft
patched now patch d = record d {
  title = or_old patch.title d.title;
  conversation = or_old patch.conversation d.conversation;
  updated_at = now;
}

-- `{ ok: true, updatedAt }` or `{ error: "not_found" }`
pub data PatchDraftResult : Type 0 where
  updated : ℕ → PatchDraftResult
  not_found : PatchDraftResult

unfoldable pub replace_files :
    ℕ → Option (List DraftFileInput) → List SpecDraftFile → Result Error (List SpecDraftFile)
unfolding insert_files
replace_files id none rows = ok rows
replace_files id (some files) rows = insert_files id files (delete (file_of id) rows)

unfoldable pub patch_draft : ℕ → ℕ → ℕ → ℕ → PatchDraftInput → Action Db Error PatchDraftResult
unfolding replace_files
patch_draft now id project_id owner patch db =
    if db.is_configured
    then elim (select_one (is_writable id project_id owner) db.drafts) [
      | none ↦ ok (PatchDraftResult.not_found, db)
      | some d ↦ do
        files ← replace_files id patch.files db.draft_files
        ok (
          updated now,
          record db {
            drafts = update (is_writable id project_id owner) (patched now patch) db.drafts;
            draft_files = files;
          },
        )
    ]
    else ok (PatchDraftResult.not_found, db)

pub data DeleteDraftResult : Type 0 where
  deleted not_found published_immutable : DeleteDraftResult

-- The second query of `deleteDraft`, after a delete that found nothing.
why_not_deleted : Option SpecDraft → DeleteDraftResult
why_not_deleted none = DeleteDraftResult.not_found
why_not_deleted (some d) =
    if status_eq d.status published then published_immutable else DeleteDraftResult.not_found

-- The files of a deleted draft go with it (`onDelete("cascade")`).
unfoldable pub delete_draft : ℕ → ℕ → ℕ → Db → DeleteDraftResult × Db
unfolding why_not_deleted
delete_draft id project_id owner db =
    if db.is_configured
    then elim (select_one (is_writable id project_id owner) db.drafts) [
      | some d ↦ (
        deleted,
        record db {
          drafts = delete (is_writable id project_id owner) db.drafts;
          draft_files = delete (file_of id) db.draft_files;
        },
      )
      | none ↦ (why_not_deleted (select_one (is_owned id project_id owner) db.drafts), db)
    ]
    else (DeleteDraftResult.not_found, db)
