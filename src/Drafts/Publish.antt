-- ===== src/Drafts/Publish.antt =====
-- `publishDraft` of server/shared/utils/spec-draft-store.ts: the compare-and-swap on
-- `projects.spec_public_version`. The row locks make the transaction one step on the tables; the
-- directory `specs/` of the project is passed along, since a throw does not roll it back.
pub mod Swap
use specifyr.Prelude.{
  ℕ, ◌+◌, Bool, true, false, not, ◌&&◌, Option, none, some, List, [], ◌∷◌, map, Text, ◌==◌, is_some,
  if◌then◌else◌,
}
use specifyr.Database.{select, select_one, update}
use specifyr.Drafts.Disk.{Dir, PublicSpecFile, read_public_spec_files, write_public_spec_files}
use specifyr.Drafts.Store.{public_file}
use specifyr.Drafts.Rows.{
  Status, draft, published, status_eq, Project, SpecDraft, SpecDraftFile, Db, is_project,
  is_writable, file_of,
}

pub data PublishDraftResult : Type 0 where
  published_as : ℕ → PublishDraftResult
  not_found : PublishDraftResult
  conflict : ℕ → List PublicSpecFile → PublishDraftResult
  thrown : PublishDraftResult

pub record Outcome : Type 0 where
  pub result : PublishDraftResult
  pub db : Db
  pub dir : Dir

abbrev pub set_version : ℕ → Project → Project
set_version v p = record p { spec_public_version = v }

abbrev pub flip : ℕ → SpecDraft → SpecDraft
flip now d = record d { status = published; published_at = some now; updated_at = now }

-- The `where` of the last update, which does not name the project.
abbrev pub is_flippable : ℕ → ℕ → SpecDraft → Bool
is_flippable id owner d = d.id == id && (d.owner_user_id == owner && status_eq d.status draft)

-- Steps 4 and 5: the write to disk, the new version, the flip of the status. A flip that finds no
-- row throws.
pub commit : ℕ → ℕ → ℕ → ℕ → ℕ → Db → Dir → Outcome
commit now id project_id owner version db dir =
    let (dir', done) =
      write_public_spec_files (map public_file (select (file_of id) db.draft_files)) dir in
    if done && is_some (select_one (is_flippable id owner) db.drafts)
    then record {
      result = published_as (version + 1);
      db = record db {
        projects = update (is_project project_id) (set_version (version + 1)) db.projects;
        drafts = update (is_flippable id owner) (flip now) db.drafts;
      };
      dir = dir';
    }
    else record { result = thrown; db = db; dir = dir' }

abbrev pub stop : PublishDraftResult → Db → Dir → Outcome
stop r db dir = record { result = r; db = db; dir = dir }

unfoldable pub publish_draft : (Text → Text → Bool) → ℕ → ℕ → ℕ → ℕ → Db → Dir → Outcome
unfolding commit
publish_draft le now id project_id owner db dir =
    if db.is_configured
    then elim (select_one (is_project project_id) db.projects) [
      | none ↦ stop not_found db dir
      | some p ↦ elim (select_one (is_writable id project_id owner) db.drafts) [
        | none ↦ stop not_found db dir
        | some d ↦
            if d.base_version == p.spec_public_version
            then commit now id project_id owner p.spec_public_version db dir
            else stop (conflict p.spec_public_version (read_public_spec_files le none dir)) db dir
      ]
    ]
    else stop not_found db dir
