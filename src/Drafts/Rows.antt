-- ===== src/Drafts/Rows.antt =====
-- The tables `projects`, `spec_drafts` and `spec_draft_files` of
-- server/shared/database/schema.ts. A conversation is stored as JSON that nothing here reads.
use specifyr.Prelude.{ℕ, Bool, true, false, ◌&&◌, Option, List, Text, ◌==◌}

pub data Status : Type 0 where
  draft published : Status

abbrev pub status_eq : Status → Status → Bool
status_eq draft draft = true
status_eq published published = true
status_eq _ _ = false

pub record Project : Type 0 where
  pub id : ℕ
  pub slug : Text
  pub owner_org_id : ℕ
  pub spec_public_version : ℕ

pub record SpecDraft : Type 0 where
  pub id : ℕ
  pub project_id : ℕ
  pub owner_user_id : ℕ
  pub title : Text
  pub status : Status
  pub base_version : ℕ
  pub conversation : Text
  pub created_at : ℕ
  pub updated_at : ℕ
  pub published_at : Option ℕ

pub record SpecDraftFile : Type 0 where
  pub draft_id : ℕ
  pub name : Text
  pub content : Text

pub record Db : Type 0 where
  pub is_configured : Bool
  pub projects : List Project
  pub drafts : List SpecDraft
  pub draft_files : List SpecDraftFile

-- `and(eq(specDrafts.id, id), eq(specDrafts.projectId, project_id))`
abbrev pub in_project : ℕ → ℕ → SpecDraft → Bool
in_project id project_id d = d.id == id && d.project_id == project_id

-- The same with the owner.
abbrev pub is_owned : ℕ → ℕ → ℕ → SpecDraft → Bool
is_owned id project_id owner d =
    d.id == id && (d.project_id == project_id && d.owner_user_id == owner)

-- The same with `eq(specDrafts.status, "draft")`: the filter of every write.
abbrev pub is_writable : ℕ → ℕ → ℕ → SpecDraft → Bool
is_writable id project_id owner d =
    d.id == id
    && (d.project_id == project_id && (d.owner_user_id == owner && status_eq d.status draft))

abbrev pub file_of : ℕ → SpecDraftFile → Bool
file_of id f = f.draft_id == id

abbrev pub is_project : ℕ → Project → Bool
is_project id p = p.id == id
