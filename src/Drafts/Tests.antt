-- ===== src/Drafts/Tests.antt =====
-- The draft store at concrete tables.
use specifyr.Prelude.{
  ℕ, ◌+◌, ◌≡◌, refl, Bool, true, none, some, List, [], ◌∷◌, map, Text, codes, arith,
}
use specifyr.Database.{select, select_one}
use specifyr.Drafts.Disk.{
  file, directory, link, missing, Dir, entries, PublicSpecFile, read_public_spec_files,
  write_public_spec_files,
}
use specifyr.Drafts.Disk.Written.{
  node_of, content_of, no_file, overwritten, write_public_spec_files_effect,
}
use specifyr.Drafts.Rows.{draft, published, SpecDraft, SpecDraftFile, Db, file_of}
use specifyr.Drafts.Store.{public_file}
use specifyr.Drafts.Publish.{publish_draft, conflict}
use specifyr.Drafts.Publish.Swap.{version_of, publish_success, publish_conflict}
use specifyr.Drafts.Ops.{Op, patch, remove, publish, apply_all, has_id}
use specifyr.Drafts.Ops.Histories.{published_forever}

abbrev row : ℕ → ℕ → SpecDraft
row id owner = record {
  id = id;
  project_id = 1;
  owner_user_id = owner;
  title = codes "t";
  status = draft;
  base_version = 4;
  conversation = [];
  created_at = 0;
  updated_at = 0;
  published_at = none;
}

abbrev old_row : SpecDraft
old_row = record (row 9 30) { status = published; published_at = some 2 }

abbrev text : ℕ → Text → SpecDraftFile
text id content = record { draft_id = id; name = codes "spec.md"; content = content }

abbrev tables : Db
tables = record {
  is_configured = true;
  projects = record { id = 1; slug = codes "p"; owner_org_id = 1; spec_public_version = 4 } ∷ [];
  drafts = row 7 20 ∷ row 8 21 ∷ old_row ∷ [];
  draft_files = text 7 (codes "new") ∷ text 8 (codes "late") ∷ text 9 (codes "old") ∷ [];
}

abbrev dir : Dir
dir = some (
    (codes "plan.md", file (codes "x"))
    ∷ (codes "img", directory)
    ∷ (codes "shared.md", link missing)
    ∷ [])

abbrev any_order : Text → Text → Bool
any_order s t = true

abbrev bundle : List PublicSpecFile
bundle =
    record { name = codes "spec.md"; content = codes "new" }
    ∷ record { name = codes "shared.md"; content = codes "new" }
    ∷ []

write_public_spec_files_effect_example :
    node_of (codes "shared.md") (entries (write_public_spec_files bundle dir).0)
    ≡ overwritten
        (content_of (codes "shared.md") bundle)
        (no_file (node_of (codes "shared.md") (entries dir)))
unfolding write_public_spec_files
write_public_spec_files_effect_example =
    write_public_spec_files_effect bundle dir (codes "shared.md") (refl, (refl, (refl, tt))) refl

publish_success_example :
    let o = publish_draft any_order 5 7 1 20 tables dir in
    (version_of 1 tables.projects ≡ some 4)
    × (5 ≡ (row 7 20).base_version + 1)
    × (version_of 1 o.db.projects ≡ some 5)
    × ((o.dir, true)
        ≡ write_public_spec_files (map public_file (select (file_of 7) tables.draft_files)) dir)
unfolding publish_draft write_public_spec_files
publish_success_example = publish_success any_order 5 7 1 20 5 tables dir (row 7 20) refl refl

publish_conflict_example :
    let o = publish_draft any_order 5 7 1 20 tables dir in
    publish_draft any_order 6 8 1 21 o.db o.dir ≡ record {
      result = conflict 5 (read_public_spec_files any_order none o.dir);
      db = o.db;
      dir = o.dir;
    }
unfolding publish_draft write_public_spec_files
publish_conflict_example =
    publish_conflict any_order 5 6 7 8 1 20 21 5 tables dir (row 7 20) (row 8 21) (omega arith) refl
      refl refl refl

abbrev requests : List Op
requests =
    patch 3 9 1 30 (record { title = some (codes "u"); files = some []; conversation = none })
    ∷ remove 9 1 30
    ∷ publish any_order 5 7 1 20 dir
    ∷ []

published_forever_example :
    let db' = apply_all requests tables in
    (select_one (has_id 9) db'.drafts ≡ some old_row)
    × (select (file_of 9) db'.draft_files ≡ select (file_of 9) tables.draft_files)
published_forever_example =
    published_forever requests 9 old_row tables (refl, (refl, (refl, tt))) (refl, refl)
