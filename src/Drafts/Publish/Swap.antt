-- ===== src/Drafts/Publish/Swap.antt =====
-- Publishing as a compare-and-swap.
use specifyr.Prelude.{
  ℕ, ◌+◌, ◌≡◌, refl, ◌≢◌, Bool, true, false, ◌&&◌, Option, none, some, List, [], ◌∷◌, map, Text,
  arith, ◌==◌, if◌then◌else◌, Option-cases, inl, inr,
}
use specifyr.Database.{select, select_one, update}
use specifyr.Drafts.Disk.{Dir, read_public_spec_files, write_public_spec_files}
use specifyr.Drafts.Rows.{Project, SpecDraft, Db, is_project, is_writable, file_of}
use specifyr.Drafts.Store.{public_file}
use specifyr.Drafts.Publish.{
  PublishDraftResult, published_as, not_found, conflict, set_version, flip, is_flippable,
  publish_draft,
}

abbrev pub version_of : ℕ → List Project → Option ℕ
version_of project_id ps = elim (select_one (is_project project_id) ps) [
  | none ↦ none
  | some p ↦ some p.spec_public_version
]

pub version_of-update :
    (q project_id v : ℕ) (ps : List Project)
    → version_of q (update (is_project project_id) (set_version v) ps) ≡ (
        if q == project_id
        then elim (version_of q ps) [ none ↦ none | some _ ↦ some v ]
        else version_of q ps)
version_of-update q project_id v [] = ground arith
version_of-update q project_id v (p ∷ ps) = ground (arith, version_of-update q project_id v ps)

select_other-flip :
    (a b owner_a owner_b project_id now : ℕ) (ds : List SpecDraft)
    → a ≢ b
    → select_one (is_writable b project_id owner_b) (update (is_flippable a owner_a) (flip now) ds)
      ≡ select_one (is_writable b project_id owner_b) ds
select_other-flip a b owner_a owner_b project_id now [] n = refl
select_other-flip a b owner_a owner_b project_id now (d ∷ ds) n =
    ground (arith, select_other-flip a b owner_a owner_b project_id now ds n)

-- No row that could be written is left of a draft that has been flipped.
select_writable-flip :
    (a owner project_id now : ℕ) (ds : List SpecDraft)
    → select_one (is_writable a project_id owner) (update (is_flippable a owner) (flip now) ds)
      ≡ none
select_writable-flip a owner project_id now [] = refl
select_writable-flip a owner project_id now (d ∷ ds) =
    ground (arith, select_writable-flip a owner project_id now ds)

-- A publish that succeeds had the current version as its base, moves the version up by one, and
-- writes the draft's files.
pub publish_success :
    (le : Text → Text → Bool) (now id project_id owner v : ℕ) (db : Db) (dir : Dir) (d : SpecDraft)
    → select_one (is_writable id project_id owner) db.drafts ≡ some d
    → (publish_draft le now id project_id owner db dir).result ≡ published_as v
    → let o = publish_draft le now id project_id owner db dir in
      (version_of project_id db.projects ≡ some d.base_version)
      × (v ≡ d.base_version + 1)
      × (version_of project_id o.db.projects ≡ some v)
      × ((o.dir, true)
          ≡ write_public_spec_files (map public_file (select (file_of id) db.draft_files)) dir)
unfolding publish_draft
publish_success le now id project_id owner v db dir d found e =
    elim (Option-cases (select_one (is_project project_id) db.projects)) [
      | inl missing ↦ ground arith
      | inr (p, has_project) ↦
          let vu =
            version_of-update project_id project_id (p.spec_public_version + 1) db.projects in
          (ground arith, ground arith, ground (arith, vu), ground arith)
    ]

-- Of two drafts forked from one version only one can be published: after the first, the second is
-- answered with a conflict that carries the new version and the files on disk, and it changes
-- neither the tables nor the directory.
pub publish_conflict :
    (le : Text → Text → Bool) (now later a b project_id owner_a owner_b v : ℕ) (db : Db) (dir : Dir)
    (da : SpecDraft) (db_row : SpecDraft)
    → a ≢ b
    → select_one (is_writable a project_id owner_a) db.drafts ≡ some da
    → select_one (is_writable b project_id owner_b) db.drafts ≡ some db_row
    → db_row.base_version ≡ da.base_version
    → (publish_draft le now a project_id owner_a db dir).result ≡ published_as v
    → let o = publish_draft le now a project_id owner_a db dir in
      publish_draft le later b project_id owner_b o.db o.dir ≡ record {
        result = conflict v (read_public_spec_files le none o.dir);
        db = o.db;
        dir = o.dir;
      }
unfolding publish_draft
publish_conflict le now later a b project_id owner_a owner_b v db dir da rb n fa fb same e =
    elim (Option-cases (select_one (is_project project_id) db.projects)) [
      | inl missing ↦ ground arith
      | inr (p, has_project) ↦ ground (
        arith,
        version_of-update project_id project_id (p.spec_public_version + 1) db.projects,
        select_other-flip a b owner_a owner_b project_id now db.drafts n,
      )
    ]

-- A draft is published once: a second attempt finds no draft, and changes nothing.
pub publish_once :
    (le : Text → Text → Bool) (now later id project_id owner v : ℕ) (db : Db) (dir dir' : Dir)
    → (publish_draft le now id project_id owner db dir).result ≡ published_as v
    → let o = publish_draft le now id project_id owner db dir in
      publish_draft le later id project_id owner o.db dir'
      ≡ record { result = not_found; db = o.db; dir = dir' }
unfolding publish_draft
publish_once le now later id project_id owner v db dir dir' e =
    elim (Option-cases (select_one (is_project project_id) db.projects)) [
      | inl missing ↦ ground arith
      | inr (p, has_project) ↦ ground (
        arith,
        version_of-update project_id project_id (p.spec_public_version + 1) db.projects,
        select_writable-flip id owner project_id now db.drafts,
      )
    ]

abbrev pub is_published : PublishDraftResult → Bool
is_published (published_as _) = true
is_published _ = false

abbrev pub bumped : Option ℕ → Option ℕ
bumped none = none
bumped (some v) = some (v + 1)

-- A publish that succeeds moves the version of its project up by one; any other call, and any other
-- project, leaves the version alone.
pub publish_version_effect :
    (le : Text → Text → Bool) (now id project_id owner q : ℕ) (db : Db) (dir : Dir)
    → let o = publish_draft le now id project_id owner db dir in
      version_of q o.db.projects ≡ (
        if is_published o.result && q == project_id
        then bumped (version_of q db.projects)
        else version_of q db.projects)
unfolding publish_draft
publish_version_effect le now id project_id owner q db dir =
    elim (Option-cases (select_one (is_project project_id) db.projects)) [
      | inl missing ↦ ground arith
      | inr (p, found) ↦
          ground (arith, version_of-update q project_id (p.spec_public_version + 1) db.projects)
    ]
