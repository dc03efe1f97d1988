-- ===== src/Drafts/Ops/Histories.antt =====
-- Histories of the draft tables.
use specifyr.Prelude.{
  ℕ, ◌≤◌, ◌≡◌, refl, ap, ◌∙◌, Bool, true, false, ◌&&◌, Option, none, some, List, [], ◌∷◌, arith,
  ◌==◌, if◌then◌else◌,
}
use specifyr.Database.{select, select_one}
use specifyr.Drafts.Rows.{SpecDraft, Db, file_of}
use specifyr.Drafts.Store.{
  CreateDraftInput, PatchDraftInput, create_draft, patch_draft, delete_draft,
}
use specifyr.Drafts.Publish.{publish_draft}
use specifyr.Drafts.Publish.Swap.{version_of, is_published, bumped, publish_version_effect}
use specifyr.Drafts.Ops.{
  Op, create, patch, remove, publish, committed, apply, apply_all, has_id, IsPublished,
  HasUniqueIds,
}
use specifyr.Drafts.Ops.Kept.{apply-Kept}
use specifyr.Drafts.Ops.Keys.{apply-HasUniqueIds}

-- While draft ids are unique: once a draft is published, neither its row nor its files change again, whatever requests follow:
-- creations, patches, deletions and publications by anyone.
pub published_forever :
    (ops : List Op) (i : ℕ) (d : SpecDraft) (db : Db)
    → HasUniqueIds db.drafts
    → IsPublished i d db
    → let db' = apply_all ops db in
      (select_one (has_id i) db'.drafts ≡ some d)
      × (select (file_of i) db'.draft_files ≡ select (file_of i) db.draft_files)
unfolding apply_all
published_forever [] i d db u h = (h.0, refl)
published_forever (op ∷ ops) i d db u h =
    let kept = apply-Kept i d op db u h in
    let later =
      published_forever ops i d (apply op db) (apply-HasUniqueIds op db u) (kept.0, h.1) in
    (later.0, later.1 ∙ kept.1)

-- The version did not go down, and the project is still there.
abbrev pub Grows : Option ℕ → Option ℕ → Type 0
Grows none none = Unit
Grows (some v) (some w) = v ≤ w
Grows none (some _) = ⊥
Grows (some _) none = ⊥

Grows-refl : (v : Option ℕ) → Grows v v
Grows-refl none = tt
Grows-refl (some v) = omega arith

Grows-trans : (u v w : Option ℕ) → Grows u v → Grows v w → Grows u w
Grows-trans none none none g h = tt
Grows-trans (some u) (some v) (some w) g h = omega arith
Grows-trans none none (some w) g h = elim h [ ]
Grows-trans none (some v) w g h = elim g [ ]
Grows-trans (some u) none w g h = elim g [ ]
Grows-trans (some u) (some v) none g h = elim h [ ]

Grows-of_eq : (u v : Option ℕ) → v ≡ u → Grows u v
Grows-of_eq u v e = rw e (Grows-refl u)

create_draft-projects :
    (id now : ℕ) (input : CreateDraftInput) (db : Db)
    → (committed db (create_draft id now input db)).projects ≡ db.projects
unfolding create_draft
create_draft-projects id now input db = ground arith

patch_draft-projects :
    (now id project_id owner : ℕ) (p : PatchDraftInput) (db : Db)
    → (committed db (patch_draft now id project_id owner p db)).projects ≡ db.projects
unfolding patch_draft
patch_draft-projects now id project_id owner p db = ground arith

delete_draft-projects :
    (id project_id owner : ℕ) (db : Db)
    → (delete_draft id project_id owner db).1.projects ≡ db.projects
unfolding delete_draft
delete_draft-projects id project_id owner db = ground arith

Grows-bumped : (b : Bool) (v : Option ℕ) → Grows v (if b then bumped v else v)
Grows-bumped true none = tt
Grows-bumped true (some v) = omega arith
Grows-bumped false v = Grows-refl v

apply-Grows :
    (op : Op) (q : ℕ) (db : Db)
    → Grows (version_of q db.projects) (version_of q (apply op db).projects)
unfolding apply
apply-Grows (create id now input) q db =
    Grows-of_eq _ _ (ap (version_of q) (create_draft-projects id now input db))
apply-Grows (patch now id project_id owner p) q db =
    Grows-of_eq _ _ (ap (version_of q) (patch_draft-projects now id project_id owner p db))
apply-Grows (remove id project_id owner) q db =
    Grows-of_eq _ _ (ap (version_of q) (delete_draft-projects id project_id owner db))
apply-Grows (publish le now id project_id owner dir) q db =
    let o = publish_draft le now id project_id owner db dir in
    rw (publish_version_effect le now id project_id owner q db dir)
      (Grows-bumped (is_published o.result && q == project_id) (version_of q db.projects))

-- Whatever requests follow, no project's public version goes down.
pub versions_grow :
    (ops : List Op) (q : ℕ) (db : Db)
    → Grows (version_of q db.projects) (version_of q (apply_all ops db).projects)
unfolding apply_all
versions_grow [] q db = Grows-refl (version_of q db.projects)
versions_grow (op ∷ ops) q db =
    Grows-trans (version_of q db.projects) (version_of q (apply op db).projects)
      (version_of q (apply_all ops (apply op db)).projects) (apply-Grows op q db)
      (versions_grow ops q (apply op db))
