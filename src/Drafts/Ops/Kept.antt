-- ===== src/Drafts/Ops/Kept.antt =====
-- No request touches a published draft or its files.
use specifyr.Prelude.{
  ℕ, ◌≡◌, refl, ◌∙◌, ◌≢◌, Bool, false, Option, none, some, List, [], ◌∷◌, Text, arith, any, inl,
  inr,
}
use specifyr.Prelude.Result.{ok, Result-cases}
use specifyr.Database.{select, select_one, update, delete}
use specifyr.Drafts.Disk.{Dir}
use specifyr.Drafts.Rows.{published, SpecDraft, SpecDraftFile, Db, is_writable, file_of}
use specifyr.Drafts.Store.{
  DraftFileInput, CreateDraftInput, PatchDraftInput, patched, insert_files, replace_files,
  create_draft, patch_draft, delete_draft,
}
use specifyr.Drafts.Publish.{flip, is_flippable, publish_draft}
use specifyr.Drafts.Ops.{
  Op, create, patch, remove, publish, committed, apply, has_id, IsPublished, HasUniqueIds,
}

-- A write finds no row under the id of a published draft.
absent :
    (id : ℕ) (ds : List SpecDraft) → any (has_id id) ds ≡ false → select_one (has_id id) ds ≡ none
absent id [] e = refl
absent id (d ∷ ds) e = ground (arith, absent id ds)

absent_writable :
    (id project_id owner : ℕ) (ds : List SpecDraft)
    → any (has_id id) ds ≡ false
    → select_one (is_writable id project_id owner) ds ≡ none
absent_writable id project_id owner [] e = refl
absent_writable id project_id owner (d ∷ ds) e =
    ground (arith, absent_writable id project_id owner ds)

published_not_writable :
    (id project_id owner : ℕ) (ds : List SpecDraft) (d : SpecDraft)
    → HasUniqueIds ds
    → select_one (has_id id) ds ≡ some d
    → d.status ≡ published
    → select_one (is_writable id project_id owner) ds ≡ none
published_not_writable id project_id owner [] d u f p = refl
published_not_writable id project_id owner (e ∷ ds) d u f p = ground (
  arith,
  published_not_writable id project_id owner ds d u.1,
  absent_writable id project_id owner ds,
)

select_kept-patch :
    (i now id project_id owner : ℕ) (p : PatchDraftInput) (ds : List SpecDraft) (d : SpecDraft)
    → select_one (has_id i) ds ≡ some d
    → d.status ≡ published
    → select_one (has_id i) (update (is_writable id project_id owner) (patched now p) ds) ≡ some d
select_kept-patch i now id project_id owner p [] d f s = f
select_kept-patch i now id project_id owner p (e ∷ ds) d f s =
    ground (arith, select_kept-patch i now id project_id owner p ds d)

select_kept-delete :
    (i id project_id owner : ℕ) (ds : List SpecDraft) (d : SpecDraft)
    → select_one (has_id i) ds ≡ some d
    → d.status ≡ published
    → HasUniqueIds ds
    → select_one (has_id i) (delete (is_writable id project_id owner) ds) ≡ some d
select_kept-delete i id project_id owner [] d f s u = f
select_kept-delete i id project_id owner (e ∷ ds) d f s u =
    ground (arith, select_kept-delete i id project_id owner ds d, absent i ds)

select_kept-flip :
    (i now id owner : ℕ) (ds : List SpecDraft) (d : SpecDraft)
    → select_one (has_id i) ds ≡ some d
    → d.status ≡ published
    → select_one (has_id i) (update (is_flippable id owner) (flip now) ds) ≡ some d
select_kept-flip i now id owner [] d f s = f
select_kept-flip i now id owner (e ∷ ds) d f s =
    ground (arith, select_kept-flip i now id owner ds d)

files_kept-delete :
    (i id : ℕ) (fs : List SpecDraftFile)
    → i ≢ id
    → select (file_of i) (delete (file_of id) fs) ≡ select (file_of i) fs
files_kept-delete i id [] n = refl
files_kept-delete i id (f ∷ fs) n = ground (arith, files_kept-delete i id fs n)

files_kept-insert :
    (i id : ℕ) (new : List DraftFileInput) (fs fs' : List SpecDraftFile)
    → i ≢ id
    → insert_files id new fs ≡ ok fs'
    → select (file_of i) fs' ≡ select (file_of i) fs
unfolding insert_files
files_kept-insert i id [] fs fs' n e = ground arith
files_kept-insert i id (f ∷ new) fs fs' n e = elim (Result-cases (insert_files id new fs)) [
  | inl (err, failed) ↦ ground arith
  | inr (done, inserted) ↦ ground (arith, files_kept-insert i id new fs done n inserted)
]

files_kept-replace :
    (i id : ℕ) (new : Option (List DraftFileInput)) (fs fs' : List SpecDraftFile)
    → i ≢ id
    → replace_files id new fs ≡ ok fs'
    → select (file_of i) fs' ≡ select (file_of i) fs
unfolding replace_files
files_kept-replace i id none fs fs' n e = ground arith
files_kept-replace i id (some new) fs fs' n e =
    files_kept-insert i id new (delete (file_of id) fs) fs' n e ∙ files_kept-delete i id fs n

module _ (i : ℕ) (d : SpecDraft) where
  -- The row of a published draft and its files, before and after.
  abbrev pub Kept : Db → Db → Type 0
  Kept db db' =
      (select_one (has_id i) db'.drafts ≡ some d)
      × (select (file_of i) db'.draft_files ≡ select (file_of i) db.draft_files)

  create_draft-Kept :
      (id now : ℕ) (input : CreateDraftInput) (db : Db)
      → IsPublished i d db
      → Kept db (committed db (create_draft id now input db))
  unfolding create_draft
  create_draft-Kept id now input db p =
      elim (Result-cases (insert_files id input.files db.draft_files)) [
        | inl (err, failed) ↦ ground arith
        | inr (files, inserted) ↦
            ground
              (arith, files_kept-insert i id input.files db.draft_files files, absent i db.drafts)
      ]

  patch_draft-Kept :
      (now id project_id owner : ℕ) (p : PatchDraftInput) (db : Db)
      → HasUniqueIds db.drafts
      → IsPublished i d db
      → Kept db (committed db (patch_draft now id project_id owner p db))
  unfolding patch_draft
  patch_draft-Kept now id project_id owner p db u h =
      elim (Result-cases (replace_files id p.files db.draft_files)) [
        | inl (err, failed) ↦ ground arith
        | inr (files, replaced) ↦ ground (
          arith,
          select_kept-patch i now id project_id owner p db.drafts d h.0 h.1,
          published_not_writable i project_id owner db.drafts d u h.0 h.1,
          files_kept-replace i id p.files db.draft_files files,
        )
      ]

  delete_draft-Kept :
      (id project_id owner : ℕ) (db : Db)
      → HasUniqueIds db.drafts
      → IsPublished i d db
      → Kept db (delete_draft id project_id owner db).1
  unfolding delete_draft
  delete_draft-Kept id project_id owner db u h = ground (
    arith,
    select_kept-delete i id project_id owner db.drafts d h.0 h.1 u,
    published_not_writable i project_id owner db.drafts d u h.0 h.1,
    files_kept-delete i id db.draft_files,
  )

  publish_draft-Kept :
      (le : Text → Text → Bool) (now id project_id owner : ℕ) (db : Db) (dir : Dir)
      → IsPublished i d db
      → Kept db (publish_draft le now id project_id owner db dir).db
  unfolding publish_draft
  publish_draft-Kept le now id project_id owner db dir h =
      ground (arith, select_kept-flip i now id owner db.drafts d h.0 h.1)

  pub apply-Kept :
      (op : Op) (db : Db) → HasUniqueIds db.drafts → IsPublished i d db → Kept db (apply op db)
  unfolding apply
  apply-Kept (create id now input) db u h = create_draft-Kept id now input db h
  apply-Kept (patch now id project_id owner p) db u h =
      patch_draft-Kept now id project_id owner p db u h
  apply-Kept (remove id project_id owner) db u h = delete_draft-Kept id project_id owner db u h
  apply-Kept (publish le now id project_id owner dir) db u h =
      publish_draft-Kept le now id project_id owner db dir h
