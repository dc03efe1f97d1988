-- ===== src/Drafts/Ops/Keys.antt =====
-- The primary key of the drafts under each request.
use specifyr.Prelude.{ℕ, ◌≡◌, refl, Bool, false, List, [], ◌∷◌, arith, any, inl, inr}
use specifyr.Prelude.Result.{Result-cases}
use specifyr.Database.{update, delete}
use specifyr.Drafts.Rows.{SpecDraft, Db, is_writable}
use specifyr.Drafts.Store.{
  patched, insert_files, replace_files, create_draft, patch_draft, delete_draft,
}
use specifyr.Drafts.Publish.{flip, is_flippable, publish_draft}
use specifyr.Drafts.Ops.{Op, create, patch, remove, publish, apply, has_id, HasUniqueIds}

-- No statement makes a second row of an id.
any-update :
    (x : ℕ) (p : SpecDraft → Bool) (f : SpecDraft → SpecDraft) (ds : List SpecDraft)
    → ((d : SpecDraft) → (f d).id ≡ d.id)
    → any (has_id x) (update p f ds) ≡ any (has_id x) ds
any-update x p f [] same = refl
any-update x p f (d ∷ ds) same = ground (arith, same d, any-update x p f ds same)

pub HasUniqueIds-update :
    (p : SpecDraft → Bool) (f : SpecDraft → SpecDraft) (ds : List SpecDraft)
    → ((d : SpecDraft) → (f d).id ≡ d.id)
    → HasUniqueIds ds
    → HasUniqueIds (update p f ds)
HasUniqueIds-update p f [] same u = u
HasUniqueIds-update p f (d ∷ ds) same u =
    ground (arith, same d, any-update d.id p f ds same, HasUniqueIds-update p f ds same u.1)

any-delete :
    (x : ℕ) (p : SpecDraft → Bool) (ds : List SpecDraft)
    → any (has_id x) ds ≡ false
    → any (has_id x) (delete p ds) ≡ false
any-delete x p [] e = e
any-delete x p (d ∷ ds) e = ground (arith, any-delete x p ds)

pub HasUniqueIds-delete :
    (p : SpecDraft → Bool) (ds : List SpecDraft) → HasUniqueIds ds → HasUniqueIds (delete p ds)
HasUniqueIds-delete p [] u = u
HasUniqueIds-delete p (d ∷ ds) u =
    ground (arith, any-delete d.id p ds u.0, HasUniqueIds-delete p ds u.1)

pub apply-HasUniqueIds :
    (op : Op) (db : Db) → HasUniqueIds db.drafts → HasUniqueIds (apply op db).drafts
unfolding apply create_draft patch_draft delete_draft publish_draft
apply-HasUniqueIds (create id now input) db u =
    elim (Result-cases (insert_files id input.files db.draft_files)) [
      | inl (err, failed) ↦ ground arith
      | inr (files, inserted) ↦ ground arith
    ]
apply-HasUniqueIds (patch now id project_id owner p) db u =
    elim (Result-cases (replace_files id p.files db.draft_files)) [
      | inl (err, failed) ↦ ground arith
      | inr (files, replaced) ↦ ground (
        arith,
        HasUniqueIds-update (is_writable id project_id owner) (patched now p) db.drafts (λ d. refl)
            u,
      )
    ]
apply-HasUniqueIds (remove id project_id owner) db u =
    ground (arith, HasUniqueIds-delete (is_writable id project_id owner) db.drafts u)
apply-HasUniqueIds (publish le now id project_id owner dir) db u =
    ground (arith, HasUniqueIds-update (is_flippable id owner) (flip now) db.drafts (λ d. refl) u)
