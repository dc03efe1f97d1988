-- ===== src/Database.antt =====
-- The SQL statements that the stores of server/shared/utils write with drizzle's builder, over a
-- table as a list of rows. A `where` clause is a test on rows and a `set` clause is a function on
-- rows, both taken from the source.
use specifyr.Prelude.{ℕ, Bool, Option, none, some, List, [], ◌∷◌, length, if◌then◌else◌}

module _ {ℓ} {R : Type ℓ} where
  -- `select().from(t).where(p)`
  abbrev pub select : (R → Bool) → List R → List R
  select p [] = []
  select p (r ∷ rs) = if p r then r ∷ select p rs else select p rs

  -- `const [row] = await select().from(t).where(p).limit(1)`
  abbrev pub select_one : (R → Bool) → List R → Option R
  select_one p [] = none
  select_one p (r ∷ rs) = if p r then some r else select_one p rs

  -- `update(t).set(f).where(p)`
  abbrev pub update : (R → Bool) → (R → R) → List R → List R
  update p f [] = []
  update p f (r ∷ rs) = (if p r then f r else r) ∷ update p f rs

  -- `delete(t).where(p)`
  abbrev pub delete : (R → Bool) → List R → List R
  delete p [] = []
  delete p (r ∷ rs) = if p r then delete p rs else r ∷ delete p rs

  -- `select({ n: count() }).from(t).where(p)`
  abbrev pub count : (R → Bool) → List R → ℕ
  count p rs = length (select p rs)

  -- `insert(t).values(r).onConflictDoUpdate({ target: p, set: f })`
  abbrev pub upsert : (R → Bool) → (R → R) → R → List R → List R
  upsert p f r [] = r ∷ []
  upsert p f r (s ∷ rs) = if p s then f s ∷ rs else s ∷ upsert p f r rs
