-- ===== src/Drafts/Disk/Written.antt =====
-- What the directory holds after `writePublicSpecFiles`.
use specifyr.Prelude.{
  ◌≡◌, refl, true, false, Option, none, some, List, [], ◌∷◌, Text, text_eq, text_eq_iff, arith,
  if◌then◌else◌, Option-cases, Bool-cases, inl, inr,
}
use specifyr.Drafts.Disk.{
  held, missing, unwritable, Node, file, directory, link, overwrite, Entry, Dir, entries,
  PublicSpecFile, is_desired, remove_obsolete, write_file, write_all, all_flat,
  write_public_spec_files,
}

-- The entry with a name.
abbrev pub node_of : Text → List Entry → Option Node
node_of name [] = none
node_of name ((n, node) ∷ es) = if text_eq n name then some node else node_of name es

-- No two entries of a directory share a name.
abbrev pub HasUniqueNames : List Entry → Type 0
HasUniqueNames [] = Unit
HasUniqueNames ((n, node) ∷ es) = (node_of n es ≡ none) × HasUniqueNames es

-- The content that a bundle gives to a name; a later file of the same name wins.
abbrev pub content_of : Text → List PublicSpecFile → Option Text
content_of name [] = none
content_of name (f ∷ fs) = elim (content_of name fs) [
  | some c ↦ some c
  | none ↦ if text_eq f.name name then some f.content else none
]

-- What is left of an entry that the bundle does not name: no file.
abbrev pub no_file : Option Node → Option Node
no_file none = none
no_file (some (file _)) = none
no_file (some directory) = some directory
no_file (some (link target)) = some (link target)

-- A text, in a file of its own, or behind the link that the name had.
abbrev pub holding : Text → Option Node → Node
holding c (some (link _)) = link (held c)
holding c _ = file c

abbrev pub overwritten : Option Text → Option Node → Option Node
overwritten none old = old
overwritten (some c) old = some (holding c old)

overwrite-holding :
    (content : Text) (node new : Node)
    → overwrite content node ≡ some new
    → new ≡ holding content (some node)
overwrite-holding content (file c) new e = ground (arith, e)
overwrite-holding content directory new e = ground (arith, e)
overwrite-holding content (link (held c)) new e = ground (arith, e)
overwrite-holding content (link missing) new e = ground (arith, e)
overwrite-holding content (link unwritable) new e = ground (arith, e)

node_of-write_file :
    (name content m : Text) (es es' : List Entry)
    → write_file name content es ≡ some es'
    → node_of m es'
      ≡ (if text_eq name m then some (holding content (node_of m es)) else node_of m es)
unfolding write_file
node_of-write_file name content m [] es' e = ground arith
node_of-write_file name content m ((n, node) ∷ es) es' e =
    elim (Option-cases (overwrite content node)) [
      | inl refused ↦ elim (Option-cases (write_file name content es)) [
        | inl failed ↦ ground (arith, refused, failed)
        | inr (es'', wrote) ↦ ground (
          arith,
          refused,
          wrote,
          node_of-write_file name content m es es'' wrote,
          text_eq_iff n name,
          text_eq_iff n m,
          text_eq_iff name m,
        )
      ]
      | inr (new, at) ↦ elim (Option-cases (write_file name content es)) [
        | inl failed ↦ ground (
          arith,
          at,
          failed,
          overwrite-holding content node new at,
          text_eq_iff n name,
          text_eq_iff n m,
          text_eq_iff name m,
        )
        | inr (es'', wrote) ↦ ground (
          arith,
          at,
          wrote,
          overwrite-holding content node new at,
          node_of-write_file name content m es es'' wrote,
          text_eq_iff n name,
          text_eq_iff n m,
          text_eq_iff name m,
        )
      ]
    ]

-- The last of two writes counts.
overwritten-holding :
    (last : Option Text) (d : Text) (old : Option Node)
    → overwritten last (some (holding d old))
      ≡ overwritten (elim last [ some c ↦ some c | none ↦ some d ]) old
overwritten-holding none d old = refl
overwritten-holding (some c) d none = refl
overwritten-holding (some c) d (some (file t)) = refl
overwritten-holding (some c) d (some directory) = refl
overwritten-holding (some c) d (some (link target)) = refl

node_of-write_all :
    (m : Text) (fs : List PublicSpecFile) (es : List Entry)
    → (write_all fs es).1 ≡ true
    → node_of m (write_all fs es).0 ≡ overwritten (content_of m fs) (node_of m es)
unfolding write_all
node_of-write_all m [] es e = refl
node_of-write_all m (f ∷ fs) es e = elim (Option-cases (write_file f.name f.content es)) [
  | inl failed ↦ ground arith
  | inr (es', wrote) ↦ ground (
    arith,
    wrote,
    node_of-write_all m fs es',
    node_of-write_file f.name f.content m es es' wrote,
    overwritten-holding (content_of m fs) f.content (node_of m es),
  )
]

node_of-remove_obsolete :
    (m : Text) (fs : List PublicSpecFile) (es : List Entry)
    → HasUniqueNames es
    → node_of m (remove_obsolete fs es)
      ≡ (if is_desired m fs then node_of m es else no_file (node_of m es))
unfolding remove_obsolete
node_of-remove_obsolete m fs [] u = ground arith
node_of-remove_obsolete m fs ((n, file c) ∷ es) u =
    ground (arith, node_of-remove_obsolete m fs es u.1, text_eq_iff n m)
node_of-remove_obsolete m fs ((n, directory) ∷ es) u =
    ground (arith, node_of-remove_obsolete m fs es u.1, text_eq_iff n m)
node_of-remove_obsolete m fs ((n, link target) ∷ es) u =
    ground (arith, node_of-remove_obsolete m fs es u.1, text_eq_iff n m)

is_desired-content_of :
    (m : Text) (fs : List PublicSpecFile) → content_of m fs ≡ none → is_desired m fs ≡ false
unfolding is_desired
is_desired-content_of m [] e = refl
is_desired-content_of m (f ∷ fs) e =
    ground (arith, is_desired-content_of m fs, text_eq_iff f.name m, text_eq_iff m f.name)

-- When `writePublicSpecFiles` returns, and no two entries of the directory shared a name: a name of
-- the bundle has the bundle's content, behind the link if it was a symbolic link and else in a file
-- of its own; of the names that the bundle does not have, no file is left, and what is no file is
-- untouched.
pub write_public_spec_files_effect :
    (files : List PublicSpecFile) (dir : Dir) (m : Text)
    → HasUniqueNames (entries dir)
    → (write_public_spec_files files dir).1 ≡ true
    → node_of m (entries (write_public_spec_files files dir).0)
      ≡ overwritten (content_of m files) (no_file (node_of m (entries dir)))
unfolding write_public_spec_files
write_public_spec_files_effect files dir m u e = elim (Bool-cases (all_flat files)) [
  | inl flat ↦ ground (
    arith,
    node_of-write_all m files (remove_obsolete files (entries dir)),
    node_of-remove_obsolete m files (entries dir) u,
    is_desired-content_of m files,
  )
  | inr bad ↦ ground arith
]
