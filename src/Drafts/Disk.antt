-- ===== src/Drafts/Disk.antt =====
-- The published files on disk, server/shared/utils/spec-public-state.ts. A directory is its
-- entries; `none` is a directory that does not exist. File names are compared by `localeCompare`,
-- whose order is a parameter.
pub mod Written
use specifyr.Prelude.{
  ℕ, Bool, true, false, not, ◌&&◌, ◌||◌, Option, none, some, List, [], ◌∷◌, ◌++◌, Text, codes,
  text_eq, ◌==◌, any, if◌then◌else◌,
}

-- What is behind a symbolic link: a file with a text, nothing, or what cannot be written as a file.
-- It lies outside the directory.
pub data Target : Type 0 where
  held : Text → Target
  missing unwritable : Target

-- `isFile()` of an entry, which does not follow links, holds of a `file` alone.
pub data Node : Type 0 where
  file : Text → Node
  directory : Node
  link : Target → Node

abbrev pub Entry : Type 0
Entry = Text × Node

abbrev pub Dir : Type 0
Dir = Option (List Entry)

pub record PublicSpecFile : Type 0 where
  pub name : Text
  pub content : Text

abbrev pub entries : Dir → List Entry
entries none = []
entries (some es) = es

abbrev pub wanted : Option Text → Text → Bool
wanted none name = true
wanted (some n) name = text_eq name n

abbrev add_file : Option Text → Text → Node → List PublicSpecFile → List PublicSpecFile
add_file only name (file content) rest =
    if wanted only name then record { name = name; content = content } ∷ rest else rest
add_file only name _ rest = rest

pub collect : Option Text → List Entry → List PublicSpecFile
collect only [] = []
collect only ((name, node) ∷ es) = add_file only name node (collect only es)

module _ (le : Text → Text → Bool) where
  insert_sorted : PublicSpecFile → List PublicSpecFile → List PublicSpecFile
  insert_sorted f [] = f ∷ []
  insert_sorted f (g ∷ gs) = if le f.name g.name then f ∷ g ∷ gs else g ∷ insert_sorted f gs

  unfoldable pub sort_files : List PublicSpecFile → List PublicSpecFile
  unfolding insert_sorted
  sort_files [] = []
  sort_files (f ∷ fs) = insert_sorted f (sort_files fs)

  unfoldable pub read_public_spec_files : Option Text → Dir → List PublicSpecFile
  unfolding collect sort_files insert_sorted
  read_public_spec_files only dir = sort_files (collect only (entries dir))

-- `assertFlatSpecFileName` lets the name pass. `path.isAbsolute` asks for a leading "/".
unfoldable pub is_flat : Text → Bool
is_flat name =
    not (text_eq name [] || text_eq name (codes ".") || text_eq name (codes ".."))
    && not (any (λ c. c == b'/' || c == 0x5c || c == 0) name)

-- `new Set(files.map((f) => f.name)).has(name)`
pub is_desired : Text → List PublicSpecFile → Bool
is_desired name [] = false
is_desired name (f ∷ fs) = text_eq name f.name || is_desired name fs

abbrev is_obsolete : Text → Node → List PublicSpecFile → Bool
is_obsolete name (file _) files = not (is_desired name files)
is_obsolete name _ files = false

-- `fs.rm` of each file that is not in the new bundle
pub remove_obsolete : List PublicSpecFile → List Entry → List Entry
unfolding is_desired
remove_obsolete files [] = []
remove_obsolete files ((name, node) ∷ es) =
    let rest = remove_obsolete files es in
    if is_obsolete name node files then rest else (name, node) ∷ rest

-- A write to an entry, which follows a link; `none` is an error.
abbrev pub overwrite : Text → Node → Option Node
overwrite content (file _) = some (file content)
overwrite content directory = none
overwrite content (link unwritable) = none
overwrite content (link _) = some (link (held content))

-- `fs.writeFile`
pub write_file : Text → Text → List Entry → Option (List Entry)
write_file name content [] = some ((name, file content) ∷ [])
write_file name content ((n, node) ∷ es) =
    let rest = write_file name content es in
    if text_eq n name
    then elim (overwrite content node) [ none ↦ none | some new ↦ some ((n, new) ∷ es) ]
    else elim rest [ none ↦ none | some es' ↦ some ((n, node) ∷ es') ]

-- The entries that the loop of writes leaves, and whether it ran to its end.
pub write_all : List PublicSpecFile → List Entry → List Entry × Bool
unfolding write_file
write_all [] es = (es, true)
write_all (f ∷ fs) es = elim (write_file f.name f.content es) [
  | none ↦ (es, false)
  | some es' ↦ write_all fs es'
]

pub all_flat : List PublicSpecFile → Bool
unfolding is_flat
all_flat [] = true
all_flat (f ∷ fs) = is_flat f.name && all_flat fs

-- The directory afterwards, and `false` if the function has thrown.
unfoldable pub write_public_spec_files : List PublicSpecFile → Dir → Dir × Bool
unfolding all_flat remove_obsolete write_all
write_public_spec_files files dir =
    if all_flat files
    then (let (es, done) = write_all files (remove_obsolete files (entries dir)) in (some es, done))
    else (dir, false)
