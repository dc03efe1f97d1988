-- ===== src/Orgs/Slug.antt =====
-- `slugify` of server/shared/utils/org-store.ts, on UTF-16 code units.
pub mod Shape
use specifyr.Prelude.{
  ℕ, zero, suc, ◌+◌, Bool, false, ◌&&◌, ◌||◌, [], ◌∷◌, ◌++◌, ◌≡◌, refl, Text, codes, ◌==◌, leb,
  if◌then◌else◌,
}

-- `\s` of JavaScript, which is also what `trim` strips.
is_space : ℕ → Bool
is_space c =
    leb 9 c && leb c 13
    || c == 32
    || c == 0xa0
    || c == 0x1680
    || leb 0x2000 c && leb c 0x200a
    || c == 0x2028
    || c == 0x2029
    || c == 0x202f
    || c == 0x205f
    || c == 0x3000
    || c == 0xfeff

-- `\w` of JavaScript
is_word : ℕ → Bool
is_word c =
    leb b'a' c && leb c b'z' || leb b'A' c && leb c b'Z' || leb b'0' c && leb c b'9' || c == b'_'

-- `toLowerCase`, as far as the next step sees it: beyond ASCII only U+0130 and U+212A have an
-- ASCII letter in their lower case, and every other letter stays outside ASCII and is no space.
lower_case : ℕ → Text
lower_case c =
    if leb b'A' c && leb c b'Z'
    then (c + 32) ∷ []
    else if c == 0x130
    then b'i' ∷ 0x307 ∷ []
    else if c == 0x212a
    then b'k' ∷ []
    else c ∷ []

unfoldable pub to_lower_case : Text → Text
unfolding lower_case
to_lower_case [] = []
to_lower_case (c ∷ s) = lower_case c ++ to_lower_case s

-- `[^\w\s-]` is dropped.
is_kept : ℕ → Bool
is_kept c = is_word c || is_space c || c == b'-'

strip : Text → Text
strip [] = []
strip (c ∷ s) = let rest = strip s in if is_kept c then c ∷ rest else rest

trim_start : Text → Text
trim_start [] = []
trim_start (c ∷ s) = let rest = trim_start s in if is_space c then rest else c ∷ s

-- A space is put back in front of what is left, unless nothing is.
keep_space : ℕ → Text → Text
keep_space c [] = if is_space c then [] else c ∷ []
keep_space c (d ∷ s) = c ∷ d ∷ s

trim_end : Text → Text
trim_end [] = []
trim_end (c ∷ s) = keep_space c (trim_end s)

unfoldable pub trim : Text → Text
unfolding trim_start trim_end is_space keep_space
trim s = trim_end (trim_start s)

-- `.replace(/\s+/g, "-")`; the flag says that a run of spaces has been replaced just before.
join_words : Bool → Text → Text
join_words in_run [] = []
join_words in_run (c ∷ s) =
    let rest = join_words (is_space c) s in
    if is_space c then if in_run then rest else b'-' ∷ rest else c ∷ rest

slice : ℕ → Text → Text
slice zero s = []
slice (suc n) [] = []
slice (suc n) (c ∷ s) = c ∷ slice n s

unfoldable pub slugify : Text → Text
unfolding to_lower_case strip is_kept is_word trim join_words slice
slugify name = slice 64 (join_words false (trim (strip (to_lower_case name))))
