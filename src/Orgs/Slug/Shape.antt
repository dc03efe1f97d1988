-- ===== src/Orgs/Slug/Shape.antt =====
-- The form of a slug.
use specifyr.Prelude.{
  ℕ, zero, suc, ◌≤◌, ◌≡◌, refl, ap, Bool, true, false, ◌&&◌, ◌||◌, [], ◌∷◌, Text, ◌==◌, leb, length,
  All, arith,
}
use specifyr.Orgs.Slug.{
  is_space, is_word, lower_case, to_lower_case, is_kept, strip, trim_start, keep_space, trim_end,
  trim, join_words, slice, slugify,
}

is_upper : ℕ → Bool
is_upper c = leb b'A' c && leb c b'Z'

-- A lower-case ASCII letter, a digit, `_` or `-`.
unfoldable pub is_slug_char : ℕ → Bool
is_slug_char c = leb b'a' c && leb c b'z' || leb b'0' c && leb c b'9' || c == b'_' || c == b'-'

abbrev IsLower : ℕ → Type 0
IsLower c = is_upper c ≡ false

abbrev IsClean : ℕ → Type 0
IsClean c = (is_upper c ≡ false) × (is_kept c ≡ true)

abbrev pub IsSlugChar : ℕ → Type 0
IsSlugChar c = is_slug_char c ≡ true

to_lower_case-IsLower : (s : Text) → All IsLower (to_lower_case s)
unfolding to_lower_case is_upper
to_lower_case-IsLower [] = tt
to_lower_case-IsLower (c ∷ s) = ground (arith, to_lower_case-IsLower s)

strip-IsClean : (s : Text) → All IsLower s → All IsClean (strip s)
unfolding strip
strip-IsClean [] h = tt
strip-IsClean (c ∷ s) h = ground (arith, strip-IsClean s h.1)

module _ (P : ℕ → Type 0) where
  All-trim_start : (s : Text) → All P s → All P (trim_start s)
  unfolding trim_start
  All-trim_start [] h = tt
  All-trim_start (c ∷ s) h = ground (arith, All-trim_start s h.1)

  All-keep_space : (c : ℕ) (s : Text) → P c → All P s → All P (keep_space c s)
  unfolding keep_space
  All-keep_space c [] p h = ground arith
  All-keep_space c (d ∷ s) p h = (p, h)

  All-trim_end : (s : Text) → All P s → All P (trim_end s)
  unfolding trim_end
  All-trim_end [] h = tt
  All-trim_end (c ∷ s) h = All-keep_space c (trim_end s) h.0 (All-trim_end s h.1)

  All-slice : (n : ℕ) (s : Text) → All P s → All P (slice n s)
  unfolding slice
  All-slice zero s h = tt
  All-slice (suc n) [] h = tt
  All-slice (suc n) (c ∷ s) h = (h.0, All-slice n s h.1)

length-slice-le : (n : ℕ) (s : Text) → length (slice n s) ≤ n
unfolding slice
length-slice-le zero s = omega arith
length-slice-le (suc n) [] = omega arith
length-slice-le (suc n) (c ∷ s) = omega (arith, length-slice-le n s)

-- A kept character that is neither upper case nor a space is one of a slug.
IsSlugChar_of_clean :
    (c : ℕ) → is_upper c ≡ false → is_kept c ≡ true → is_space c ≡ false → is_slug_char c ≡ true
unfolding is_upper is_kept is_word is_space is_slug_char
IsSlugChar_of_clean c u k s = ground arith

IsSlugChar-dash : is_slug_char b'-' ≡ true
unfolding is_slug_char
IsSlugChar-dash = refl

join_words-IsSlugChar : (b : Bool) (s : Text) → All IsClean s → All IsSlugChar (join_words b s)
unfolding join_words
join_words-IsSlugChar b [] h = tt
join_words-IsSlugChar b (c ∷ s) h =
    ground (arith, join_words-IsSlugChar (is_space c) s h.1, IsSlugChar_of_clean c, IsSlugChar-dash)

-- A slug has at most 64 characters, each a lower-case ASCII letter, a digit, `_` or `-`.
pub slugify-IsSlug : (name : Text) → All IsSlugChar (slugify name) × (length (slugify name) ≤ 64)
unfolding slugify trim
slugify-IsSlug name =
    let clean = strip-IsClean (to_lower_case name) (to_lower_case-IsLower name) in
    let trimmed =
      All-trim_end IsClean _ (All-trim_start IsClean (strip (to_lower_case name)) clean) in
    (All-slice IsSlugChar 64 _ (join_words-IsSlugChar false _ trimmed), length-slice-le 64 _)

-- What each step does to a character of a slug.
slug_char_facts :
    (c : ℕ)
    → is_slug_char c ≡ true
    → (lower_case c ≡ c ∷ []) × (is_kept c ≡ true) × (is_space c ≡ false)
unfolding is_slug_char lower_case is_kept is_word is_space
slug_char_facts c h = ground arith

to_lower_case_slug : (s : Text) → All IsSlugChar s → to_lower_case s ≡ s
unfolding to_lower_case
to_lower_case_slug [] h = refl
to_lower_case_slug (c ∷ s) h = rw ((slug_char_facts c h.0).0, to_lower_case_slug s h.1) refl

strip_slug : (s : Text) → All IsSlugChar s → strip s ≡ s
unfolding strip
strip_slug [] h = refl
strip_slug (c ∷ s) h = rw ((slug_char_facts c h.0).1, strip_slug s h.1) refl

trim_start_slug : (s : Text) → All IsSlugChar s → trim_start s ≡ s
unfolding trim_start
trim_start_slug [] h = refl
trim_start_slug (c ∷ s) h = rw (slug_char_facts c h.0).2 refl

keep_space_slug : (c : ℕ) (s : Text) → is_space c ≡ false → keep_space c s ≡ c ∷ s
unfolding keep_space
keep_space_slug c [] h = rw h refl
keep_space_slug c (d ∷ s) h = refl

trim_end_slug : (s : Text) → All IsSlugChar s → trim_end s ≡ s
unfolding trim_end
trim_end_slug [] h = refl
trim_end_slug (c ∷ s) h = rw (trim_end_slug s h.1) (keep_space_slug c s (slug_char_facts c h.0).2)

join_words_slug : (b : Bool) (s : Text) → All IsSlugChar s → join_words b s ≡ s
unfolding join_words
join_words_slug b [] h = refl
join_words_slug b (c ∷ s) h =
    rw ((slug_char_facts c h.0).2) (ap (λ t. c ∷ t) (join_words_slug false s h.1))

slice_short : (n : ℕ) (s : Text) → length s ≤ n → slice n s ≡ s
unfolding slice
slice_short zero [] h = refl
slice_short zero (c ∷ s) h = absurd (omega arith)
slice_short (suc n) [] h = refl
slice_short (suc n) (c ∷ s) h = rw (slice_short n s (omega arith))

slugify_slug : (s : Text) → All IsSlugChar s → length s ≤ 64 → slugify s ≡ s
unfolding slugify trim
slugify_slug s h l =
    rw
      (
        to_lower_case_slug s h,
        strip_slug s h,
        trim_start_slug s h,
        trim_end_slug s h,
        join_words_slug false s h,
        slice_short 64 s l,
      )
      refl

-- Making a slug of a slug changes nothing.
pub slugify_idempotent : (name : Text) → slugify (slugify name) ≡ slugify name
slugify_idempotent name =
    let (chars, short) = slugify-IsSlug name in slugify_slug (slugify name) chars short
