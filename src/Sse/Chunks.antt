-- ===== src/Sse/Chunks.antt =====
-- The calls do not depend on how the stream is cut into chunks.
use specifyr.Prelude.{
  ℕ, zero, suc, ◌+◌, ◌≤◌, ◌≡◌, refl, ap, none, some, List, [], ◌∷◌, ◌++◌, Text, length,
  length-append, arith, Option-cases, inl, inr,
}
use mathlib.Core.List.{append_assoc}
use specifyr.Sse.Blocks.{cut, drain, feed, feed_all}

length-cut : (b raw behind : Text) → cut b ≡ some (raw, behind) → 2 + length behind ≤ length b
unfolding cut
length-cut [] raw behind e = ground arith
length-cut (c ∷ []) raw behind e = ground arith
length-cut (c ∷ d ∷ s) raw behind e = elim (Option-cases (cut (d ∷ s))) [
  | inl whole ↦ ground arith
  | inr ((r, k), found) ↦ ground (arith, length-cut (d ∷ s) r k found)
]

cut-append :
    (b raw behind more : Text)
    → cut b ≡ some (raw, behind)
    → cut (b ++ more) ≡ some (raw, behind ++ more)
unfolding cut
cut-append [] raw behind more e = ground arith
cut-append (c ∷ []) raw behind more e = ground arith
cut-append (c ∷ d ∷ s) raw behind more e = elim (Option-cases (cut (d ∷ s))) [
  | inl whole ↦ ground arith
  | inr ((r, k), found) ↦ ground (arith, cut-append (d ∷ s) r k more found)
]

length-drain : (n : ℕ) (b : Text) → length (drain n b).1 ≤ length b
unfolding drain
length-drain zero b = omega arith
length-drain (suc n) b = elim (Option-cases (cut b)) [
  | inl whole ↦ ground arith
  | inr ((raw, behind), found) ↦
      ground (arith, length-drain n behind, length-cut b raw behind found)
]

-- The fuel of `drain` does not matter once it is the length of the buffer.
drain_enough : (n m : ℕ) (b : Text) → length b ≤ n → length b ≤ m → drain n b ≡ drain m b
unfolding drain
drain_enough zero zero b h k = refl
drain_enough zero (suc m) [] h k = ground arith
drain_enough zero (suc m) (c ∷ b) h k = absurd (omega arith)
drain_enough (suc n) zero [] h k = ground arith
drain_enough (suc n) zero (c ∷ b) h k = absurd (omega arith)
drain_enough (suc n) (suc m) b h k = elim (Option-cases (cut b)) [
  | inl whole ↦ ground arith
  | inr ((raw, behind), found) ↦
      let shorter = length-cut b raw behind found in
      ground (arith, drain_enough n m behind (omega arith) (omega arith))
]

-- One more block in front of what the buffer gives.
abbrev before : Text → List Text × Text → List Text × Text
before raw (raws, left) = (raw ∷ raws, left)

drain-cut :
    (n : ℕ) (b raw behind : Text)
    → cut b ≡ some (raw, behind)
    → drain (suc n) b ≡ before raw (drain n behind)
unfolding drain
drain-cut n b raw behind e = ground arith

drain-whole : (n : ℕ) (b : Text) → cut b ≡ none → drain n b ≡ ([], b)
unfolding drain
drain-whole zero b e = refl
drain-whole (suc n) b e = ground arith

-- The blocks in front of what the buffer gives.
abbrev pub after : List Text → List Text × Text → List Text × Text
after raws (more, left) = (raws ++ more, left)

pub cut-empty : cut [] ≡ none
unfolding cut
cut-empty = refl

pub drain-append :
    (n m : ℕ) (b more : Text)
    → length b ≤ n
    → length (b ++ more) ≤ m
    → drain m (b ++ more) ≡ after (drain n b).0 (drain m ((drain n b).1 ++ more))
drain-append zero m [] more h k = ground (arith, drain-whole 0 [] cut-empty)
drain-append zero m (c ∷ b) more h k = absurd (omega arith)
drain-append (suc n) zero b more h k = elim (Option-cases (cut b)) [
  | inl whole ↦ ground (arith, drain-whole (suc n) b whole)
  | inr ((raw, behind), found) ↦
      absurd (omega (arith, length-cut b raw behind found, length-append b more))
]
drain-append (suc n) (suc m) b more h k = elim (Option-cases (cut b)) [
  | inl whole ↦ ground (arith, drain-whole (suc n) b whole)
  | inr ((raw, behind), found) ↦
      let shorter = length-cut b raw behind found in
      let sum = length-append b more in
      let sum' = length-append behind more in
      let fits = length-drain n behind in
      let sum'' = length-append (drain n behind).1 more in
      let later = drain-append n m behind more (omega arith) (omega arith) in
      let enough =
        drain_enough m (suc m) ((drain n behind).1 ++ more) (omega arith) (omega arith) in
      ground (
        arith,
        drain-cut n b raw behind found,
        drain-cut m (b ++ more) raw (behind ++ more) (cut-append b raw behind more found),
        later,
        enough,
      )
]

cut-drain : (n : ℕ) (b : Text) → length b ≤ n → cut (drain n b).1 ≡ none
unfolding drain
cut-drain zero [] h = cut-empty
cut-drain zero (c ∷ b) h = absurd (omega arith)
cut-drain (suc n) b h = elim (Option-cases (cut b)) [
  | inl whole ↦ ground arith
  | inr ((raw, behind), found) ↦
      let shorter = length-cut b raw behind found in
      ground (arith, cut-drain n behind (omega arith))
]

-- The whole stream, in one piece.
abbrev pub joined : List Text → Text
joined [] = []
joined (chunk ∷ chunks) = chunk ++ joined chunks

append_empty : (xs : Text) → xs ++ [] ≡ xs
append_empty [] = refl
append_empty (x ∷ xs) = ap (λ ys. x ∷ ys) (append_empty xs)

pub feed_all-joined :
    (buffer : Text) (chunks : List Text)
    → cut buffer ≡ none
    → feed_all buffer chunks ≡ drain (length (buffer ++ joined chunks)) (buffer ++ joined chunks)
unfolding feed_all feed
feed_all-joined buffer [] w =
    ground (arith, append_empty buffer, drain-whole (length (buffer ++ [])) buffer w)
feed_all-joined buffer (chunk ∷ chunks) w =
    let b = buffer ++ chunk in
    let m = length (buffer ++ (chunk ++ joined chunks)) in
    let left = (drain (length b) b).1 in
    let whole = append_assoc buffer chunk (joined chunks) in
    let sum = length-append b (joined chunks) in
    let sum' = length-append left (joined chunks) in
    let fits = length-drain (length b) b in
    let same_length : length (b ++ joined chunks) ≡ m = ap length whole in
    let first = drain-append (length b) m b (joined chunks) (omega arith) (omega arith) in
    let later = feed_all-joined left chunks (cut-drain (length b) b (omega arith)) in
    let enough =
      drain_enough (length (left ++ joined chunks)) m (left ++ joined chunks) (omega arith)
        (omega arith) in
    ground (arith, first, later, enough, ap (drain m) whole)
