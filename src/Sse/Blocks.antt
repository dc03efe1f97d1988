-- ===== src/Sse/Blocks.antt =====
-- The buffer of `openSse` and the parser of one block of app/utils/sse-client.ts. A text is the list
-- of its UTF-16 code units.
use specifyr.Prelude.{
  ℕ, zero, suc, ◌&&◌, Option, none, some, List, [], ◌∷◌, ◌++◌, Text, codes, text_eq, ◌==◌, length,
  if◌then◌else◌,
}

abbrev pub newline : ℕ
newline = 10

-- `buffer.indexOf("\n\n")` with the two slices: the text before and behind the blank line.
unfoldable pub cut : Text → Option (Text × Text)
cut [] = none
cut (c ∷ []) = none
cut (c ∷ d ∷ s) =
    let rest = cut (d ∷ s) in
    if c == newline && d == newline
    then some ([], s)
    else elim rest [ none ↦ none | some (raw, behind) ↦ some (c ∷ raw, behind) ]

-- The inner loop: the blocks that are complete, and what is left in the buffer. The fuel bounds the
-- number of blocks.
unfoldable pub drain : ℕ → Text → List Text × Text
unfolding cut
drain zero buffer = ([], buffer)
drain (suc n) buffer = elim (cut buffer) [
  | none ↦ ([], buffer)
  | some (raw, behind) ↦ let (raws, left) = drain n behind in (raw ∷ raws, left)
]

-- One pass of the outer loop: a chunk is appended and the buffer drained. A block takes two
-- characters at least, so the length of the buffer is fuel enough.
unfoldable pub feed : Text → Text → List Text × Text
unfolding drain
feed buffer chunk = drain (length (buffer ++ chunk)) (buffer ++ chunk)

-- The outer loop over the chunks that are read.
unfoldable pub feed_all : Text → List Text → List Text × Text
unfolding feed
feed_all buffer [] = ([], buffer)
feed_all buffer (chunk ∷ chunks) =
    let (raws, left) = feed buffer chunk in
    let (more, rest) = feed_all left chunks in (raws ++ more, rest)

pub record SseEvent : Type 0 where
  pub event : Text
  pub payload : Text

-- `raw.split("\n")`
pub lines : Text → List Text
lines [] = [] ∷ []
lines (c ∷ s) =
    let rest = lines s in
    if c == newline then [] ∷ rest else elim rest [ [] ↦ (c ∷ []) ∷ [] | l ∷ ls ↦ (c ∷ l) ∷ ls ]

-- The field and the value at the first colon.
pub at_colon : Text → Option (Text × Text)
at_colon [] = none
at_colon (c ∷ s) =
    let rest = at_colon s in
    if c == b':'
    then some ([], s)
    else elim rest [ none ↦ none | some (field, value) ↦ some (c ∷ field, value) ]

-- `.replace(/^ /, "")`
abbrev drop_space : Text → Text
drop_space [] = []
drop_space (c ∷ s) = if c == b' ' then s else c ∷ s

-- The name of the event so far and the data lines, with one line more. A comment has an empty field.
pub read_line : Text → Text × List Text → Text × List Text
unfolding at_colon
read_line line (event, data_lines) = elim (at_colon line) [
  | none ↦ (event, data_lines)
  | some (field, value) ↦
      if text_eq field (codes "event")
      then (drop_space value, data_lines)
      else if text_eq field (codes "data")
      then (event, data_lines ++ drop_space value ∷ [])
      else (event, data_lines)
]

pub read_lines : List Text → Text × List Text → Text × List Text
unfolding read_line
read_lines [] acc = acc
read_lines (l ∷ ls) acc = read_lines ls (read_line l acc)

-- `dataLines.join("\n")`
pub join_lines : List Text → Text
join_lines [] = []
join_lines (l ∷ []) = l
join_lines (l ∷ m ∷ ls) = l ++ newline ∷ join_lines (m ∷ ls)

abbrev event_of : Text × List Text → Option SseEvent
event_of (event, []) = none
event_of (event, l ∷ ls) = some (record { event = event; payload = join_lines (l ∷ ls) })

unfoldable pub parse_sse_block : Text → Option SseEvent
unfolding lines read_lines join_lines
parse_sse_block raw = event_of (read_lines (lines raw) (codes "message", []))
