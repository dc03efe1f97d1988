-- ===== src/Sse/Tests.antt =====
-- A stream in pieces: tests, and the theorems applied.
use specifyr.Prelude.{◌≡◌, refl, List, [], ◌∷◌, ◌++◌, Text, codes}
use specifyr.Sse.Blocks.{SseEvent, newline, feed_all, parse_sse_block}
use specifyr.Sse.Client.{on_event, on_close, finished, broken, body, open_sse}
use specifyr.Sse.Calls.{open_sse_chunks}

-- The cut falls into a field name and between the two line ends.
abbrev pieces : List Text
pieces =
    (codes "event: tick" ++ newline ∷ codes "da")
    ∷ (codes "ta: 1" ++ newline ∷ [])
    ∷ (newline ∷ codes ": ping")
    ∷ []

abbrev whole : List Text
whole =
    (codes "event: tick" ++ newline ∷ codes "data: 1" ++ newline ∷ newline ∷ codes ": ping") ∷ []

abbrev tick : SseEvent
tick = record { event = codes "tick"; payload = codes "1" }

one_event : open_sse (body pieces finished) ≡ on_event tick ∷ on_close ∷ []
unfolding open_sse feed_all parse_sse_block
one_event = refl

open_sse_chunks_example : open_sse (body pieces broken) ≡ open_sse (body whole broken)
open_sse_chunks_example = open_sse_chunks pieces whole broken refl
