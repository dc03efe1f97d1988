-- ===== src/Sse/Client.antt =====
-- `openSse` of app/utils/sse-client.ts: the calls of `onEvent`, `onError` and `onClose` in their
-- order. The response of `fetch` and the decoded chunks are arguments; the callbacks do not throw.
use specifyr.Prelude.{
  ℕ, Bool, ◌&&◌, ◌||◌, none, some, List, [], ◌∷◌, ◌++◌, Text, ◌==◌, leb, all, if◌then◌else◌,
}
use specifyr.Sse.Blocks.{SseEvent, feed_all, parse_sse_block}

pub data Call : Type 0 where
  on_event : SseEvent → Call
  on_error on_close : Call

-- How the reading ends: at the end of the stream, by `abort`, or by an error.
pub data Ending : Type 0 where
  finished aborted broken : Ending

pub data Response : Type 0 where
  fetch_failed bad_status : Response
  body : List Text → Ending → Response

-- White space and line terminators, which `trim` takes off.
abbrev is_white : ℕ → Bool
is_white c =
    (leb 9 c && leb c 13)
    || c == 0x20
    || c == 0xa0
    || c == 0x1680
    || (leb 0x2000 c && leb c 0x200a)
    || c == 0x2028
    || c == 0x2029
    || c == 0x202f
    || c == 0x205f
    || c == 0x3000
    || c == 0xfeff

abbrev pub call_of : Text → List Call
call_of raw = elim (parse_sse_block raw) [ none ↦ [] | some e ↦ on_event e ∷ [] ]

unfoldable pub calls_of : List Text → List Call
calls_of [] = []
calls_of (raw ∷ raws) = call_of raw ++ calls_of raws

-- The flush of the trailing block, or the catch.
unfoldable pub at_end : Text → Ending → List Call
at_end left finished = if all is_white left then [] else call_of left
at_end left aborted = []
at_end left broken = on_error ∷ []

unfoldable pub open_sse : Response → List Call
unfolding calls_of at_end
open_sse fetch_failed = on_error ∷ on_close ∷ []
open_sse bad_status = on_error ∷ on_close ∷ []
open_sse (body chunks ending) =
    let (raws, left) = feed_all [] chunks in calls_of raws ++ (at_end left ending ++ on_close ∷ [])
