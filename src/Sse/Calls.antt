-- ===== src/Sse/Calls.antt =====
-- The calls that a caller of `openSse` sees.
use specifyr.Prelude.{
  ◌≡◌, refl, ap, sym, Bool, true, false, not, List, [], ◌∷◌, ◌++◌, Text, all, arith, Option-cases,
  inl, inr,
}
use mathlib.Core.List.{append_assoc}
use specifyr.Sse.Blocks.{feed_all, parse_sse_block}
use specifyr.Sse.Client.{
  Call, on_event, on_error, on_close, Ending, finished, aborted, broken, Response, fetch_failed,
  bad_status, body, call_of, calls_of, at_end, open_sse,
}
use specifyr.Sse.Chunks.{joined, feed_all-joined, cut-empty}

feed_all-same : (cs ds : List Text) → joined cs ≡ joined ds → feed_all [] cs ≡ feed_all [] ds
feed_all-same cs ds e = cc (feed_all-joined [] cs cut-empty, feed_all-joined [] ds cut-empty)

-- The calls depend on the text of the stream and on how it ends alone: two ways to cut one text into
-- chunks give the same events, errors and close in the same order.
pub open_sse_chunks :
    (cs ds : List Text) (ending : Ending)
    → joined cs ≡ joined ds
    → open_sse (body cs ending) ≡ open_sse (body ds ending)
unfolding open_sse
open_sse_chunks cs ds ending e =
    ap (λ r. calls_of r.0 ++ (at_end r.1 ending ++ on_close ∷ [])) (feed_all-same cs ds e)

abbrev pub is_close : Call → Bool
is_close on_close = true
is_close (on_event _) = false
is_close on_error = false

abbrev pub never_closes : List Call → Bool
never_closes cs = all (λ c. not (is_close c)) cs

never_closes-append :
    (cs ds : List Call)
    → never_closes cs ≡ true
    → never_closes ds ≡ true
    → never_closes (cs ++ ds) ≡ true
never_closes-append [] ds h k = k
never_closes-append (c ∷ cs) ds h k = ground (arith, never_closes-append cs ds)

never_closes-call_of : (raw : Text) → never_closes (call_of raw) ≡ true
never_closes-call_of raw = elim (Option-cases (parse_sse_block raw)) [
  | inl nothing ↦ ground arith
  | inr (e, found) ↦ ground arith
]

never_closes-calls_of : (raws : List Text) → never_closes (calls_of raws) ≡ true
unfolding calls_of
never_closes-calls_of [] = refl
never_closes-calls_of (raw ∷ raws) =
    never_closes-append (call_of raw) (calls_of raws) (never_closes-call_of raw)
      (never_closes-calls_of raws)

never_closes-at_end : (left : Text) (ending : Ending) → never_closes (at_end left ending) ≡ true
unfolding at_end
never_closes-at_end left finished = ground (arith, never_closes-call_of left)
never_closes-at_end left aborted = refl
never_closes-at_end left broken = refl

-- Whatever the response, `onClose` is called exactly once, after every other call.
pub open_sse_closes :
    (r : Response)
    → (front : List Call) × (open_sse r ≡ front ++ on_close ∷ []) × (never_closes front ≡ true)
unfolding open_sse
open_sse_closes fetch_failed = (on_error ∷ [], refl, refl)
open_sse_closes bad_status = (on_error ∷ [], refl, refl)
open_sse_closes (body chunks ending) =
    let raws = (feed_all [] chunks).0 in
    let left = (feed_all [] chunks).1 in
    (
      calls_of raws ++ at_end left ending,
      sym (append_assoc (calls_of raws) (at_end left ending) (on_close ∷ [])),
      never_closes-append (calls_of raws) (at_end left ending) (never_closes-calls_of raws)
          (never_closes-at_end left ending),
    )
