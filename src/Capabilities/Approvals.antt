-- ===== src/Capabilities/Approvals.antt =====
-- `CapabilityApprovalService` of src/core/capability-approval-service.js: the map of the pending
-- requests, the log of the event store and the answers that the promises are resolved with. The
-- transports only notify, and call `resolve`; the ids and the times are arguments.
use specifyr.Prelude.{
  ℕ, ◌*◌, ◌+◌, ◌-◌, Bool, true, false, ◌&&◌, Option, none, some, List, [], ◌∷◌, ◌++◌, map, Text,
  codes, text_eq, ◌==◌, leb, if◌then◌else◌,
}
use specifyr.Prelude.Result.{Result, ok, throw}
use specifyr.Database.{select_one, delete}
use specifyr.Orgs.Slug.{to_lower_case, trim}

pub data Decision : Type 0 where
  approved denied escalated : Decision

-- `cfg.on_timeout`; any other text decides as `deny`.
pub data OnTimeout : Type 0 where
  deny retry_once escalate_to_ceo : OnTimeout
  other_policy : Text → OnTimeout

-- `cfg.timeout` as it comes from the spec of the agent.
pub data TimeoutValue : Type 0 where
  milliseconds : ℕ → TimeoutValue
  written : Text → TimeoutValue
  unusable : TimeoutValue

pub record Agent : Type 0 where
  pub role : Text
  pub timeout : TimeoutValue
  pub on_timeout : Option OnTimeout
  pub escalate_to : Option Text
  pub reports_to : Option Text
  pub notify_via : List Text

abbrev is_digit : ℕ → Bool
is_digit c = leb b'0' c && leb c b'9'

-- `(\d+)` with the digits read so far, and the text behind them.
pub digits_from : ℕ → Text → ℕ × Text
digits_from n [] = (n, [])
digits_from n (c ∷ s) =
    let more = digits_from (n * 10 + (c - b'0')) s in if is_digit c then more else (n, c ∷ s)

-- The factor of a unit, in milliseconds.
unfoldable pub unit : Text → Option ℕ
unit t =
    if text_eq t []
    then some 1
    else if text_eq t (codes "ms")
    then some 1
    else if text_eq t (codes "s")
    then some 1000
    else if text_eq t (codes "m")
    then some 60000
    else if text_eq t (codes "h")
    then some 3600000
    else none

-- `parseTimeout`
unfoldable pub parse_timeout : TimeoutValue → Option ℕ
unfolding digits_from unit to_lower_case trim
parse_timeout unusable = none
parse_timeout (milliseconds n) = some n
parse_timeout (written t) = elim (trim t) [
  | [] ↦ none
  | c ∷ s ↦
      let (n, behind) = digits_from 0 (c ∷ s) in
      if is_digit c
      then elim (unit (to_lower_case (trim behind))) [
        | none ↦ none
        | some factor ↦ some (n * factor)
      ]
      else none
]

-- `decisionForTimeout`
unfoldable pub decision_for_timeout : OnTimeout → Decision
decision_for_timeout deny = denied
decision_for_timeout retry_once = denied
decision_for_timeout escalate_to_ceo = escalated
decision_for_timeout (other_policy _) = denied

-- `resolveEscalationTarget`
unfoldable pub resolve_escalation_target : Agent → Text
resolve_escalation_target agent = elim agent.escalate_to [
  | some role ↦ role
  | none ↦ elim agent.reports_to [ some role ↦ role | none ↦ codes "ceo" ]
]

-- An entry of `pending`, with what its timer does.
pub record Pending : Type 0 where
  pub id : ℕ
  pub slug : Text
  pub agent : Agent
  pub capability : Text
  pub on_timeout : OnTimeout
  pub timeout_ms : ℕ

-- What a promise is resolved with.
pub record Answer : Type 0 where
  pub id : ℕ
  pub decision : Decision
  pub escalate_to : Option Text
  pub by : Text
  pub at : ℕ

-- What is appended to the event store.
pub data Entry : Type 0 where
  approval_requested : ℕ → Text → Text → Text → ℕ → ℕ → OnTimeout → List Text → Entry
  approval_timeout : ℕ → Text → Text → Text → Decision → Option Text → ℕ → Entry
  approval_decided : ℕ → Text → Text → Text → Decision → Text → ℕ → Entry

pub record Service : Type 0 where
  pub pending : List Pending
  pub answers : List Answer
  pub log : List Entry

pub data Error : Type 0 where
  agent_is_required capability_is_required : Error

abbrev pub is_pending : ℕ → Pending → Bool
is_pending id p = p.id == id

abbrev pub default_timeout_ms : ℕ
default_timeout_ms = 300000

-- The entry that a request puts into `pending`, for the default of the service.
unfoldable pub new_pending : ℕ → ℕ → Text → Agent → Text → Pending
unfolding parse_timeout
new_pending default_ms id slug agent capability = record {
  id = id;
  slug = slug;
  agent = agent;
  capability = capability;
  on_timeout = elim agent.on_timeout [ some policy ↦ policy | none ↦ deny ];
  timeout_ms = elim (parse_timeout agent.timeout) [ some n ↦ n | none ↦ default_ms ];
}

-- `requestApproval` up to the promise that it returns; a `set` on the map replaces an entry with the
-- same id.
unfoldable pub request_approval :
    ℕ → ℕ → ℕ → Text → Option Agent → Text → Service → Result Error Service
unfolding new_pending
request_approval default_ms now id slug none capability s = throw agent_is_required
request_approval default_ms now id slug (some agent) [] s = throw capability_is_required
request_approval default_ms now id slug (some agent) (c ∷ cap) s =
    let entry = new_pending default_ms id slug agent (c ∷ cap) in
    ok (record s {
      pending = delete (is_pending id) s.pending ++ entry ∷ [];
      log =
          s.log
          ++ approval_requested id slug agent.role (c ∷ cap) now entry.timeout_ms entry.on_timeout
              agent.notify_via
            ∷ [];
    })

-- What the timer of a request answers.
unfoldable pub timeout_answer : ℕ → ℕ → Pending → Answer
unfolding decision_for_timeout resolve_escalation_target
timeout_answer now id p = record {
  id = id;
  decision = decision_for_timeout p.on_timeout;
  escalate_to = elim (decision_for_timeout p.on_timeout) [
    | escalated ↦ some (resolve_escalation_target p.agent)
    | _ ↦ none
  ];
  by = codes "timeout";
  at = now;
}

-- The timer of a request.
unfoldable pub time_out : ℕ → ℕ → Service → Service
unfolding timeout_answer
time_out now id s = elim (select_one (is_pending id) s.pending) [
  | none ↦ s
  | some p ↦
      let answer = timeout_answer now id p in
      record {
        pending = delete (is_pending id) s.pending;
        answers = s.answers ++ answer ∷ [];
        log =
            s.log
            ++ approval_timeout id p.slug p.agent.role p.capability answer.decision
                answer.escalate_to now
              ∷ [];
      }
]

-- `resolve`, with what it returns.
unfoldable pub resolve : ℕ → ℕ → Decision → Text → Service → Bool × Service
resolve now id decision by s = elim (select_one (is_pending id) s.pending) [
  | none ↦ (false, s)
  | some p ↦ (
    true,
    record {
      pending = delete (is_pending id) s.pending;
      answers =
          s.answers
          ++ record { id = id; decision = decision; escalate_to = none; by = by; at = now } ∷ [];
      log = s.log ++ approval_decided id p.slug p.agent.role p.capability decision by now ∷ [];
    },
  )
]

-- `listPending`
pub list_pending : Service → List (ℕ × Text × Text × Text)
list_pending s = map (λ p. (p.id, p.slug, p.agent.role, p.capability)) s.pending
