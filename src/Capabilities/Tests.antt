-- ===== src/Capabilities/Tests.antt =====
-- Capabilities and approvals of one agent: tests, and the theorems applied.
use specifyr.Prelude.{◌+◌, ◌≤◌, ◌≡◌, refl, true, ◌&&◌, none, some, List, [], ◌∷◌, Text, codes, any}
use specifyr.Database.{count}
use specifyr.Orgs.Slug.{to_lower_case, trim}
use specifyr.Capabilities.Gate.{is_sensitive, check_capability}
use specifyr.Capabilities.Grants.{check_capability_approval}
use specifyr.Capabilities.Approvals.{
  Agent, written, approved, escalate_to_ceo, is_pending, parse_timeout, default_timeout_ms,
}
use specifyr.Capabilities.Answers.{
  Op, ask, expire, decide, apply_all, empty, is_answer, asks, approves, answered_at_most,
  approved_by_resolve,
}

abbrev granted : List Text
granted = codes "filesystem:read" ∷ codes "payment:any" ∷ []

abbrev pay : Text
pay = codes "payment:execute_unrestricted"

five_minutes : parse_timeout (written (codes " 5 M")) ≡ some 300000
unfolding parse_timeout to_lower_case trim
five_minutes = refl

check_capability_approval_example :
    (check_capability granted pay).requires_approval
    ≡ ((check_capability granted pay).allowed && is_sensitive pay)
check_capability_approval_example = check_capability_approval granted pay

abbrev worker : Agent
worker = record {
  role = codes "worker";
  timeout = written (codes "5m");
  on_timeout = some escalate_to_ceo;
  escalate_to = none;
  reports_to = some (codes "lead");
  notify_via = [];
}

-- Approved before the time is up; the timer and a second decision come too late.
abbrev history : List Op
history =
    ask default_timeout_ms 0 1 (codes "shop") (some worker) pay
    ∷ decide 10 1 approved (codes "user")
    ∷ expire 300000 1
    ∷ decide 300001 1 approved (codes "user")
    ∷ []

answered_at_most_example :
    count (is_answer 1) (apply_all history empty).answers
      + count (is_pending 1) (apply_all history empty).pending
    ≤ count (asks 1) history
answered_at_most_example = answered_at_most history 1

approved_by_resolve_example : any (approves 1) history ≡ true
unfolding apply_all
approved_by_resolve_example = approved_by_resolve history 1 refl
