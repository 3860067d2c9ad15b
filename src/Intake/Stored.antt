-- ===== src/Intake/Stored.antt =====
-- The way back of src/app/intake/sealer.py: a stored row into the sealed brief it came from.
use growtrics_challenge.Common.{ℕ, Option, none, some, List, [], ◌∷◌, if◌then◌else◌}
use growtrics_challenge.Common.Text.{Str, codes, str_eq}
use growtrics_challenge.Domain.Briefs.{GuardDecision, GuardVerdict, LessonBrief, decision_value}
use growtrics_challenge.Domain.Enums.{ProfileId}
use growtrics_challenge.Domain.Errors.{Error}
use growtrics_challenge.Domain.Json.{Json, Items}
use growtrics_challenge.Domain.Records.{BriefRecord}
use growtrics_challenge.Effects.{Result, ok, err}
use growtrics_challenge.Effects.Pure.{◌>>=◌}
use growtrics_challenge.Intake.Sanitiser.{Unicode, sanitise_instruction, sanitise_context}
use growtrics_challenge.Intake.Service.{get_of}

-- Python's own conversions: `str(value)` of a value of a document, and `int(text)`, no answer where
-- it raises. The risk of a guard is not negative.
pub record Conversions : Type 0 where
  pub str_of : Json → Str
  pub int_of : Str → Option ℕ

-- `GuardDecision(text)`
abbrev pub decision_of : Str → Result GuardDecision
decision_of text =
    if str_eq text (decision_value GuardDecision.allow)
    then ok GuardDecision.allow
    else if str_eq text (decision_value GuardDecision.review)
    then ok GuardDecision.review
    else if str_eq text (decision_value GuardDecision.deny)
    then ok GuardDecision.deny
    else err Error.value_error

abbrev pub whole : Option ℕ → Result ℕ
whole none = err Error.value_error
whole (some n) = ok n

module _ (conversions : Conversions) where
  abbrev pub rules_of : Items → List Str
  rules_of Items.nil = []
  rules_of (Items.cons rule rules) = conversions.str_of rule ∷ rules_of rules

  abbrev pub matched_rules_of : Json → List Str
  matched_rules_of (Json.array rules) = rules_of rules
  matched_rules_of _ = []

  unfoldable pub guard_verdict_from_document : Json → Result GuardVerdict
  guard_verdict_from_document stored = do
    decision ← decision_of (
        conversions.str_of
          (get_of (codes "decision") (Json.text (decision_value GuardDecision.allow)) stored))
    risk ←
        whole
          (conversions.int_of (conversions.str_of (get_of (codes "risk") (Json.number 0) stored)))
    ok (record {
      decision = decision;
      risk = risk;
      matched_rules = matched_rules_of (get_of (codes "matched_rules") Json.null stored);
      guard_version =
          conversions.str_of (get_of (codes "guard_version") (Json.text (codes "unknown")) stored);
    })

  unfoldable pub brief_from_record : Unicode → BriefRecord → ProfileId → Result LessonBrief
  unfolding guard_verdict_from_document
  brief_from_record unicode row profile = do
    instruction ← sanitise_instruction unicode row.instruction
    context ← sanitise_context unicode row.context_items
    guard ← guard_verdict_from_document row.guard_verdict
    ok (record {
      brief_id = row.brief_id;
      job_id = row.job_id;
      subject = row.subject;
      concept_id = row.concept_id;
      instruction = instruction;
      context = context;
      constraints = row.constraints;
      profile = profile;
      guard = guard;
      template_version = row.template_version;
      brief_hash = row.brief_hash;
      sealed_at = row.sealed_at;
    })
