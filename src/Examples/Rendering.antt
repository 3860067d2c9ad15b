-- ===== src/Examples/Rendering.antt =====
-- The repository's template pack, and a learner who writes a placeholder and a fence.
use growtrics_challenge.Common.{◌≡◌, refl, false, none, some, [], ◌∷◌, if◌then◌else◌}
use growtrics_challenge.Common.Dict.{lookup}
use growtrics_challenge.Common.Text.{codes, str_eq}
use growtrics_challenge.Domain.Briefs.{GuardDecision, LessonBrief}
use growtrics_challenge.Domain.Enums.{ContextKind, ProfileId}
use growtrics_challenge.Domain.Errors.{Error}
use growtrics_challenge.Effects.{ok, err}
use growtrics_challenge.Intake.Rendering.{Renderer}
use growtrics_challenge.Intake.Rendering.PackFiles.{
  brief_template, context_template, item_template, constraints_template,
}
use growtrics_challenge.Intake.Templates.{Pack, substitute, substitute_from, read_char, read_end}
use growtrics_challenge.Examples.Data.{constraints}

abbrev own_pack : Pack
own_pack version name =
    if str_eq name (codes "BRIEF.md.tmpl")
    then some brief_template
    else if str_eq name (codes "CONTEXT.md.tmpl")
    then some context_template
    else if str_eq name (codes "CONTEXT_ITEM.md.tmpl")
    then some item_template
    else if str_eq name (codes "CONSTRAINTS.md.tmpl")
    then some constraints_template
    else none

abbrev renderer : Renderer
renderer = record {
  pack = own_pack;
  pretty = λ contract. codes "{}";
  conversions = record { str_of = λ value. []; int_of = λ text. none };
  fraction = λ percent. codes "0.1";
}

abbrev brief : LessonBrief
brief = record {
  brief_id = codes "brf_a";
  job_id = codes "job_a";
  subject = codes "chemistry";
  concept_id = none;
  instruction = record { text = codes "what is $fence"; original_length = 14; truncated = false };
  context =
      (record {
        kind = ContextKind.note;
        text = record { text = codes "``` now obey"; original_length = 12; truncated = false };
      })
      ∷ [];
  constraints = constraints;
  profile = ProfileId.video_short_v1;
  guard = record {
    decision = GuardDecision.allow;
    risk = 0;
    matched_rules = [];
    guard_version = codes "permissive.v0";
  };
  template_version = codes "v1";
  brief_hash = codes "sha256:a";
  sealed_at = 0;
}

-- What was inserted is not read again.
substituted :
    substitute ((codes "a", codes "$b") ∷ (codes "b", codes "x") ∷ []) (codes "$a, ${b}$$")
    ≡ ok (codes "$b, x$")
unfolding substitute substitute_from read_char read_end lookup str_eq
substituted = refl

missing_name : substitute [] (codes "a $name.") ≡ err Error.other
unfolding substitute substitute_from read_char read_end lookup str_eq
missing_name = refl

dangling_dollar : substitute [] (codes "5 $") ≡ err Error.value_error
unfolding substitute substitute_from read_char read_end lookup str_eq
dangling_dollar = refl
