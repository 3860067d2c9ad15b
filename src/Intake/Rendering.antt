-- ===== src/Intake/Rendering.antt =====
-- `render_bundle` and `bundle_for_record` of src/app/intake/rendering.py: the four files that a worker
-- is handed.
pub mod PackFiles
pub mod Quoted
use growtrics_challenge.Common.{ℕ, ◌+◌, ◌/◌, ◌%◌, Option, none, some, List, [], ◌∷◌, ◌++◌, map}
use growtrics_challenge.Common.Dict.{Dict}
use growtrics_challenge.Common.Text.{Str, codes, decimal}
use growtrics_challenge.Domain.Briefs.{SanitisedContextItem, LessonBrief, BundleFile, BriefBundle}
use growtrics_challenge.Domain.Contracts.{
  OutputContract, harvest_root, duration_bounds_s, contract_document,
}
use growtrics_challenge.Domain.Enums.{
  ProfileId, ReadingLevel, profile_value, kind_value, level_value,
}
use growtrics_challenge.Domain.Json.{Json}
use growtrics_challenge.Domain.Records.{BriefRecord}
use growtrics_challenge.Effects.{Result, ok, err}
use growtrics_challenge.Effects.Pure.{◌>>=◌}
use growtrics_challenge.Intake.Fences.{fence_for}
use growtrics_challenge.Intake.Sanitiser.{Unicode}
use growtrics_challenge.Intake.Stored.{Conversions, brief_from_record}
use growtrics_challenge.Intake.Templates.{Pack, render_template}

abbrev pub brief_file : Str
brief_file = codes "BRIEF.md"

abbrev pub context_file : Str
context_file = codes "CONTEXT.md"

abbrev pub constraints_file : Str
constraints_file = codes "CONSTRAINTS.md"

abbrev pub output_contract_file : Str
output_contract_file = codes "OUTPUT_CONTRACT.json"

abbrev pub no_context : Str
no_context = codes "_No learner context: none supplied with this request._"

-- What rendering calls outside the repository: the files of the pack, `json.dumps(..., indent=2,
-- sort_keys=True)`, Python's conversions, and the text of a tolerance in percent as a float.
pub record Renderer : Type 0 where
  pub pack : Pack
  pub pretty : Json → Str
  pub conversions : Conversions
  pub fraction : ℕ → Str

-- `f"{x:.1f}"` for hundredths that are tenths, as those of the contract's tolerance are.
abbrev pub one_decimal : ℕ → Str
one_decimal hundredths = decimal (hundredths / 100) ++ (b'.' ∷ decimal (hundredths / 10 % 10))

-- `"\n".join(texts)`
abbrev pub join_lines : List Str → Str
join_lines [] = []
join_lines (text ∷ []) = text
join_lines (text ∷ next ∷ texts) = text ++ (10 ∷ join_lines (next ∷ texts))

abbrev pub level_text : Option ReadingLevel → Str
level_text none = codes "unspecified"
level_text (some level) = level_value level

abbrev pub user_texts : LessonBrief → List Str
user_texts brief = brief.instruction.text ∷ map (λ item. item.text.text) brief.context

abbrev pub brief_values : LessonBrief → Str → Dict Str
brief_values brief fence =
    (codes "fence", fence)
    ∷ (codes "instruction", brief.instruction.text)
    ∷ (codes "harvest_root", harvest_root)
    ∷ (codes "contract_file", output_contract_file)
    ∷ (codes "context_file", context_file)
    ∷ (codes "constraints_file", constraints_file)
    ∷ []

abbrev pub item_values : SanitisedContextItem → Str → Dict Str
item_values item fence =
    (codes "kind", kind_value item.kind)
    ∷ (codes "text", item.text.text)
    ∷ (codes "fence", fence)
    ∷ []

-- `items if brief.context else _NO_CONTEXT`
abbrev pub items_or_none : List SanitisedContextItem → List Str → Str
items_or_none [] items = no_context
items_or_none (item ∷ rest) items = join_lines items

abbrev pub constraints_values : LessonBrief → OutputContract → ℕ × ℕ → Dict Str
constraints_values brief contract (lower, upper) =
    (codes "profile", profile_value brief.profile)
    ∷ (codes "contract_version", contract.contract_version)
    ∷ (codes "max_duration_s", decimal brief.constraints.max_duration_s)
    ∷ (codes "duration_cap_s", decimal contract.max_duration_cap_s)
    ∷ (codes "duration_lower_s", one_decimal lower)
    ∷ (codes "duration_upper_s", one_decimal upper)
    ∷ (codes "language", brief.constraints.language)
    ∷ (codes "reading_level", level_text brief.constraints.reading_level)
    ∷ (codes "brief_file", brief_file)
    ∷ (codes "context_file", context_file)
    ∷ []

module _ (r : Renderer) where
  unfoldable pub render_items : Str → Str → List SanitisedContextItem → Result (List Str)
  render_items version fence [] = ok []
  render_items version fence (item ∷ items) = do
    first ← render_template r.pack version (codes "CONTEXT_ITEM.md.tmpl") (item_values item fence)
    rest ← render_items version fence items
    ok (first ∷ rest)

  abbrev pub contract_json : OutputContract → Str
  contract_json contract =
      r.pretty (contract_document (r.fraction contract.duration_tolerance_percent) contract)
      ++ (10 ∷ [])

  unfoldable pub render_bundle : LessonBrief → OutputContract → Result BriefBundle
  unfolding render_items
  render_bundle brief contract = do
    brief_text ←
        render_template r.pack brief.template_version (codes "BRIEF.md.tmpl")
          (brief_values brief (fence_for (user_texts brief)))
    items ← render_items brief.template_version (fence_for (user_texts brief)) brief.context
    context_text ←
        render_template r.pack brief.template_version (codes "CONTEXT.md.tmpl")
          ((codes "items", items_or_none brief.context items) ∷ [])
    constraints_text ← render_template r.pack brief.template_version (codes "CONSTRAINTS.md.tmpl") (
        constraints_values brief contract
          (duration_bounds_s contract brief.constraints.max_duration_s))
    ok (record {
      brief_id = brief.brief_id;
      template_version = brief.template_version;
      brief_hash = brief.brief_hash;
      files =
          (record { path = brief_file; text = brief_text })
          ∷ (record { path = context_file; text = context_text })
          ∷ (record { path = constraints_file; text = constraints_text })
          ∷ (record { path = output_contract_file; text = contract_json contract })
          ∷ [];
    })

  unfoldable pub bundle_for_record :
      Unicode → BriefRecord → OutputContract → ProfileId → Result BriefBundle
  bundle_for_record unicode row contract profile = do
    brief ← brief_from_record r.conversions unicode row profile
    render_bundle brief contract
