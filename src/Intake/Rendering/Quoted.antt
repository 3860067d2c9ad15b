-- ===== src/Intake/Rendering/Quoted.antt =====
-- The documents that quote a learner, from the template pack of the repository.
use growtrics_challenge.Common.{List, [], ◌∷◌, ◌++◌, map}
use growtrics_challenge.Common.Text.{Str, codes}
use growtrics_challenge.Domain.Briefs.{SanitisedContextItem, LessonBrief, BriefBundle}
use growtrics_challenge.Domain.Contracts.{OutputContract}
use growtrics_challenge.Domain.Enums.{kind_value}
use growtrics_challenge.Intake.Fences.{fence_for}
use growtrics_challenge.Intake.Rendering.{
  Renderer, brief_file, context_file, constraints_file, output_contract_file, items_or_none,
  user_texts, contract_json,
}
use growtrics_challenge.Intake.Rendering.PackFiles.{brief_head, brief_tail, context_head}
use growtrics_challenge.Intake.Sealer.{template_version}

-- A text between two fences, and what comes after it.
abbrev pub fenced : Str → Str → Str → Str
fenced fence text after = fence ++ (codes "text\n" ++ (text ++ (codes "\n" ++ (fence ++ after))))

abbrev pub quoted_item : Str → SanitisedContextItem → Str
quoted_item fence item =
    codes "## "
    ++ (kind_value item.kind ++ (codes "\n\n" ++ fenced fence item.text.text (codes "\n")))

abbrev pub quoting_bundle : Renderer → LessonBrief → OutputContract → Str → BriefBundle
quoting_bundle r brief contract constraints_text = record {
  brief_id = brief.brief_id;
  template_version = brief.template_version;
  brief_hash = brief.brief_hash;
  files =
      (record {
        path = brief_file;
        text =
            brief_head ++ fenced (fence_for (user_texts brief)) brief.instruction.text brief_tail;
      })
      ∷ (record {
        path = context_file;
        text =
            context_head
            ++ (items_or_none brief.context
                  (map (quoted_item (fence_for (user_texts brief))) brief.context)
                ++ codes "\n");
      })
      ∷ (record { path = constraints_file; text = constraints_text })
      ∷ (record { path = output_contract_file; text = contract_json r contract })
      ∷ [];
}
