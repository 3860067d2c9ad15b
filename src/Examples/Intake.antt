-- ===== src/Examples/Intake.antt =====
-- A question with a stray newline, and a fence around backticks.
use growtrics_challenge.Common.{ℕ, ◌<◌, ◌≤◌, ◌≡◌, refl, true, some, List, [], ◌∷◌, ◌++◌, In, ◌==◌}
use growtrics_challenge.Common.Text.{Str, codes, str_eq}
use growtrics_challenge.Domain.Briefs.{SanitisedText}
use growtrics_challenge.Domain.Enums.{ProfileId}
use growtrics_challenge.Effects.{ok}
use growtrics_challenge.Effects.Triples.{Ends}
use growtrics_challenge.Intake.Sanitiser.{Unicode, sanitise, kept, kept_of, collapse, words_from}
use growtrics_challenge.Intake.Sanitiser.Cleaned.{IsCleaned, sanitise-IsCleaned}
use growtrics_challenge.Intake.Fences.{replicate, fence_char, fence_for}
use growtrics_challenge.Intake.Fences.Unclosed.{fence_for_unclosed}
use growtrics_challenge.Intake.Sealer.{
  RawLessonRequest, Hashing, permissive_guard, template_version,
}
use growtrics_challenge.Intake.Service.{Validation, seal}
use growtrics_challenge.Intake.Service.Sealing.{IsSealedRow, Unwritten, seal-IsSealedRow}
use growtrics_challenge.Examples.Custody.{zeros, long_job_id}
use growtrics_challenge.Examples.Data.{empty, fixed_uuid, request, constraints}

-- A database of characters in which every character is a letter but the space.
abbrev pub plain_unicode : Unicode
plain_unicode = record {
  nfkc = λ s. s;
  category = λ c. codes "Ll";
  is_space = λ c. c == 32;
  space_is_space = refl;
}

abbrev raw : Str
raw = codes " why is" ++ (10 ∷ codes " the sky blue")

abbrev cleaned : SanitisedText
cleaned = record { text = codes "why is the"; original_length = 21; truncated = true }

sanitised : sanitise plain_unicode raw (codes "instruction") 10 ≡ ok cleaned
unfolding sanitise kept kept_of collapse words_from str_eq
sanitised = refl

sanitise-IsCleaned_example : IsCleaned plain_unicode raw 10 cleaned
sanitise-IsCleaned_example =
    sanitise-IsCleaned plain_unicode raw (codes "instruction") 10 cleaned sanitised

ticks : List Str
ticks = codes "a ```` b" ∷ codes "`" ∷ []

five : fence_for ticks ≡ codes "`````"
unfolding fence_for ticks
five = refl

fence_for_unclosed_example :
    (n : ℕ) × (fence_for ticks ≡ replicate n fence_char)
    × (3 ≤ n)
    × ((k : ℕ) (pre post : Str) → In (pre ++ (replicate k fence_char ++ post)) ticks → k < n)
fence_for_unclosed_example = fence_for_unclosed ticks

abbrev pub hashing : Hashing
hashing = record { canonical = λ payload. []; sha256 = λ content. zeros 64 }

abbrev pub lesson_request : RawLessonRequest
lesson_request = record {
  job_id = long_job_id;
  instruction = codes "why is the sky blue";
  context = [];
  constraints = constraints;
  profile = ProfileId.video_short_v1;
}

abbrev pub validation : Validation
validation = record { validate = λ payload. some lesson_request }

seal-IsSealedRow_example :
    Ends
      (IsSealedRow fixed_uuid hashing plain_unicode validation permissive_guard template_version
        long_job_id request constraints ProfileId.video_short_v1 empty)
      (λ _ t. Unwritten empty t)
      (seal fixed_uuid hashing plain_unicode validation permissive_guard template_version
        long_job_id request constraints ProfileId.video_short_v1)
      empty
seal-IsSealedRow_example =
    seal-IsSealedRow fixed_uuid hashing plain_unicode validation permissive_guard template_version
      long_job_id request constraints ProfileId.video_short_v1 empty
