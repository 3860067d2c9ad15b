-- ===== src/Intake/Sanitiser.antt =====
-- src/app/intake/sanitiser.py: normalise, strip, collapse, cap.
pub mod Cleaned
use growtrics_challenge.Common.{
  ℕ, ◌≡◌, Bool, true, false, ◌||◌, not, Option, none, some, List, [], ◌∷◌, ◌++◌, length, take, suc,
  if◌then◌else◌, ltb, ◌==◌,
}
use growtrics_challenge.Common.Text.{Str, codes, str_eq, decimal}
use growtrics_challenge.Domain.Briefs.{SanitisedText, SanitisedContextItem}
use growtrics_challenge.Domain.Errors.{Error, ErrorCode}
use growtrics_challenge.Domain.Records.{ContextItem}
use growtrics_challenge.Effects.{Result, ok, err}
use growtrics_challenge.Effects.Pure.{◌>>=◌}

-- What the program asks of the database of characters: `unicodedata.normalize("NFKC", s)`, the
-- category of a character, and whether `str.split()` separates at it.
pub record Unicode : Type 0 where
  pub nfkc : Str → Str
  pub category : ℕ → Str
  pub is_space : ℕ → Bool
  pub space_is_space : is_space 32 ≡ true

abbrev pub instruction_max_chars : ℕ
instruction_max_chars = 500

abbrev pub context_item_max_chars : ℕ
context_item_max_chars = 500

abbrev pub in_set : {A : Type 0} → (A → A → Bool) → A → List A → Bool
in_set eq a [] = false
in_set eq a (b ∷ bs) = eq a b || in_set eq a bs

abbrev pub ascii_whitespace : List ℕ
ascii_whitespace = 9 ∷ 10 ∷ 13 ∷ 11 ∷ 12 ∷ 28 ∷ 29 ∷ 30 ∷ 31 ∷ []

abbrev pub space_categories : List Str
space_categories = codes "Zs" ∷ codes "Zl" ∷ codes "Zp" ∷ []

abbrev pub dropped_categories : List Str
dropped_categories = codes "Cc" ∷ codes "Cf" ∷ codes "Co" ∷ codes "Cs" ∷ codes "Cn" ∷ []

abbrev pub invalid_text : Str → Str → Error
invalid_text name reason =
    Error.domain ErrorCode.invalid_request ((codes "field", name) ∷ (codes "reason", reason) ∷ [])

-- `" ".join(words)`
abbrev pub join_words : List Str → Str
join_words [] = []
join_words (w ∷ []) = w
join_words (w ∷ v ∷ ws) = w ++ (32 ∷ join_words (v ∷ ws))

abbrev pub add_word : Str → List Str → List Str
add_word [] ws = ws
add_word (c ∷ cs) ws = (c ∷ cs) ∷ ws

abbrev pub is_blank_text : Str → Bool
is_blank_text [] = true
is_blank_text (c ∷ cs) = false

module _ (u : Unicode) where
  -- What the loop appends for one character.
  unfoldable pub kept_of : ℕ → Str
  kept_of c =
      if in_set ◌==◌ c ascii_whitespace
      then 32 ∷ []
      else if in_set str_eq (u.category c) space_categories
      then 32 ∷ []
      else if not (in_set str_eq (u.category c) dropped_categories)
      then c ∷ []
      else []

  unfoldable pub kept : Str → Str
  unfolding kept_of
  kept [] = []
  kept (c ∷ cs) = kept_of c ++ kept cs

  -- `str.split()`, with the word that is being read.
  unfoldable pub words_from : Str → Str → List Str
  words_from word [] = add_word word []
  words_from word (c ∷ cs) =
      let ended = words_from [] cs in
      let longer = words_from (word ++ (c ∷ [])) cs in
      if u.is_space c then add_word word ended else longer

  unfoldable pub collapse : Str → Str
  unfolding words_from
  collapse s = join_words (words_from [] s)

  capped : Str → ℕ → ℕ → Str → Result SanitisedText
  capped name max_chars original_length collapsed =
      if is_blank_text collapsed
      then err (invalid_text name (codes "empty_after_sanitisation"))
      else ok (record {
        text = take max_chars collapsed;
        original_length = original_length;
        truncated = ltb max_chars (length collapsed);
      })

  unfoldable pub sanitise : Str → Str → ℕ → Result SanitisedText
  unfolding kept collapse capped
  sanitise raw name max_chars =
      if ltb max_chars 1
      then err (invalid_text name (codes "max_chars"))
      else capped name max_chars (length raw) (collapse (kept (u.nfkc raw)))

  unfoldable pub sanitise_instruction : Str → Result SanitisedText
  unfolding sanitise
  sanitise_instruction raw = sanitise raw (codes "instruction") instruction_max_chars

  -- `f"context[{index}].text"`
  abbrev pub context_name : ℕ → Str
  context_name index = codes "context[" ++ (decimal index ++ codes "].text")

  unfoldable pub sanitise_from : ℕ → List ContextItem → Result (List SanitisedContextItem)
  unfolding sanitise
  sanitise_from index [] = ok []
  sanitise_from index (item ∷ items) = do
    text ← sanitise item.text (context_name index) context_item_max_chars
    rest ← sanitise_from (suc index) items
    ok (record { kind = item.kind; text = text } ∷ rest)

  unfoldable pub sanitise_context : List ContextItem → Result (List SanitisedContextItem)
  unfolding sanitise_from
  sanitise_context items = sanitise_from 0 items
