-- ===== src/Intake/Sanitiser/Cleaned.antt =====
-- What a cleaned text is.
use growtrics_challenge.Common.{
  ℕ, zero, suc, ◌≤◌, ◌<◌, ◌≡◌, ◌≢◌, ◌⊎◌, refl, ap, subst, ◌∙◌, Bool, true, false, not, List, [],
  ◌∷◌, ◌++◌, All, All-append, All-take, length, take, length-take-le, Bool-cases, ltb, ◌==◌, inl,
  inr, arith,
}
use growtrics_challenge.Common.Text.{Str, str_eq}
use growtrics_challenge.Domain.Briefs.{SanitisedText}
use growtrics_challenge.Effects.{Result, ok}
use growtrics_challenge.Intake.Sanitiser.{
  Unicode, in_set, ascii_whitespace, space_categories, dropped_categories, join_words, add_word,
  is_blank_text, kept_of, kept, words_from, collapse, capped, sanitise,
}

-- No two spaces side by side.
abbrev pub Spaced : Str → Type 0
Spaced [] = Unit
Spaced (c ∷ []) = Unit
Spaced (c ∷ d ∷ s) = (¬ ((c ≡ 32) × (d ≡ 32))) × Spaced (d ∷ s)

-- The text begins with a character that is not a space.
abbrev pub Starts : Str → Type 0
Starts [] = ⊥
Starts (c ∷ s) = c ≢ 32

Spaced-cons : (c : ℕ) (s : Str) → c ≢ 32 → Spaced s → Spaced (c ∷ s)
Spaced-cons c [] h k = tt
Spaced-cons c (d ∷ s) h k = ((λ both. h both.0), k)

Spaced-space : (s : Str) → Starts s → Spaced s → Spaced (32 ∷ s)
Spaced-space [] h k = tt
Spaced-space (d ∷ s) h k = ((λ both. h both.1), k)

Spaced-take : (n : ℕ) (s : Str) → Spaced s → Spaced (take n s)
Spaced-take zero s h = tt
Spaced-take (suc n) [] h = tt
Spaced-take (suc n) (c ∷ []) h = one_left n c
  where
    one_left : (n c : ℕ) → Spaced (c ∷ take n [])
    one_left zero c = tt
    one_left (suc n) c = tt
Spaced-take (suc zero) (c ∷ d ∷ s) h = tt
Spaced-take (suc (suc n)) (c ∷ d ∷ s) h = (h.0, Spaced-take (suc n) (d ∷ s) h.1)

Starts-take : (n : ℕ) (s : Str) → Starts s → Starts (take (suc n) s)
Starts-take n [] h = h
Starts-take n (c ∷ s) h = h

module _ (u : Unicode) where
  -- A space, or a character of a category that is kept.
  abbrev pub IsKept : ℕ → Type 0
  IsKept c =
      (c ≡ 32)
      ⊎ ((in_set ◌==◌ c ascii_whitespace ≡ false)
          × (in_set str_eq (u.category c) space_categories ≡ false)
          × (in_set str_eq (u.category c) dropped_categories ≡ false))

  negative : (b : Bool) → not b ≡ true → b ≡ false
  negative b h = ground arith

  kept_of-All : (c : ℕ) → All IsKept (kept_of u c)
  unfolding kept_of
  kept_of-All c = elim (Bool-cases (in_set ◌==◌ c ascii_whitespace)) [
    | inl white ↦ rw white (inl refl, tt)
    | inr other ↦ rw other (elim (Bool-cases (in_set str_eq (u.category c) space_categories)) [
      | inl space ↦ rw space (inl refl, tt)
      | inr not_space ↦
          rw not_space (elim (Bool-cases (not (in_set str_eq (u.category c) dropped_categories))) [
            | inl fine ↦ rw fine (inr (other, not_space, negative _ fine), tt)
            | inr dropped ↦ rw dropped tt
          ])
    ])
  ]

  kept-All : (s : Str) → All IsKept (kept u s)
  unfolding kept
  kept-All [] = tt
  kept-All (c ∷ s) = All-append IsKept (kept_of u c) (kept u s) (kept_of-All c) (kept-All s)

  -- A word: characters that are kept, at least one, and none that separates.
  abbrev InWord : ℕ → Type 0
  InWord c = IsKept c × (c ≢ 32)

  abbrev IsWord : Str → Type 0
  IsWord w = All InWord w × Starts w

  add_word-All :
      (w : Str) (ws : List Str) → All InWord w → All IsWord ws → All IsWord (add_word w ws)
  add_word-All [] ws h k = k
  add_word-All (c ∷ w) ws h k = ((h, h.0.1), k)

  no_space : (c : ℕ) → u.is_space c ≡ false → c ≢ 32
  no_space c h e = let k : u.is_space c ≡ true = ap u.is_space e ∙ u.space_is_space in cc (h, k)

  words_from-All :
      (word s : Str) → All InWord word → All IsKept s → All IsWord (words_from u word s)
  unfolding words_from
  words_from-All word [] h k = add_word-All word [] h tt
  words_from-All word (c ∷ s) h k = elim (Bool-cases (u.is_space c)) [
    | inl space ↦ rw space (add_word-All word (words_from u [] s) h (words_from-All [] s tt k.1))
    | inr letter ↦ rw letter (
        words_from-All (word ++ (c ∷ [])) s
          (All-append InWord word (c ∷ []) h ((k.0, no_space c letter), tt)) k.1)
  ]

  -- What joining words gives.
  abbrev IsLine : Str → Type 0
  IsLine s = All IsKept s × Spaced s

  word_then : (w s : Str) → All InWord w → Starts s → IsLine s → IsLine (w ++ (32 ∷ s))
  word_then [] s h b k = ((inl refl, k.0), Spaced-space s b k.1)
  word_then (c ∷ w) s h b k =
      let rest = word_then w s h.1 b k in
      ((h.0.0, rest.0), Spaced-cons c (w ++ (32 ∷ s)) h.0.1 rest.1)

  word_lem : (w : Str) → All InWord w → IsLine w
  word_lem [] h = (tt, tt)
  word_lem (c ∷ w) h = let rest = word_lem w h.1 in ((h.0.0, rest.0), Spaced-cons c w h.0.1 rest.1)

  Starts-append : (w s : Str) → Starts w → Starts (w ++ s)
  Starts-append [] s h = absurd h
  Starts-append (c ∷ w) s h = h

  join_words-IsLine :
      (w : Str) (ws : List Str)
      → All IsWord (w ∷ ws)
      → IsLine (join_words (w ∷ ws)) × Starts (join_words (w ∷ ws))
  join_words-IsLine w [] h = (word_lem w h.0.0, h.0.1)
  join_words-IsLine w (v ∷ ws) h =
      let (line, start) = join_words-IsLine v ws h.1 in
      (
        word_then w (join_words (v ∷ ws)) h.0.0 start line,
        Starts-append w (32 ∷ join_words (v ∷ ws)) h.0.1,
      )

  collapse_lem :
      (s : Str)
      → All IsKept s
      → is_blank_text (collapse u s) ≡ false
      → IsLine (collapse u s) × Starts (collapse u s)
  unfolding collapse
  collapse_lem s h some_text = by_words (words_from u [] s) (words_from-All [] s tt h) some_text
    where
      by_words :
          (ws : List Str)
          → All IsWord ws
          → is_blank_text (join_words ws) ≡ false
          → IsLine (join_words ws) × Starts (join_words ws)
      by_words [] h e = absurd (cc e)
      by_words (w ∷ ws) h e = join_words-IsLine w ws h

  -- A cleaned text against the raw one.
  pub record IsCleaned (raw : Str) (max_chars : ℕ) (t : SanitisedText) : Type 0 where
    pub some_text : 0 < length t.text
    pub within : length t.text ≤ max_chars
    pub characters : All IsKept t.text
    pub spaced : Spaced t.text
    pub start : Starts t.text
    pub original : t.original_length ≡ length raw
    pub cut : t.truncated ≡ ltb max_chars (length (collapse u (kept u (u.nfkc raw))))

  Starts-length : (s : Str) → Starts s → 0 < length s
  Starts-length [] h = absurd h
  Starts-length (c ∷ s) h = omega arith

  capped-IsCleaned :
      (raw name : Str) (n : ℕ) (t : SanitisedText)
      → capped u name (suc n) (length raw) (collapse u (kept u (u.nfkc raw))) ≡ ok t
      → IsCleaned raw (suc n) t
  unfolding capped
  capped-IsCleaned raw name n t h =
      let line = collapse u (kept u (u.nfkc raw)) in
      elim (Bool-cases (is_blank_text line)) [
        | inl blank ↦ absurd (cc (rw blank at h))
        | inr full ↦
            let (clean, start) = collapse_lem (kept u (u.nfkc raw)) (kept-All (u.nfkc raw)) full in
            let made : SanitisedText = record {
              text = take (suc n) line;
              original_length = length raw;
              truncated = ltb (suc n) (length line);
            } in
            let q : ◌≡◌ {A = Result SanitisedText} (ok made) (ok t) = rw full at h in
            let same : made ≡ t = cc q in
            let begins = Starts-take n line start in
            subst (IsCleaned raw (suc n)) same (record {
              some_text = Starts-length (take (suc n) line) begins;
              within = length-take-le (suc n) line;
              characters = All-take IsKept (suc n) line clean.0;
              spaced = Spaced-take (suc n) line clean.1;
              start = begins;
              original = refl;
              cut = refl;
            })
      ]

  -- A text that is cleaned has at least one character and at most the maximum; each of its
  -- characters is a space, or is no ASCII whitespace and of a category that is neither a space nor
  -- dropped; no two spaces stand side by side, and the first character is no space; its original
  -- length is that of the raw text, and it is marked as truncated exactly when the collapsed text
  -- is longer than the maximum; for any database of characters in which `str.split` separates at a
  -- space.
  pub sanitise-IsCleaned :
      (raw name : Str) (max_chars : ℕ) (t : SanitisedText)
      → sanitise u raw name max_chars ≡ ok t
      → IsCleaned raw max_chars t
  unfolding sanitise
  sanitise-IsCleaned raw name zero t h = absurd (cc h)
  sanitise-IsCleaned raw name (suc n) t h = capped-IsCleaned raw name n t (rw (not_small n) at h)
    where
      not_small : (n : ℕ) → ltb (suc n) 1 ≡ false
      not_small n = ground arith
