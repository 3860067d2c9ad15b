-- ===== src/Domain/Cursors.antt =====
-- `Cursor.encode` and `Cursor.decode` of src/app/domain/records.py. Base64 and the ISO form of an
-- instant are Python's, and parameters. An instant of the model has a time zone.
use growtrics_challenge.Common.{
  ℕ, zero, suc, ◌+◌, ◌-◌, ◌%◌, ◌≤◌, ◌≡◌, ◌≢◌, refl, sym, ap, ◌∙◌, Bool, true, false, ◌&&◌, ◌||◌,
  Option, none, some, [], ◌∷◌, ◌++◌, All, length, if◌then◌else◌, ltb, ◌==◌, arith,
}
use growtrics_challenge.Common.Text.{Str, codes}
use growtrics_challenge.Domain.Errors.{Error, ErrorCode}
use growtrics_challenge.Domain.Records.{Cursor}
use growtrics_challenge.Effects.{Result, ok, err}

abbrev pub repeat : ℕ → ℕ → Str
repeat zero c = []
repeat (suc n) c = c ∷ repeat n c

-- `datetime.isoformat` and `fromisoformat`, and `urlsafe_b64encode` and `urlsafe_b64decode` around
-- UTF-8. Base64 writes groups of four characters, the last one filled up with at most two `=`.
pub record Codec : Type 0 where
  pub isoformat : ℕ → Str
  pub fromisoformat : Str → Option ℕ
  pub b64encode : Str → Str
  pub b64decode : Str → Option Str
  pub fromisoformat-isoformat : (t : ℕ) → fromisoformat (isoformat t) ≡ some t
  pub isoformat_chars : (t : ℕ) → All (λ c. c ≢ 31) (isoformat t)
  pub b64decode-b64encode : (s : Str) → b64decode (b64encode s) ≡ some s
  pub b64encode_groups :
      (s : Str)
      → (body : Str) × (n : ℕ) × (b64encode s ≡ body ++ repeat n b'=')
        × All (λ c. c ≢ b'=') body
        × (n ≤ 2)
        × ((length body + n) % 4 ≡ 0)

abbrev pub cursor_separator : ℕ
cursor_separator = 31

abbrev pub cursor_max_chars : ℕ
cursor_max_chars = 512

abbrev pub invalid_cursor : Error
invalid_cursor = Error.domain ErrorCode.invalid_request ((codes "field", codes "cursor") ∷ [])

abbrev pub is_blank : Str → Bool
is_blank [] = true
is_blank (c ∷ cs) = false

-- `s.rstrip(c)` for one character.
unfoldable pub strip_right : ℕ → Str → Str
strip_right c [] = []
strip_right c (x ∷ xs) =
    let rest = strip_right c xs in if (x == c) && is_blank rest then [] else x ∷ rest

abbrev pub before : ℕ → Option (Str × Str) → Option (Str × Str)
before c none = none
before c (some (s, t)) = some (c ∷ s, t)

-- `s.partition(sep)`, or nothing when the separator is not there.
unfoldable pub partition : ℕ → Str → Option (Str × Str)
partition sep [] = none
partition sep (c ∷ cs) =
    let rest = partition sep cs in if c == sep then some ([], cs) else before c rest

module _ (k : Codec) where
  abbrev pub payload_of : Cursor → Str
  payload_of c = k.isoformat c.created_at ++ (cursor_separator ∷ c.id)

  unfoldable pub encode_cursor : Cursor → Str
  unfolding strip_right
  encode_cursor c = strip_right b'=' (k.b64encode (payload_of c))

  cursor_at_time : Option ℕ → Str → Result Cursor
  cursor_at_time none id = err invalid_cursor
  cursor_at_time (some t) id = ok (record { created_at = t; id = id })

  cursor_of_parts : Option (Str × Str) → Result Cursor
  cursor_of_parts none = err invalid_cursor
  cursor_of_parts (some (timestamp, id)) =
      let read = cursor_at_time (k.fromisoformat timestamp) id in
      if is_blank id then err invalid_cursor else read

  cursor_of_payload : Option Str → Result Cursor
  cursor_of_payload none = err invalid_cursor
  cursor_of_payload (some payload) = cursor_of_parts (partition cursor_separator payload)

  -- `token + "=" * (-len(token) % 4)`
  abbrev pub padded : Str → Str
  padded token = token ++ repeat ((4 - length token % 4) % 4) b'='

  unfoldable pub decode_cursor : Str → Result Cursor
  unfolding cursor_of_payload cursor_of_parts cursor_at_time partition
  decode_cursor token =
      let read = cursor_of_payload (k.b64decode (padded token)) in
      if is_blank token || ltb cursor_max_chars (length token) then err invalid_cursor else read

strip_right-repeat : (c n : ℕ) → strip_right c (repeat n c) ≡ []
unfolding strip_right
strip_right-repeat c zero = refl
strip_right-repeat c (suc n) = rw (strip_right-repeat c n) (ground arith)

strip_right-append :
    (c n : ℕ) (body : Str) → All (λ x. x ≢ c) body → strip_right c (body ++ repeat n c) ≡ body
unfolding strip_right
strip_right-append c n [] h = strip_right-repeat c n
strip_right-append c n (x ∷ body) h =
    let other : (x == c) ≡ false = ground (arith, h.0) in
    rw other (ap (λ l. x ∷ l) (strip_right-append c n body h.1))

partition-append :
    (sep : ℕ) (s t : Str) → All (λ c. c ≢ sep) s → partition sep (s ++ (sep ∷ t)) ≡ some (s, t)
unfolding partition
partition-append sep [] t h = let here : (sep == sep) ≡ true = ground arith in rw here refl
partition-append sep (c ∷ s) t h =
    let other : (c == sep) ≡ false = ground (arith, h.0) in
    rw other (ap (before c) (partition-append sep s t h.1))

filled_up : (m n : ℕ) → n ≤ 2 → (m + n) % 4 ≡ 0 → (4 - m % 4) % 4 ≡ n
filled_up m n h e = omega arith

module _ (k : Codec) (c : Cursor) where
  -- A token padded again is what base64 wrote.
  padded-encode_cursor : padded k (encode_cursor k c) ≡ k.b64encode (payload_of k c)
  unfolding encode_cursor
  padded-encode_cursor =
      let (body, n, image, chars, few, groups) = k.b64encode_groups (payload_of k c) in
      let stripped : strip_right b'=' (k.b64encode (payload_of k c)) ≡ body =
        ap (strip_right b'=') image ∙ strip_right-append b'=' n body chars in
      ap (padded k) stripped
      ∙ ap (λ m. body ++ repeat m b'=') (filled_up (length body) n few groups)
      ∙ sym image

  -- A cursor with an id, and a token of it that is not empty and has at most 512 characters:
  -- decoding the token gives the cursor back, for any base64 and ISO form of instants that decode
  -- what they encode.
  pub decode_cursor-encode_cursor :
      is_blank c.id ≡ false
      → is_blank (encode_cursor k c) ≡ false
      → length (encode_cursor k c) ≤ 512
      → decode_cursor k (encode_cursor k c) ≡ ok c
  unfolding decode_cursor cursor_of_payload cursor_of_parts cursor_at_time
  decode_cursor-encode_cursor named some_token short =
      let fits : ltb 512 (length (encode_cursor k c)) ≡ false = ground (arith, short) in
      let read = ap k.b64decode padded-encode_cursor ∙ k.b64decode-b64encode (payload_of k c) in
      let split =
        partition-append 31 (k.isoformat c.created_at) c.id (k.isoformat_chars c.created_at) in
      rw (some_token, fits)
        (ap (cursor_of_payload k) read
          ∙ ap (cursor_of_parts k) split
          ∙ rw (named, k.fromisoformat-isoformat c.created_at) refl)
