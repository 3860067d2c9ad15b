-- ===== src/Domain/Ids/Joined.antt =====
-- `join_id_parts` and `str(attempt)`, read back.
use growtrics_challenge.Common.{
  ℕ, zero, suc, ◌+◌, ◌-◌, ◌*◌, ◌/◌, ◌%◌, ◌<◌, ◌≡◌, refl, sym, ap, ◌∙◌, Bool, true, false, List, [],
  ◌∷◌, ◌++◌, arith, ltb, ◌==◌, if◌then◌else◌, Bool-cases, inl, inr,
}
use mathlib.Core.List.{append_assoc, append-nil}
use growtrics_challenge.Common.Text.{Str, decimal, digits_of}
use growtrics_challenge.Domain.Ids.{escape_part, join_id_parts}

-- A reader of joined parts: the character after `\` is taken as it is, and a bare `|` ends a part.
push : ℕ → List Str → List Str
push c [] = (c ∷ []) ∷ []
push c (p ∷ ps) = (c ∷ p) ∷ ps

prepend : Str → List Str → List Str
prepend [] l = l
prepend (c ∷ p) l = push c (prepend p l)

unjoin : Bool → Str → List Str
unjoin escaped [] = [] ∷ []
unjoin true (c ∷ cs) = push c (unjoin false cs)
unjoin false (c ∷ cs) =
    let after = unjoin true cs in
    let rest = unjoin false cs in
    if c == 92 then after else if c == b'|' then [] ∷ rest else push c rest

escape_char : ℕ → Str
escape_char c = if c == 92 then 92 ∷ 92 ∷ [] else if c == b'|' then 92 ∷ b'|' ∷ [] else c ∷ []

-- The two replacements act on one character at a time.
escape_part-cons : (c : ℕ) (p : Str) → escape_part (c ∷ p) ≡ escape_char c ++ escape_part p
unfolding escape_part escape_char
escape_part-cons c p = elim (Bool-cases (c == 92)) [ inl e ↦ rw e refl | inr e ↦ rw e refl ]

unjoin-escape_char :
    (c : ℕ) (rest : Str) → unjoin false (escape_char c ++ rest) ≡ push c (unjoin false rest)
unfolding unjoin escape_char
unjoin-escape_char c rest = elim (Bool-cases (c == 92)) [
  | inl e ↦ let q : c ≡ 92 = ground arith in rw q refl
  | inr e ↦ elim (Bool-cases (c == b'|')) [
    | inl f ↦ let q : c ≡ b'|' = ground arith in rw q refl
    | inr f ↦ rw (e, f) (rw (e, f) refl)
  ]
]

unjoin-escape_part :
    (p rest : Str) → unjoin false (escape_part p ++ rest) ≡ prepend p (unjoin false rest)
unfolding prepend
unjoin-escape_part [] rest = unfold escape_part in refl
unjoin-escape_part (c ∷ p) rest =
    rw (escape_part-cons c p, append_assoc (escape_char c) (escape_part p) rest)
      (unjoin-escape_char c (escape_part p ++ rest) ∙ ap (push c) (unjoin-escape_part p rest))

prepend-append : (p : Str) (l : List Str) → prepend p ([] ∷ l) ≡ p ∷ l
unfolding prepend push
prepend-append [] l = refl
prepend-append (c ∷ p) l = rw (prepend-append p l) refl

-- The reader takes a joined name apart into the parts that it was made of.
unjoin-join_id_parts : (p : Str) (ps : List Str) → unjoin false (join_id_parts (p ∷ ps)) ≡ p ∷ ps
unfolding join_id_parts unjoin
unjoin-join_id_parts p [] =
    ap (unjoin false) (sym (append-nil (escape_part p)))
    ∙ unjoin-escape_part p []
    ∙ prepend-append p []
unjoin-join_id_parts p (q ∷ ps) =
    unjoin-escape_part p (b'|' ∷ join_id_parts (q ∷ ps))
    ∙ ap (λ l. prepend p ([] ∷ l)) (unjoin-join_id_parts q ps)
    ∙ prepend-append p (q ∷ ps)

-- Two lists of parts, neither of them empty, that join to the same name are the same list.
pub join_id_parts_injective :
    (p q : Str) (ps qs : List Str)
    → join_id_parts (p ∷ ps) ≡ join_id_parts (q ∷ qs)
    → ◌≡◌ {A = List Str} (p ∷ ps) (q ∷ qs)
join_id_parts_injective p q ps qs e =
    sym (unjoin-join_id_parts p ps) ∙ ap (unjoin false) e ∙ unjoin-join_id_parts q qs

-- The value that decimal digits spell, after a value read so far.
read_decimal : ℕ → Str → ℕ
read_decimal n [] = n
read_decimal n (c ∷ cs) = read_decimal (n * 10 + (c - 48)) cs

read-digits_of :
    (fuel n : ℕ) (acc : Str) → n < fuel → read_decimal 0 (digits_of fuel n acc) ≡ read_decimal n acc
unfolding read_decimal digits_of
read-digits_of zero n acc h = absurd (omega arith)
read-digits_of (suc f) n acc h = elim (Bool-cases (ltb n 10)) [
  | inl e ↦
      rw e (let q : 0 * 10 + (48 + n - 48) ≡ n = omega arith in ap (λ k. read_decimal k acc) q)
  | inr e ↦ rw e (
      read-digits_of f (n / 10) ((48 + n % 10) ∷ acc) (ground arith)
      ∙ (let q : n / 10 * 10 + (48 + n % 10 - 48) ≡ n = omega arith in
          ap (λ k. read_decimal k acc) q))
]

-- `str(n)` determines `n`.
pub decimal_injective : (m n : ℕ) → decimal m ≡ decimal n → m ≡ n
unfolding decimal read_decimal
decimal_injective m n e =
    sym (read-digits_of (suc m) m [] (omega arith))
    ∙ ap (read_decimal 0) e
    ∙ read-digits_of (suc n) n [] (omega arith)

-- The name that a trace id or a session id is derived from determines the job id and the attempt.
pub attempt_name_injective :
    (job job' : Str) (attempt attempt' : ℕ)
    → join_id_parts (job ∷ decimal attempt ∷ []) ≡ join_id_parts (job' ∷ decimal attempt' ∷ [])
    → (job ≡ job') × (attempt ≡ attempt')
attempt_name_injective job job' attempt attempt' e =
    let parts : ◌≡◌ {A = List Str} (job ∷ decimal attempt ∷ []) (job' ∷ decimal attempt' ∷ []) =
      join_id_parts_injective job job' (decimal attempt ∷ []) (decimal attempt' ∷ []) e in
    let digits : decimal attempt ≡ decimal attempt' = cc parts in
    (cc parts, decimal_injective attempt attempt' digits)
