-- ===== src/Examples/Ids.antt =====
-- The ids at sixteen bytes.
use growtrics_challenge.Common.{ℕ, ◌≡◌, refl, true, List, [], ◌∷◌, length}
use growtrics_challenge.Common.Text.{Str, codes}
use growtrics_challenge.Domain.Ids.{
  encode_crockford, decode_crockford, all_chars, is_body_char, alphabet_index, decode_loop,
  to_bytes,
}
use growtrics_challenge.Domain.Ids.Crockford.{encode_crockford-body, encode-decode}
use growtrics_challenge.Domain.Ids.Joined.{join_id_parts_injective, attempt_name_injective}
use growtrics_challenge.Effects.{ok}
use growtrics_challenge.Examples.Data.{sixteen_bytes, job_id}

abbrev spelling : Str
spelling = codes "00000000000000000000000007"

abbrev zeros_and_seven : List ℕ
zeros_and_seven = 0 ∷ 0 ∷ 0 ∷ 0 ∷ 0 ∷ 0 ∷ 0 ∷ 0 ∷ 0 ∷ 0 ∷ 0 ∷ 0 ∷ 0 ∷ 0 ∷ 0 ∷ 7 ∷ []

decoded : decode_crockford spelling ≡ ok zeros_and_seven
unfolding decode_crockford decode_loop alphabet_index to_bytes
decoded = refl

encode-decode_example : encode_crockford zeros_and_seven ≡ ok spelling
encode-decode_example = encode-decode spelling zeros_and_seven decoded

encode_crockford-body_example :
    (s : Str) × (encode_crockford sixteen_bytes ≡ ok s)
    × (length s ≡ 26)
    × (all_chars is_body_char s ≡ true)
encode_crockford-body_example = encode_crockford-body sixteen_bytes refl

join_id_parts_injective_example :
    ◌≡◌ {A = List Str} (codes "a|b" ∷ codes "c" ∷ []) (codes "a|b" ∷ codes "c" ∷ [])
join_id_parts_injective_example =
    join_id_parts_injective (codes "a|b") (codes "a|b") (codes "c" ∷ []) (codes "c" ∷ []) refl

attempt_name_injective_example : (job_id ≡ job_id) × ◌≡◌ {A = ℕ} 12 12
attempt_name_injective_example = attempt_name_injective job_id job_id 12 12 refl
