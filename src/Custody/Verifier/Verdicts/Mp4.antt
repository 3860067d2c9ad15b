-- ===== src/Custody/Verifier/Verdicts/Mp4.antt =====
-- The verdict on the primary of the video contract, by its bytes.
use growtrics_challenge.Common.{
  ℕ, ◌≤◌, leb→le, ◌≡◌, ◌↔◌, refl, sym, ap, ◌∙◌, Bool, true, false, ◌&&◌, Option, some, List, length,
  take, drop, leb, Bool-cases, inl, inr, arith,
}
use growtrics_challenge.Common.Text.{Str, codes, str_eq, str_eq_iff}
use growtrics_challenge.Common.Dict.{lookup}
use growtrics_challenge.Domain.Contracts.{part_for_role, video_short_v1_contract, primary_part}
use growtrics_challenge.Domain.Enums.{ScanVerdict, ArtifactRole}
use growtrics_challenge.Domain.Errors.{Error}
use growtrics_challenge.Effects.{Result, ok, err}
use growtrics_challenge.Custody.Candidates.{HarvestedFile, VerifiedArtifact, Outside}
use growtrics_challenge.Custody.Verifier.{
  CheckInput, CheckFn, container_is_mp4, deferred, check_table, input_of, verify,
}
use growtrics_challenge.Custody.Verifier.Verdicts.{Fails, NoneFails, verify_lem}

module _ (o : Outside) where
  -- The bytes have the header of an MP4 container.
  abbrev pub HasMp4Header : List ℕ → Type 0
  HasMp4Header content = (12 ≤ length content) × (take 4 (drop 4 content) ≡ codes "ftyp")

  header_lem :
      (content : List ℕ)
      → ((leb 12 (length content) && str_eq (take 4 (drop 4 content)) (codes "ftyp")) ≡ true)
        ↔ HasMp4Header content
  header_lem content = both (leb 12 (length content)) refl
    where
      both :
          (b : Bool)
          → leb 12 (length content) ≡ b
          → ((b && str_eq (take 4 (drop 4 content)) (codes "ftyp")) ≡ true) ↔ HasMp4Header content
      both true e = (
        (λ h. (
          leb→le 12 (length content) e,
          (str_eq_iff (take 4 (drop 4 content)) (codes "ftyp")).0 h,
        )),
        (λ h. (str_eq_iff (take 4 (drop 4 content)) (codes "ftyp")).1 h.1),
      )
      both false e = ((λ h. cc h), (λ h. absurd (too_short h.0 e)))
        where
          too_short : {n : ℕ} → 12 ≤ n → leb 12 n ≡ false → ⊥
          too_short h k = ground arith

  deferred-Fails :
      (payload : CheckInput) (name : Str)
      → lookup name (check_table o) ≡ some deferred
      → ¬ Fails o payload name
  deferred-Fails payload name e f =
      let same : ◌≡◌ {A = Option CheckFn} (some deferred) (some f.0) = sym e ∙ f.1 in
      let g : deferred ≡ f.0 = cc same in
      let clash : err Error.not_implemented ≡ ok false = ap (λ (k : CheckFn). k payload) g ∙ f.2 in
      cc clash

  primary_of_video :
      (role : ArtifactRole)
      → role ≡ ArtifactRole.primary
      → part_for_role video_short_v1_contract role ≡ ok primary_part
  unfolding part_for_role
  primary_of_video role e = rw e refl

  -- The test of the check, as it stands.
  abbrev has_header : List ℕ → Bool
  has_header content = leb 12 (length content) && str_eq (take 4 (drop 4 content)) (codes "ftyp")

  container_found : lookup (codes "container_is_mp4") (check_table o) ≡ some container_is_mp4
  unfolding lookup str_eq
  container_found = refl

  container_answer :
      (payload : CheckInput) → container_is_mp4 payload ≡ ok (has_header payload.content)
  unfolding container_is_mp4
  container_answer payload = refl

  container_lem :
      (payload : CheckInput)
      → (¬ Fails o payload (codes "container_is_mp4")) ↔ HasMp4Header payload.content
  container_lem payload = (
    (λ none_fails. elim (Bool-cases (has_header payload.content)) [
      | inl there ↦ (header_lem payload.content).0 there
      | inr missing ↦
          absurd (
            none_fails
              (container_is_mp4, container_found, container_answer payload ∙ ap ok missing))
    ]),
    (λ h f.
        let found : ◌≡◌ {A = Option CheckFn} (some container_is_mp4) (some f.0) =
          sym container_found ∙ f.1 in
        let same : container_is_mp4 ≡ f.0 = cc found in
        let there = (header_lem payload.content).1 h in
        let clash : ◌≡◌ {A = Result Bool} (ok (has_header payload.content)) (ok false) =
          sym (container_answer payload) ∙ ap (λ (k : CheckFn). k payload) same ∙ f.2 in
        cc (clash, there)),
  )

  checks_lem :
      (payload : CheckInput)
      → NoneFails o payload primary_part.checks ↔ HasMp4Header payload.content
  unfolding lookup str_eq
  checks_lem payload =
      let later = deferred-Fails payload in
      (
        (λ h. (container_lem payload).0 h.0),
        (λ h. (
          (container_lem payload).1 h,
          (
            later (codes "video_stream_present") refl,
            (
              later (codes "audio_stream_present") refl,
              (
                later (codes "audio_not_silent") refl,
                (
                  later (codes "duration_within_bounds") refl,
                  (
                    later (codes "resolution_at_least_720p") refl,
                    (later (codes "no_blank_frames") refl, tt),
                  ),
                ),
              ),
            ),
          ),
        )),
      )

  -- A file of the primary role, verified under the contract of video.short.v1, is clean exactly
  -- when it has at least twelve bytes and the bytes of `ftyp` from the fifth on.
  pub verify-HasMp4Header :
      (max_duration_s : ℕ) (file : HarvestedFile) (v : VerifiedArtifact)
      → file.descriptor.role ≡ ArtifactRole.primary
      → verify o video_short_v1_contract max_duration_s file ≡ ok v
      → (v.verdict ≡ ScanVerdict.clean) ↔ HasMp4Header file.content
  verify-HasMp4Header max_duration_s file v primary e =
      let (v', e', _, judged) =
        verify_lem o video_short_v1_contract max_duration_s file primary_part
          (primary_of_video file.descriptor.role primary) in
      let same : ◌≡◌ {A = Result VerifiedArtifact} (ok v) (ok v') = sym e ∙ e' in
      let q : v ≡ v' = cc same in
      let checks =
        checks_lem (input_of o file video_short_v1_contract max_duration_s primary_part) in
      (
        (λ c. checks.0 (judged.0 (ap (λ (x : VerifiedArtifact). x.verdict) (sym q) ∙ c))),
        (λ h. ap (λ (x : VerifiedArtifact). x.verdict) q ∙ judged.1 (checks.1 h)),
      )
