-- ===== src/Custody/Verifier/Verdicts.antt =====
-- What a verdict says of the bytes.
pub mod Mp4
use growtrics_challenge.Common.{
  ℕ, ◌≤◌, leb→le, ◌≡◌, ◌↔◌, ◌⊎◌, inl, inr, refl, sym, ap, ◌∙◌, Bool, true, false, ◌&&◌, not, Option,
  none, some, List, [], ◌∷◌, All, length, take, drop, leb, Bool-cases, Option-cases, if◌then◌else◌,
  arith,
}
use growtrics_challenge.Common.Text.{Str, codes, str_eq, str_eq_iff}
use growtrics_challenge.Common.Dict.{Dict, lookup, Entries, Entries-lookup}
use growtrics_challenge.Domain.Contracts.{
  OutputContract, PartSpec, part_for_role, video_short_v1_contract,
}
use growtrics_challenge.Domain.Enums.{ScanVerdict, ArtifactRole, role_eq}
use growtrics_challenge.Domain.Errors.{Error}
use growtrics_challenge.Effects.{Result, ok, err}
use growtrics_challenge.Effects.Pure.{◌>>=◌}
use growtrics_challenge.Custody.Candidates.{
  HarvestedFile, CheckOutcome, new_outcome, VerifiedArtifact, Outside,
}
use growtrics_challenge.Custody.Verifier.{
  CheckInput, CheckFn, container_is_mp4, line_count_cap, utf8_decodes, deferred, deferred_detail,
  outcome_of, run_registered, is_failure, any_failure, check_table, run_check, run_checks, judged,
  input_of, verify,
}

module _ (o : Outside) where
  -- A check of the table that says no.
  abbrev pub Fails : CheckInput → Str → Type 0
  Fails payload name =
      (check : CheckFn) × (lookup name (check_table o) ≡ some check) × (check payload ≡ ok false)

  -- What the checks of the table do: they answer, or they are deferred.
  abbrev Answers : CheckInput → CheckFn → Type 0
  Answers payload check =
      ((b : Bool) × (check payload ≡ ok b)) ⊎ (check payload ≡ err Error.not_implemented)

  check_table-Answers :
      (payload : CheckInput) → Entries (λ name check. Answers payload check) (check_table o)
  unfolding container_is_mp4 line_count_cap utf8_decodes
  check_table-Answers payload =
      let later : Answers payload deferred = inr refl in
      (
        inl (_, refl),
        (
          inl (_, refl),
          (
            inl (_, refl),
            (
              later,
              (
                later,
                (
                  later,
                  (
                    later,
                    (later, (later, (later, (later, (later, (later, (later, (later, tt)))))))),
                  ),
                ),
              ),
            ),
          ),
        ),
      )

  -- An outcome that is a failure exactly when a check was found and said no.
  abbrev Reports : Option CheckFn → CheckInput → CheckOutcome → Type 0
  Reports found payload c =
      (is_failure c ≡ true)
      ↔ ((check : CheckFn) × (found ≡ some check) × (check payload ≡ ok false))

  answered :
      (name : Str) (check : CheckFn) (payload : CheckInput) (b : Bool)
      → check payload ≡ ok b
      → (c : CheckOutcome) × (outcome_of name (check payload) ≡ ok c)
        × Reports (some check) payload c
  unfolding outcome_of new_outcome
  answered name check payload true e = (
    record { name = name; passed = true; skipped = false; detail = [] },
    rw e refl,
    (
      (λ q. cc q),
      (λ f.
          let same : check ≡ f.0 = cc (f.1) in
          let no_answer : ok true ≡ ok false = sym e ∙ ap (λ (g : CheckFn). g payload) same ∙ f.2 in
          cc no_answer),
    ),
  )
  answered name check payload false e = (
    record { name = name; passed = false; skipped = false; detail = [] },
    rw e refl,
    ((λ q. (check, refl, e)), (λ f. refl)),
  )

  deferred_lem :
      (name : Str) (check : CheckFn) (payload : CheckInput)
      → check payload ≡ err Error.not_implemented
      → (c : CheckOutcome) × (outcome_of name (check payload) ≡ ok c)
        × Reports (some check) payload c
  unfolding outcome_of new_outcome
  deferred_lem name check payload e = (
    record { name = name; passed = false; skipped = true; detail = deferred_detail },
    rw e refl,
    (
      (λ q. cc q),
      (λ f.
          let same : check ≡ f.0 = cc (f.1) in
          let no_answer : err Error.not_implemented ≡ ok false =
            sym e ∙ ap (λ (g : CheckFn). g payload) same ∙ f.2 in
          cc no_answer),
    ),
  )

  run_registered_lem :
      (name : Str) (found : Option CheckFn) (payload : CheckInput)
      → ((check : CheckFn) → found ≡ some check → Answers payload check)
      → (c : CheckOutcome) × (run_registered name found payload ≡ ok c) × Reports found payload c
  unfolding run_registered new_outcome
  run_registered_lem name none payload known = (
    record { name = name; passed = false; skipped = true; detail = codes "unregistered" },
    refl,
    ((λ q. cc q), (λ f. let e = f.1 in cc e)),
  )
  run_registered_lem name (some check) payload known = elim (known check refl) [
    | inl (b, e) ↦ answered name check payload b e
    | inr e ↦ deferred_lem name check payload e
  ]

  run_check_lem :
      (name : Str) (payload : CheckInput)
      → (c : CheckOutcome) × (run_check o name payload ≡ ok c)
        × ((is_failure c ≡ true) ↔ Fails payload name)
  unfolding run_check
  run_check_lem name payload =
      run_registered_lem name (lookup name (check_table o)) payload (λ check found.
        Entries-lookup (λ k c. Answers payload c) name (check_table o) (check_table-Answers payload)
          found)

  -- No check of a part says no.
  abbrev pub NoneFails : CheckInput → List Str → Type 0
  NoneFails payload names = All (λ name. ¬ Fails payload name) names

  joined_lem :
      (payload : CheckInput) (name : Str) (names : List Str) (c : CheckOutcome)
      (cs : List CheckOutcome)
      → ((is_failure c ≡ true) ↔ Fails payload name)
      → ((any_failure cs ≡ false) ↔ NoneFails payload names)
      → (any_failure (c ∷ cs) ≡ false) ↔ NoneFails payload (name ∷ names)
  joined_lem payload name names c cs one rest = elim (Bool-cases (is_failure c)) [
    | inl bad ↦ ((λ e. absurd (cc (rw bad at e))), (λ h. absurd (h.0 (one.0 bad))))
    | inr good ↦ (
      (λ e. ((λ f. let bad = one.1 f in absurd (cc (bad, good))), rest.0 (rw good at e))),
      (λ h. rw good (rest.1 h.1)),
    )
  ]

  run_checks_lem :
      (names : List Str) (payload : CheckInput)
      → (cs : List CheckOutcome) × (run_checks o names payload ≡ ok cs)
        × ((any_failure cs ≡ false) ↔ NoneFails payload names)
  unfolding run_checks
  run_checks_lem [] payload = ([], refl, ((λ e. tt), (λ h. refl)))
  run_checks_lem (name ∷ names) payload =
      let (c, e, one) = run_check_lem name payload in
      let (cs, e', rest) = run_checks_lem names payload in
      (c ∷ cs, rw e (rw e' refl), joined_lem payload name names c cs one rest)

  module _ (contract : OutputContract) (max_duration_s : ℕ) (file : HarvestedFile) where
    judged_clean :
        (cs : List CheckOutcome)
        → ((judged o file cs).verdict ≡ ScanVerdict.clean) ↔ (any_failure cs ≡ false)
    judged_clean cs = elim (Bool-cases (any_failure cs)) [
      | inl bad ↦ rw bad ((λ e. cc e), (λ e. cc e))
      | inr good ↦ rw good ((λ e. refl), (λ e. refl))
    ]

    -- A file whose role has a part in the contract is always verified, and is clean exactly when
    -- no check that the part names and the table has answers `False`: a check that is deferred or
    -- not in the table counts for nothing.
    pub verify_lem :
        (part : PartSpec)
        → part_for_role contract file.descriptor.role ≡ ok part
        → (v : VerifiedArtifact) × (verify o contract max_duration_s file ≡ ok v)
          × (v.harvested ≡ file)
          × ((v.verdict ≡ ScanVerdict.clean)
              ↔ NoneFails (input_of o file contract max_duration_s part) part.checks)
    unfolding verify
    verify_lem part of_part =
        let payload = input_of o file contract max_duration_s part in
        let (cs, e, none_fails) = run_checks_lem part.checks payload in
        (
          judged o file cs,
          rw of_part (rw e refl),
          refl,
          (
            (λ c. none_fails.0 ((judged_clean cs).0 c)),
            (λ h. (judged_clean cs).1 (none_fails.1 h)),
          ),
        )
