-- ===== src/Intake/Sealer/Sealed.antt =====
-- What a sealed brief is, by the request.
use growtrics_challenge.Common.{ℕ, ◌≡◌, ◌≢◌, suc, refl, subst, List, [], ◌∷◌}
use growtrics_challenge.Common.Text.{Str}
use growtrics_challenge.Domain.Briefs.{
  SanitisedContextItem, GuardDecision, GuardVerdict, LessonBrief,
}
use growtrics_challenge.Domain.Ids.{Uuid, derive_brief_id}
use growtrics_challenge.Domain.Records.{ContextItem}
use growtrics_challenge.Effects.{Result, ok}
use growtrics_challenge.Effects.Pure.{returned}
use growtrics_challenge.Intake.Sanitiser.{
  Unicode, sanitise, sanitise_instruction, sanitise_from, sanitise_context, context_name,
  instruction_max_chars, context_item_max_chars,
}
use growtrics_challenge.Intake.Sanitiser.Cleaned.{IsCleaned, sanitise-IsCleaned}
use growtrics_challenge.Intake.Sealer.{
  RawLessonRequest, Guard, Hashing, canonical_brief_payload, plain, admit_verdict, brief_hash_of,
  brief_of, seal_brief,
}

module _ (u : Uuid) (h : Hashing) (unicode : Unicode) where
  -- Each item in its place, of its kind, with its text cleaned.
  abbrev pub AreCleaned : List ContextItem → List SanitisedContextItem → Type 0
  AreCleaned [] [] = Unit
  AreCleaned [] (c ∷ cs) = ⊥
  AreCleaned (i ∷ items) [] = ⊥
  AreCleaned (i ∷ items) (c ∷ cs) =
      ((c.kind ≡ i.kind) × IsCleaned unicode i.text context_item_max_chars c.text)
      × AreCleaned items cs

  pub record IsSealed (request : RawLessonRequest) (guard : Guard) (at : ℕ) (version : Str)
      (b : LessonBrief) : Type 0 where
    pub job : b.job_id ≡ request.job_id
    pub id : derive_brief_id u request.job_id ≡ ok b.brief_id
    pub instruction : IsCleaned unicode request.instruction instruction_max_chars b.instruction
    pub context : AreCleaned request.context b.context
    pub verdict : b.guard ≡ guard b.instruction b.context
    pub admitted : b.guard.decision ≢ GuardDecision.deny
    pub hash :
        b.brief_hash
        ≡ brief_hash_of u h unicode
            (canonical_brief_payload request b.instruction.text (plain b.context) version)
    pub version_of : b.template_version ≡ version
    pub sealed : b.sealed_at ≡ at

  admitted_lem :
      (verdict : GuardVerdict) (d : GuardDecision) (done : Unit {0})
      → admit_verdict verdict d ≡ ok done
      → d ≢ GuardDecision.deny
  admitted_lem verdict GuardDecision.allow done e q = cc q
  admitted_lem verdict GuardDecision.review done e q = cc q
  admitted_lem verdict GuardDecision.deny done e q = cc e

  sanitise_from-AreCleaned :
      (index : ℕ) (items : List ContextItem) (cs : List SanitisedContextItem)
      → sanitise_from unicode index items ≡ ok cs
      → AreCleaned items cs
  unfolding sanitise_from
  sanitise_from-AreCleaned index [] cs e =
      let q : ◌≡◌ {A = Result (List SanitisedContextItem)} (ok []) (ok cs) = e in
      let same : [] ≡ cs = cc q in subst (AreCleaned []) same tt
  sanitise_from-AreCleaned index (item ∷ items) cs e =
      let (text, e1, h1) =
        returned (sanitise unicode item.text (context_name unicode index) context_item_max_chars) _
          e in
      let (rest, e2, h2) = returned (sanitise_from unicode (suc index) items) _ h1 in
      let one : SanitisedContextItem = record { kind = item.kind; text = text } in
      let q : ◌≡◌ {A = Result (List SanitisedContextItem)} (ok (one ∷ rest)) (ok cs) = h2 in
      let same : one ∷ rest ≡ cs = cc q in
      subst (AreCleaned (item ∷ items)) same (
        (
          refl,
          sanitise-IsCleaned unicode item.text (context_name unicode index) context_item_max_chars
              text e1,
        ),
        sanitise_from-AreCleaned (suc index) items rest e2,
      )

  -- stub
  pub seal_brief-IsSealed :
      (request : RawLessonRequest) (guard : Guard) (at : ℕ) (version : Str) (b : LessonBrief)
      → seal_brief u h unicode request guard at version ≡ ok b
      → IsSealed request guard at version b
  unfolding seal_brief sanitise_instruction sanitise_context
  seal_brief-IsSealed request guard at version b e =
      let (instruction, e1, h1) = returned (sanitise_instruction unicode request.instruction) _ e in
      let (context, e2, h2) = returned (sanitise_context unicode request.context) _ h1 in
      let verdict = guard instruction context in
      let (done, e3, h3) = returned (admit_verdict verdict verdict.decision) _ h2 in
      let (id, e4, h4) = returned (derive_brief_id u request.job_id) _ h3 in
      let q : ◌≡◌ {A = Result LessonBrief}
          (ok (brief_of u h unicode request at version instruction context verdict id)) (ok b) =
        h4 in
      let same : brief_of u h unicode request at version instruction context verdict id ≡ b =
        cc q in
      subst (IsSealed request guard at version) same (record {
        job = refl;
        id = e4;
        instruction =
            sanitise-IsCleaned unicode request.instruction _ instruction_max_chars instruction e1;
        context = sanitise_from-AreCleaned 0 request.context context e2;
        verdict = refl;
        admitted = admitted_lem verdict verdict.decision done e3;
        hash = refl;
        version_of = refl;
        sealed = refl;
      })
