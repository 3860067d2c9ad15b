-- ===== src/Generation/Acl/Accepted.antt =====
-- What a set of descriptors that is accepted satisfies.
use growtrics_challenge.Common.{
  ℕ, ◌≤◌, ◌<◌, ◌≡◌, refl, sym, ap, subst, suc, ◌∙◌, ◌≢◌, Bool, true, false, ◌&&◌, not, Option, none,
  some, List, [], ◌∷◌, map, All, In, length, count_if, Bool-cases, arith, inl, inr, ltb, ◌==◌,
}
use growtrics_challenge.Common.Text.{Str, str_eq, eq_of_str_eq, str_eq_iff}
use growtrics_challenge.Domain.Contracts.{
  OutputContract, PartSpec, part_for_media_type, find_part, among,
}
use growtrics_challenge.Domain.Enums.{ArtifactRole, role_eq, role_eq_iff}
use growtrics_challenge.Domain.Errors.{Error}
use growtrics_challenge.Effects.{Result, ok}
use growtrics_challenge.Effects.Pure.{◌>>◌, returned}
use growtrics_challenge.Generation.Manifest.{
  RawArtifactDescriptor, GenerationOutcome, ArtifactDescriptor,
}
use growtrics_challenge.Generation.Paths.{normalise_rel_path}
use growtrics_challenge.Generation.Paths.Plain.{IsPlainPath, normalise_rel_path-IsPlainPath}
use growtrics_challenge.Generation.Acl.{
  unless, role_of, part_of, descriptor_of, accept_one, accept_each, has_duplicates, path_of, is_of,
  check_parts, declared_total, assert_set_fits_contract, is_failed, accept_descriptors,
}

-- A guard that let the code pass.
pub passed :
    {B : Type 0} {value : B} (refuses : Bool) (e : Error) (rest : Result B)
    → (unless refuses e >> rest) ≡ ok value
    → (refuses ≡ false) × (rest ≡ ok value)
passed true e rest h = cc
passed false e rest h = (refl, h)

pub allowed :
    (refuses : Bool) (e : Error) (done : Unit {0}) → unless refuses e ≡ ok done → refuses ≡ false
allowed true e done h = cc
allowed false e done h = refl

pub find_part-eq-some :
    (p : PartSpec → Bool) (parts : List PartSpec) (part : PartSpec)
    → find_part p parts ≡ some part
    → In part parts × (p part ≡ true)
find_part-eq-some p [] part h = absurd (cc h)
find_part-eq-some p (q ∷ parts) part h = elim (Bool-cases (p q)) [
  | inl same_part ↦
      let found : ◌≡◌ {A = Option PartSpec} (some q) (some part) = rw same_part at h in
      let same : q ≡ part = cc found in (inl (sym same), ap p (sym same) ∙ same_part)
  | inr other ↦
      let (there, good) = find_part-eq-some p parts part (rw other at h) in (inr there, good)
]

module _ (contract : OutputContract) where
  -- A descriptor of some part of the contract: the part's role and audience, one of its media
  -- types, at most its number of bytes, and a plain path.
  pub record Fits (d : ArtifactDescriptor) : Type 0 where
    pub part : PartSpec
    pub in_contract : In part contract.parts
    pub role : d.role ≡ part.role
    pub audience : d.audience ≡ part.audience
    pub media_type : among d.media_type part.media_types ≡ true
    pub size : d.declared_size_bytes ≤ part.max_bytes
    pub path : IsPlainPath d.rel_path

  part_of-eq-ok :
      (role : ArtifactRole) (found : Option PartSpec) (part : PartSpec)
      → part_of contract role found ≡ ok part
      → (found ≡ some part) × (role ≡ part.role)
  unfolding part_of
  part_of-eq-ok role none part h = cc
  part_of-eq-ok role (some q) part h = elim (Bool-cases (role_eq q.role role)) [
    | inl same_part ↦
        let found : ◌≡◌ {A = Result PartSpec} (ok q) (ok part) = rw same_part at h in
        let same : q ≡ part = cc found in
        (ap (λ x. some x) same, sym ((role_eq_iff q.role role).0 same_part) ∙ ap (λ x. x.role) same)
    | inr other ↦ absurd (cc (rw other at h))
  ]

  accept_one-Fits :
      (raw : RawArtifactDescriptor) (d : ArtifactDescriptor)
      → accept_one contract raw ≡ ok d
      → Fits d
  unfolding accept_one part_for_media_type
  accept_one-Fits raw d h =
      let (role, e1, h1) = returned (role_of raw.role) _ h in
      let (part, e2, h2) =
        returned (part_of contract role (part_for_media_type contract raw.media_type)) _ h1 in
      let (small, h3) = passed (ltb part.max_bytes raw.size_bytes) _ _ h2 in
      let (path, e4, h4) = returned (normalise_rel_path raw.rel_path) _ h3 in
      let (found, same_role) =
        part_of-eq-ok role (part_for_media_type contract raw.media_type) part e2 in
      let (there, typed) =
        find_part-eq-some (λ q. among raw.media_type q.media_types) contract.parts part found in
      let built : ◌≡◌ {A = Result ArtifactDescriptor} (ok (descriptor_of role part raw path))
          (ok d) =
        h4 in
      let same : descriptor_of role part raw path ≡ d = cc built in
      let (unchanged, plain) = normalise_rel_path-IsPlainPath raw.rel_path path e4 in
      subst Fits same (record {
        part = part;
        in_contract = there;
        role = same_role;
        audience = refl;
        media_type = typed;
        size = ground (arith, small);
        path = plain;
      })

  accept_each-All :
      (raws : List RawArtifactDescriptor) (ds : List ArtifactDescriptor)
      → accept_each contract raws ≡ ok ds
      → All Fits ds × (length ds ≡ length raws)
  unfolding accept_each
  accept_each-All [] ds h = let same : [] ≡ ds = cc h in rw (← same) (tt, refl)
  accept_each-All (raw ∷ raws) ds h =
      let (one, e1, h1) = returned (accept_one contract raw) _ h in
      let (rest, e2, h2) = returned (accept_each contract raws) _ h1 in
      let built : ◌≡◌ {A = Result (List ArtifactDescriptor)} (ok (one ∷ rest)) (ok ds) = h2 in
      let same : one ∷ rest ≡ ds = cc built in
      let (fits, count) = accept_each-All raws rest e2 in
      rw (← same) ((accept_one-Fits raw one e1, fits), ap suc count)

  -- A part's number of descriptors is within its bounds.
  abbrev pub Counted : List ArtifactDescriptor → PartSpec → Type 0
  Counted ds part =
      (count_if (is_of part) ds ≤ part.max_count)
      × (part.required ≡ true → 0 < count_if (is_of part) ds)

  check_parts-All :
      (ds : List ArtifactDescriptor) (parts : List PartSpec)
      → check_parts ds parts ≡ ok tt
      → All (Counted ds) parts
  unfolding check_parts
  check_parts-All ds [] h = tt
  check_parts-All ds (part ∷ parts) h =
      let n = count_if (is_of part) ds in
      let (few, h1) = passed (ltb part.max_count n) _ _ h in
      let (enough, h2) = passed (part.required && (n == 0)) _ _ h1 in
      ((within part.max_count n few, there part.required n enough), check_parts-All ds parts h2)
    where
      within : (m k : ℕ) → ltb m k ≡ false → k ≤ m
      within m k e = ground arith

      there : (b : Bool) (k : ℕ) → (b && (k == 0)) ≡ false → b ≡ true → 0 < k
      there b k e q = ground arith

  -- No path twice.
  abbrev pub Distinct : List Str → Type 0
  Distinct [] = Unit
  Distinct (p ∷ ps) = All (λ q. p ≢ q) ps × Distinct ps

  among-All : (p : Str) (ps : List Str) → among p ps ≡ false → All (λ q. p ≢ q) ps
  among-All p [] h = tt
  among-All p (q ∷ ps) h = elim (Bool-cases (str_eq p q)) [
    | inl here ↦ absurd (cc (rw here at h))
    | inr apart ↦ (
      (λ e. let hit = (str_eq_iff p q).1 e in absurd (cc (sym hit ∙ apart))),
      among-All p ps (rw apart at h),
    )
  ]

  has_duplicates-Distinct : (ps : List Str) → has_duplicates ps ≡ false → Distinct ps
  unfolding has_duplicates
  has_duplicates-Distinct [] h = tt
  has_duplicates-Distinct (p ∷ ps) h = elim (Bool-cases (among p ps)) [
    | inl again ↦ absurd (cc (rw again at h))
    | inr fresh ↦ (among-All p ps fresh, has_duplicates-Distinct ps (rw fresh at h))
  ]

  -- The whole set.
  pub record IsAccepted (outcome : GenerationOutcome) (session_id : Str)
      (ds : List ArtifactDescriptor) : Type 0 where
    pub session : outcome.session_id ≡ session_id
    pub worker : is_failed outcome.status ≡ false
    pub fits : All Fits ds
    pub whole : length ds ≡ length outcome.descriptors
    pub distinct : Distinct (map path_of ds)
    pub few : length ds ≤ contract.max_file_count
    pub counted : All (Counted ds) contract.parts
    pub total : declared_total ds ≤ contract.total_max_bytes

  -- Descriptors that are accepted answer the session that was opened, from a worker that reports
  -- no failure; there is one for each claim; each has the role, the audience and a media type of
  -- one part of the contract, at most the bytes of that part, and a plain path; no path stands
  -- twice; and the number of files, the number for each part, required parts included, and the
  -- declared total are within the bounds of the contract.
  pub accept_descriptors-IsAccepted :
      (session_id : Str) (outcome : GenerationOutcome) (ds : List ArtifactDescriptor)
      → accept_descriptors contract session_id outcome ≡ ok ds
      → IsAccepted outcome session_id ds
  unfolding accept_descriptors assert_set_fits_contract
  accept_descriptors-IsAccepted session_id outcome ds h =
      let (session, h1) = passed (not (str_eq outcome.session_id session_id)) _ _ h in
      let (worker, h2) = passed (is_failed outcome.status) _ _ h1 in
      let (all, e3, h3) = returned (accept_each contract outcome.descriptors) _ h2 in
      let (_, e4, h4) = returned (assert_set_fits_contract contract all) _ h3 in
      let (distinct, h5) = passed (has_duplicates (map path_of all)) _ _ e4 in
      let (few, h6) = passed (ltb contract.max_file_count (length all)) _ _ h5 in
      let (_, counted, h7) = returned (check_parts all contract.parts) _ h6 in
      let total = allowed (ltb contract.total_max_bytes (declared_total all)) _ _ h7 in
      let (fits, whole) = accept_each-All outcome.descriptors all e3 in
      let built : ◌≡◌ {A = Result (List ArtifactDescriptor)} (ok all) (ok ds) = h4 in
      let same : all ≡ ds = cc built in
      subst (IsAccepted outcome session_id) same (record {
        session = eq_of_str_eq outcome.session_id session_id (positive _ session);
        worker = worker;
        fits = fits;
        whole = whole;
        distinct = has_duplicates-Distinct (map path_of all) distinct;
        few = at_most _ _ few;
        counted = check_parts-All all contract.parts counted;
        total = at_most _ _ total;
      })
    where
      positive : (b : Bool) → not b ≡ false → b ≡ true
      positive b e = ground arith

      at_most : (m k : ℕ) → ltb m k ≡ false → k ≤ m
      at_most m k e = ground arith
