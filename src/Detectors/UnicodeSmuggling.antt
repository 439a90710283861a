-- ===== src/Detectors/UnicodeSmuggling.antt =====
-- src/memory_blackbox/detectors/unicode_smuggling.py. `shown` stands for the format U+{:04X} of a
-- code point.
use memory_blackbox.Prelude.{
  ℕ, ◌≡◌, ◌≢◌, ◌↔◌, refl, Bool, false, ◌&&◌, ◌||◌, List, [], ◌∷◌, some, arith, Text, codes, nat_eq,
  leb, if◌then◌else◌, Result, ok, to_set, text_leb, sort_by, insert_by, contains, All, ap,
}
use memory_blackbox.Model.Json.{arr, texts}
use memory_blackbox.Model.Dump.{fields}
use memory_blackbox.Model.Records.{ProvenanceRecord, high}
use memory_blackbox.Model.Findings.{Finding, DetectorContext}

abbrev pub member : ℕ → List ℕ → Bool
member n [] = false
member n (m ∷ ms) = nat_eq n m || member n ms

-- `_ZERO_WIDTH` and `_BIDI`
abbrev pub zero_width : List ℕ
zero_width = 8203 ∷ 8204 ∷ 8205 ∷ 8288 ∷ 65279 ∷ []

abbrev pub bidi : List ℕ
bidi = 8234 ∷ 8235 ∷ 8236 ∷ 8237 ∷ 8238 ∷ 8294 ∷ 8295 ∷ 8296 ∷ 8297 ∷ []

-- `_is_smuggled`
unfoldable pub is_smuggled : ℕ → Bool
is_smuggled code =
    (member code zero_width || member code bidi) || (leb 917504 code && leb code 917631)

module _ (shown : ℕ → Text) where
  unfoldable pub smuggled : Text → List Text
  smuggled [] = []
  smuggled (ch ∷ content) =
      let rest = smuggled content in if is_smuggled ch then shown ch ∷ rest else rest

  -- `sorted` of the set of the code points.
  unfoldable pub offenders : Text → List Text
  offenders content = sort_by text_leb (to_set (smuggled content))

  abbrev pub smuggling : ProvenanceRecord → List Text → List Finding
  smuggling r [] = []
  smuggling r (p ∷ ps) =
      record {
        detector_name = codes "unicode_smuggling";
        severity = high;
        record_id = some r.record_id;
        message = codes "stored content contains zero-width or bidi control characters";
        evidence = fields ((codes "code_points", arr (texts (p ∷ ps))) ∷ []);
      }
      ∷ []

  -- `inspect`; the detector keeps no state.
  unfoldable pub inspect :
      Unit {0} → ProvenanceRecord → Text → DetectorContext → (Unit {0}) × Result (List Finding)
  inspect d r content ctx = (tt, ok (smuggling r (offenders content)))

  smuggled-nil :
      (content : Text) → (smuggled content ≡ []) ↔ All (λ ch. is_smuggled ch ≡ false) content
  unfolding smuggled
  smuggled-nil [] = (λ h. tt, λ h. refl)
  smuggled-nil (ch ∷ content) = ground (arith, smuggled-nil content)

  to_set-nil : (xs : List Text) → (to_set xs ≡ []) ↔ (xs ≡ [])
  unfolding to_set contains
  to_set-nil [] = (λ h. refl, λ h. refl)
  to_set-nil (x ∷ xs) = ground (arith, to_set-nil xs)

  insert_by-cons : (x : Text) (xs : List Text) → insert_by text_leb x xs ≢ []
  unfolding insert_by
  insert_by-cons x [] h = cc
  insert_by-cons x (y ∷ ys) h = ground arith

  sort_by-nil : (xs : List Text) → (sort_by text_leb xs ≡ []) ↔ (xs ≡ [])
  unfolding sort_by
  sort_by-nil [] = (λ h. refl, λ h. refl)
  sort_by-nil (x ∷ xs) = (λ h. absurd (insert_by-cons x (sort_by text_leb xs) h), λ h. cc)

  smuggling-nil : (r : ProvenanceRecord) (ps : List Text) → (smuggling r ps ≡ []) ↔ (ps ≡ [])
  smuggling-nil r [] = (λ h. refl, λ h. refl)
  smuggling-nil r (p ∷ ps) = (λ h. cc, λ h. cc)

  -- `inspect` returns no finding exactly if no code point of the content is a zero-width, a
  -- bidirectional or a tag character.
  pub inspect-nil :
      (r : ProvenanceRecord) (content : Text) (ctx : DetectorContext)
      → ((inspect tt r content ctx).1 ≡ ok []) ↔ All (λ ch. is_smuggled ch ≡ false) content
  unfolding inspect offenders
  inspect-nil r content ctx =
      let one = smuggling-nil r (offenders content) in
      let two = sort_by-nil (to_set (smuggled content)) in
      let three = to_set-nil (smuggled content) in
      let four = smuggled-nil content in
      (
        λ h. four.0 (three.0 (two.0 (one.0 (ground arith)))),
        λ h. ap {B = Result (List Finding)} ok (one.1 (two.1 (three.1 (four.1 h)))),
      )
