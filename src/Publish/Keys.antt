-- ===== src/Publish/Keys.antt =====
-- The keys of versions and of artifacts never meet.
use text.Mathlib.TextLemmas.{cons-append}
use zed_infra.Base.{
  ℕ, String, code, some, ◌≡◌, ◌≤◌, Option-cases, ◌≢◌, refl, ap, ◌⧺◌, arith, inl, inr,
}
use zed_infra.Json.{Json}
use zed_infra.Publish.{artifact_extension, artifact_key, version_metadata_key}

first : String → ℕ
first String.[] = 0
first (String.◌∷◌ c s) = code c

-- A text begins with the character of the code n, which is not 0.
record BeginsWith (n : ℕ) (s : String) : Type 0 where
  nonzero : 1 ≤ n
  initial : first s ≡ n

BeginsWith-append : {n : ℕ} {s : String} (t : String) → BeginsWith n s → BeginsWith n (s ⧺ t)
unfolding first
BeginsWith-append {s = String.[]} t b = absurd (omega (arith, b.nonzero, b.initial))
BeginsWith-append {s = String.◌∷◌ c s} t b = record {
  nonzero = b.nonzero;
  initial = rw (cons-append c s t) b.initial;
}

version_metadata_key-BeginsWith :
    (org name version : String) {k : String}
    → version_metadata_key org name version ≡ some k
    → BeginsWith b'm' k
unfolding version_metadata_key first
version_metadata_key-BeginsWith org name version {k} h =
    let same : "metadata/" ⧺ org ⧺ "/" ⧺ name ⧺ "/versions/" ⧺ version ⧺ ".json" ≡ k =
      ground arith in
    let start : BeginsWith b'm' "metadata/" = record { nonzero = omega arith; initial = refl } in
    let name_end : BeginsWith b'm' ("metadata/" ⧺ org ⧺ "/" ⧺ name) =
      BeginsWith-append name (BeginsWith-append "/" (BeginsWith-append org start)) in
    rw (← same) (
      BeginsWith-append ".json"
        (BeginsWith-append version (BeginsWith-append "/versions/" name_end)))

artifact_key-BeginsWith :
    (digest : String) (format : Json) {k : String}
    → artifact_key digest format ≡ some k
    → BeginsWith b'a' k
unfolding artifact_key first
artifact_key-BeginsWith digest format {k} h = elim (Option-cases (artifact_extension format)) [
  | inl e ↦ absurd (ground (arith, e))
  | inr (extension, e) ↦
      let same : "artifacts/" ⧺ digest ⧺ "." ⧺ extension ≡ k = ground (arith, e) in
      let start : BeginsWith b'a' "artifacts/" = record { nonzero = omega arith; initial = refl } in
      rw (← same)
        (BeginsWith-append extension (BeginsWith-append "." (BeginsWith-append digest start)))
]

-- No version's document is written to the key of an artifact, and no artifact to the key of a
-- version's document.
pub artifact_key-version_metadata_key :
    (digest : String) (format : Json) (org name version : String) {j k : String}
    → artifact_key digest format ≡ some j
    → version_metadata_key org name version ≡ some k
    → j ≢ k
artifact_key-version_metadata_key digest format org name version {j} {k} p q same =
    let a = (artifact_key-BeginsWith digest format p).initial in
    let m = (version_metadata_key-BeginsWith org name version q).initial in
    omega (arith, a, m, ap first same)
