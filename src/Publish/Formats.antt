-- ===== src/Publish/Formats.antt =====
-- Which formats an upload may have, and how much of a body is read.
use zed_infra.Base.{
  ℕ, ◌+◌, ◌≤◌, String, some, List, [], ◌∷◌, ◌≡◌, ◌↔◌, ◌⊎◌, inl, inr, refl, arith, ◌===◌, ===_iff,
  length, Bool-cases,
}
use zed_infra.Http.{to_lower}
use zed_infra.Json.{Json, str, null, undefined}
use zed_infra.Publish.{extension_of, artifact_extension}
use zed_infra.Publish.Upload.{limited}
use zed_infra.Publish.Admission.{body_size}

-- The two inherited names that the table of extensions finds.
abbrev pub IsInherited : String → Type 0
IsInherited f = (to_lower f ≡ "constructor") ⊎ (to_lower f ≡ "__proto__")

extension_of-cases :
    (f e : String)
    → extension_of f ≡ some e
    → (e ≡ "tar.gz") ⊎ (e ≡ "zip") ⊎ (f ≡ "constructor") ⊎ (f ≡ "__proto__")
unfolding extension_of
extension_of-cases f e h = ground (arith, ===_iff f "constructor", ===_iff f "__proto__")

-- An accepted format is stored as `tar.gz` or `zip`, unless it is a text that is `constructor` or
-- `__proto__` in lower case.
pub artifact_extension-cases :
    (format : Json) (e : String)
    → artifact_extension format ≡ some e
    → (e ≡ "tar.gz") ⊎ (e ≡ "zip") ⊎ ((f : String) × (format ≡ str f) × IsInherited f)
unfolding artifact_extension
artifact_extension-cases undefined e h = inl (ground arith)
artifact_extension-cases null e h = inl (ground arith)
artifact_extension-cases (str f) e h = elim (Bool-cases (f === "")) [
  | inl empty ↦ inl (ground arith)
  | inr full ↦ elim (extension_of-cases (to_lower f) e (rw full at h)) [
    | inl t ↦ inl t
    | inr (inl z) ↦ inr (inl z)
    | inr (inr i) ↦ inr (inr (f, refl, i))
  ]
]
artifact_extension-cases v e h = absurd (cc h)

limited_whole :
    (declared received : ℕ) (chunks : List (List ℕ))
    → received + body_size chunks ≤ declared
    → limited declared received chunks ≡ some (received + body_size chunks)
unfolding limited
limited_whole declared received [] h = ground arith
limited_whole declared received (chunk ∷ chunks) h =
    let later = limited_whole declared (received + length chunk) chunks (omega (arith, h)) in
    ground (arith, later)

limited_within :
    (declared received : ℕ) (chunks : List (List ℕ)) {n : ℕ}
    → received ≤ declared
    → limited declared received chunks ≡ some n
    → received + body_size chunks ≤ declared
unfolding limited
limited_within declared received [] few h = ground arith
limited_within declared received (chunk ∷ chunks) {n} few h =
    let within : limited declared (received + length chunk) chunks ≡ some n = ground arith in
    let small : received + length chunk ≤ declared = ground arith in
    let later = limited_within declared (received + length chunk) chunks small within in
    omega (arith, later)

-- However a body is cut into chunks, it is read whole exactly if it is no longer than was declared.
pub limited_iff :
    (declared : ℕ) (chunks : List (List ℕ))
    → (limited declared 0 chunks ≡ some (body_size chunks)) ↔ (body_size chunks ≤ declared)
limited_iff declared chunks = (
  λ h. let n = limited_within declared 0 chunks (omega arith) h in omega (arith, n),
  λ h. let n = limited_whole declared 0 chunks (omega (arith, h)) in ground (arith, n),
)
