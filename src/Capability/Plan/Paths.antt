-- ===== src/Capability/Plan/Paths.antt =====
-- Which URL paths `path_begins_with_segments` accepts.
use zed_infra.Base.{
  String, true, false, Option, none, some, List, [], ◌∷◌, ◌++◌, ◌===◌, ===_iff, split, includes,
  ◌≡◌, ◌≢◌, refl, arith, Option-cases, inl, inr, and-true,
}
use zed_infra.Capability.Plan.{
  plain_segment, decode_plain, cons_decoded, decode_segments, agrees, slice_one,
  path_begins_with_segments,
}

-- A segment that is no dot segment and holds neither kind of slash.
pub record IsPlainSegment (v : String) : Type 0 where
  pub not_dot : v ≢ "."
  pub not_dot_dot : v ≢ ".."
  pub no_slash : includes b'/' v ≡ false
  pub no_backslash : includes 0x5c v ≡ false

plain_segment-IsPlainSegment : (v : String) → plain_segment v ≡ true → IsPlainSegment v
unfolding plain_segment
plain_segment-IsPlainSegment v h = ground (arith, ===_iff v ".", ===_iff v "..")

IsPlainSegment-plain_segment : (v : String) → IsPlainSegment v → plain_segment v ≡ true
unfolding plain_segment
IsPlainSegment-plain_segment v h = ground (arith, ===_iff v ".", ===_iff v "..")

module _ (decode_uri : String → Option String) where
  -- Each segment decodes to the plain segment at its place.
  abbrev pub AreDecoded : List String → List String → Type 0
  AreDecoded [] [] = Unit
  AreDecoded (s ∷ ss) (v ∷ vs) = (decode_uri s ≡ some v) × IsPlainSegment v × AreDecoded ss vs
  AreDecoded _ _ = ⊥

  decode_plain-eq-some :
      (s : String) {v : String}
      → decode_plain decode_uri s ≡ some v
      → (decode_uri s ≡ some v) × IsPlainSegment v
  unfolding decode_plain
  decode_plain-eq-some s {v} h =
      let (found, plain) : (decode_uri s ≡ some v) × (plain_segment v ≡ true) = ground arith in
      (found, plain_segment-IsPlainSegment v plain)

  cons_decoded-eq-some :
      (o : Option String) (os : Option (List String)) {ws : List String}
      → cons_decoded o os ≡ some ws
      → (v : String) × (vs : List String) × (o ≡ some v) × (os ≡ some vs) × (v ∷ vs ≡ ws)
  unfolding cons_decoded
  cons_decoded-eq-some (some v) (some vs) h = (v, vs, refl, refl, cc h)
  cons_decoded-eq-some (some v) none h = absurd (cc h)
  cons_decoded-eq-some none os h = absurd (cc h)

  decode_segments-AreDecoded :
      (ss : List String) {vs : List String}
      → decode_segments decode_uri ss ≡ some vs
      → AreDecoded ss vs
  unfolding decode_segments
  decode_segments-AreDecoded [] {vs} h = let same : [] ≡ vs = cc h in rw (← same) tt
  decode_segments-AreDecoded (s ∷ ss) h =
      let (v, vs, here, later, same) =
        cons_decoded-eq-some (decode_plain decode_uri s) (decode_segments decode_uri ss) h in
      let (found, plain) = decode_plain-eq-some s here in
      rw (← same) (found, plain, decode_segments-AreDecoded ss later)

  agrees-prefix :
      (es ds : List String) → agrees es ds ≡ true → (rest : List String) × (ds ≡ es ++ rest)
  unfolding agrees
  agrees-prefix [] ds h = (ds, refl)
  agrees-prefix (e ∷ es) [] h = cc h
  agrees-prefix (e ∷ es) (d ∷ ds) h =
      let (here, later) = and-true (d === e) (agrees es ds) h in
      let (rest, same) = agrees-prefix es ds later in (rest, cc ((===_iff d e).0 here, same))

  -- The path after its first slash, split at slashes, decodes segment by segment to plain segments
  -- of which the first are the expected ones.
  pub record LiesUnder (pathname : String) (expected : List String) : Type 0 where
    pub rest : List String
    pub decoded : AreDecoded (slice_one (split b'/' pathname)) (expected ++ rest)

  -- If a path is accepted, every one of its segments decodes to a segment that is no dot segment and
  -- holds no slash or backslash, and the first of them are the expected ones in order.
  pub path_begins_with_segments-LiesUnder :
      (pathname : String) (expected : List String)
      → path_begins_with_segments decode_uri pathname expected ≡ true
      → LiesUnder pathname expected
  unfolding path_begins_with_segments
  path_begins_with_segments-LiesUnder pathname expected h =
      let raw = slice_one (split b'/' pathname) in
      elim (Option-cases (decode_segments decode_uri raw)) [
        | inl none_decoded ↦ absurd (ground (arith, none_decoded))
        | inr (ds, found) ↦
            let agree : agrees expected ds ≡ true = ground (arith, found) in
            let (rest, same) = agrees-prefix expected ds agree in
            record { rest = rest; decoded = rw same at (decode_segments-AreDecoded raw found) }
      ]
