-- ===== src/Publish/Document/Readable.antt =====
-- What is read back is public, and what a publish wrote is read back.
use zed_infra.Base.{
  ℕ, ◌+◌, ◌≤◌, String, true, false, not, ◌&&◌, Option, none, some, List, [], ◌∷◌, length, ok, ◌≡◌,
  ◌⊎◌, inl, inr, refl, arith, Option-cases, Bool-cases, passed, followed, reject_if-eq-ok, ◌∙◌,
  or-false, of_not, ok-injective, ap, length-append,
}
use zed_infra.Json.{Json, int, get, as_nat, as_nat-eq-some, is_undefined}
use zed_infra.Visibility.{permits_public_visibility, require_public_object}
use zed_infra.Publish.{max_publish_meta_bytes}
use zed_infra.Publish.Document.{
  BodyStream, R2Object, ReadRuntime, concat, counted, exactly, read_text, object_text, parsed,
  disclosed, read_json_object,
}

counted-eq-some :
    (size bytes : ℕ) (cs : List (List ℕ)) {n : ℕ}
    → counted size bytes cs ≡ some n
    → n ≡ bytes + length (concat cs)
unfolding counted
counted-eq-some size bytes [] h = ground arith
counted-eq-some size bytes (c ∷ cs) {n} h =
    ground (arith, counted-eq-some size (bytes + length c) cs {n = n}, length-append c (concat cs))

pub counted_within :
    (size bytes : ℕ) (cs : List (List ℕ))
    → bytes + length (concat cs) ≤ size
    → size ≤ max_publish_meta_bytes
    → counted size bytes cs ≡ some (bytes + length (concat cs))
unfolding counted
counted_within size bytes [] h k = ground arith
counted_within size bytes (c ∷ cs) h k =
    ground (arith, counted_within size (bytes + length c) cs, length-append c (concat cs))

-- A public object that holds a public document, within the size limit and of the size it names.
pub record IsPublicDocument (rt : ReadRuntime) (object : R2Object) (v : Json) : Type 0 where
  pub marked :
      (object.custom_metadata ≡ Json.undefined)
      ⊎ (permits_public_visibility object.custom_metadata ≡ true)
  pub stream : BodyStream
  pub body : object.body ≡ some stream
  pub size : object.size ≡ int (length (concat stream.chunks))
  pub bounded : length (concat stream.chunks) ≤ max_publish_meta_bytes
  pub text : String
  pub decoded : rt.utf8 (concat stream.chunks) ≡ some text
  pub read : rt.parse_json text ≡ some v
  pub public : permits_public_visibility v ≡ true
  pub facts :
      (get "package" v ≡ Json.undefined) ⊎ (permits_public_visibility (get "package" v) ≡ true)

undefined_of : (v : Json) → is_undefined v ≡ true → v ≡ Json.undefined
unfolding is_undefined
undefined_of Json.undefined h = refl
undefined_of v h = ground arith

public_or_absent :
    (v : Json)
    → (not (is_undefined v) && not (permits_public_visibility v)) ≡ false
    → (v ≡ Json.undefined) ⊎ (permits_public_visibility v ≡ true)
public_or_absent v h = elim (Bool-cases (is_undefined v)) [
  | inl e ↦ inl (undefined_of v e)
  | inr e ↦ inr (ground arith)
]

marked_of :
    (v : Json)
    → require_public_object v ≡ ok tt
    → (v ≡ Json.undefined) ⊎ (permits_public_visibility v ≡ true)
unfolding require_public_object
marked_of v h = public_or_absent v (reject_if-eq-ok _ _ h)

disclosed-eq-ok :
    (o : Option Json) {v : Json}
    → disclosed o ≡ ok (some v)
    → (o ≡ some v)
      × (permits_public_visibility v ≡ true)
      × ((get "package" v ≡ Json.undefined) ⊎ (permits_public_visibility (get "package" v) ≡ true))
unfolding disclosed
disclosed-eq-ok none h = cc (ok-injective h)
disclosed-eq-ok (some w) {v} h = passed _ _ _ h λ public same.
    let e : w ≡ v = cc (ok-injective same) in
    let (p, q) = or-false _ _ public in rw (← e) (refl, of_not _ p, public_or_absent _ q)

record IsText (utf8 : List ℕ → Option String) (object : R2Object) (text : String) : Type 0 where
  pub stream : BodyStream
  pub body : object.body ≡ some stream
  pub size : object.size ≡ int (length (concat stream.chunks))
  pub bounded : length (concat stream.chunks) ≤ max_publish_meta_bytes
  pub decoded : utf8 (concat stream.chunks) ≡ some text

read_text-eq-some :
    (utf8 : List ℕ → Option String) (size : ℕ) (stream : BodyStream) {text : String}
    → read_text utf8 size stream ≡ some text
    → (size ≡ length (concat stream.chunks)) × (utf8 (concat stream.chunks) ≡ some text)
unfolding read_text exactly
read_text-eq-some utf8 size stream {text} h = elim (Option-cases (counted size 0 stream.chunks)) [
  | inl e ↦ ground arith
  | inr (n, e) ↦ let k = counted-eq-some size 0 stream.chunks e in ground arith
]

object_text-IsText :
    (utf8 : List ℕ → Option String) (object : R2Object) {text : String}
    → object_text utf8 object ≡ some text
    → IsText utf8 object text
unfolding object_text
object_text-IsText utf8 object {text} h = elim (Option-cases (as_nat object.size)) [
  | inl e ↦ cc (let k = rw (e, object_text) at h in k)
  | inr (size, e) ↦ elim (Option-cases object.body) [
    | inl b ↦ cc (let k = rw (e, b, object_text) at h in k)
    | inr (stream, b) ↦
        let k = rw (e, b, object_text) at h in
        let small : size ≤ max_publish_meta_bytes = ground arith in
        let r : read_text utf8 size stream ≡ some text = ground arith in
        let (same, decoded) = read_text-eq-some utf8 size stream r in
        record {
          stream = stream;
          body = b;
          size = (as_nat-eq-some object.size e).0 ∙ ap int same;
          bounded = omega arith;
          decoded = decoded;
        }
  ]
]

-- What is read back is a public document in an object that is not marked otherwise, the whole of
-- the object's bytes and within the size limit.
pub read_json_object-IsPublicDocument :
    (rt : ReadRuntime) (found : Option R2Object) {v : Json}
    → read_json_object rt found ≡ ok (some v)
    → (object : R2Object) × (found ≡ some object) × IsPublicDocument rt object v
unfolding read_json_object parsed
read_json_object-IsPublicDocument rt none h = cc (ok-injective h)
read_json_object-IsPublicDocument rt (some object) {v} h = followed _ _ h λ marked rest.
    elim (Option-cases (object_text rt.utf8 object)) [
      | inl e ↦ cc (let k = (disclosed-eq-ok _ rest).0 in rw e at k)
      | inr (text, e) ↦
          let (read, public, facts) = disclosed-eq-ok _ rest in
          let t = object_text-IsText rt.utf8 object e in
          (
            object,
            refl,
            record {
              marked = marked_of _ marked;
              stream = t.stream;
              body = t.body;
              size = t.size;
              bounded = t.bounded;
              text = text;
              decoded = t.decoded;
              read = rw e at read;
              public = public;
              facts = facts;
            },
          )
    ]
