-- ===== src/Json.antt =====
-- Values of JavaScript as `JSON.parse` and the callers' options supply them, and the tests that the
-- code makes on them: `typeof`, `Number.isSafeInteger`, `=== "text"`, property access and
-- `Object.keys`. An object is the list of its own properties. `undefined` is a missing property.
use zed_infra.Base.{
  ℕ, suc, ◌-◌, ◌^◌, ◌≤◌, ◌≡◌, String, Bool, true, false, not, Option, none, some, List, [], ◌∷◌,
  leb, ◌===◌, ===_iff, ===_comm, refl, if◌then◌else◌, arith,
}

mutual
  -- `int n` is n, `neg n` is -(n + 1); any other number (a fraction, an infinity, NaN) is known by
  -- how it prints, since the code only finds that it is no safe integer.
  pub data Json : Type 0 where
    undefined null : Json
    bool : Bool → Json
    int neg : ℕ → Json
    frac : String → Json
    str : String → Json
    arr : Items → Json
    obj : Fields → Json

  pub data Items : Type 0 where
    nil : Items
    item : Json → Items → Items

  pub data Fields : Type 0 where
    end : Fields
    field : String → Json → Fields → Fields

unfoldable pub items : Items → List Json
items nil = []
items (item v vs) = v ∷ items vs

unfoldable pub field_of : String → Fields → Json
field_of k end = undefined
field_of k (field j v fs) = if j === k then v else field_of k fs

-- `value.k`, of what is no object too
unfoldable pub get : String → Json → Json
unfolding field_of
get k (obj fs) = field_of k fs
get k v = undefined

unfoldable pub keys_of : Fields → List String
keys_of end = []
keys_of (field k v fs) = k ∷ keys_of fs

-- `typeof v === "object" && v !== null && !Array.isArray(v)`
unfoldable pub is_record : Json → Bool
is_record (obj fs) = true
is_record v = false

-- `!v || typeof v !== "object"` of an object or an array fails
unfoldable pub is_object_like : Json → Bool
is_object_like (obj fs) = true
is_object_like (arr vs) = true
is_object_like v = false

-- `Object.keys(v)` of a record
unfoldable pub keys : Json → List String
unfolding keys_of
keys (obj fs) = keys_of fs
keys v = []

-- `typeof v === "string"`, with the string
unfoldable pub as_str : Json → Option String
as_str (str s) = some s
as_str v = none

-- `Array.isArray(v)`, with the elements
unfoldable pub as_arr : Json → Option (List Json)
unfolding items
as_arr (arr vs) = some (items vs)
as_arr v = none

abbrev pub max_safe_integer : ℕ
max_safe_integer = 2 ^ 53 - 1

-- `Number.isSafeInteger(v) && v >= 0`, with the number
unfoldable pub as_nat : Json → Option ℕ
as_nat (int n) = if leb n max_safe_integer then some n else none
as_nat v = none

-- `v === s` for a string s
unfoldable pub is_str : String → Json → Bool
is_str s (str t) = t === s
is_str s v = false

-- `v === undefined`
unfoldable pub is_undefined : Json → Bool
is_undefined undefined = true
is_undefined v = false

-- `v ?? d`
unfoldable pub or_else : Json → Json → Json
or_else undefined d = d
or_else null d = d
or_else v d = v

-- JavaScript's truth
unfoldable pub truthy : Json → Bool
truthy undefined = false
truthy null = false
truthy (bool b) = b
truthy (int n) = not (leb n 0)
truthy (neg n) = true
truthy (frac s) = not (s === "NaN")
truthy (str s) = not (s === "")
truthy (arr vs) = true
truthy (obj fs) = true

pub is_str-eq-true : (s : String) (v : Json) → is_str s v ≡ true → v ≡ str s
unfolding is_str
is_str-eq-true s (str t) h = ground (arith, ===_iff t s)
is_str-eq-true s undefined h = ground arith
is_str-eq-true s v h = ground arith

pub is_str_refl : (s : String) → is_str s (str s) ≡ true
unfolding is_str
is_str_refl s = ground (arith, ===_iff s s)

pub as_str-eq-some : (v : Json) {s : String} → as_str v ≡ some s → v ≡ str s
unfolding as_str
as_str-eq-some (str t) h = ground arith
as_str-eq-some undefined h = ground arith
as_str-eq-some v h = ground arith

pub as_nat-eq-some : (v : Json) {n : ℕ} → as_nat v ≡ some n → (v ≡ int n) × (n ≤ max_safe_integer)
unfolding as_nat
as_nat-eq-some (int m) h = ground arith
as_nat-eq-some undefined h = ground arith
as_nat-eq-some v h = ground arith

-- A string that passes a test: `typeof v === "string" && test(v)`.
unfoldable pub checked : (String → Bool) → Json → Option String
checked p (str s) = if p s then some s else none
checked p v = none

pub checked-eq-some :
    (p : String → Bool) (v : Json) {s : String} → checked p v ≡ some s → (v ≡ str s) × (p s ≡ true)
unfolding checked
checked-eq-some p (str t) h = ground arith
checked-eq-some p undefined h = ground arith
checked-eq-some p v h = ground arith

-- `v === s` with the value's own string
unfoldable pub exactly_str : String → Json → Option String
unfolding checked
exactly_str s v = checked (λ t. t === s) v

pub exactly_str-eq-some :
    (s : String) (v : Json) {t : String} → exactly_str s v ≡ some t → (v ≡ str t) × (t ≡ s)
unfolding exactly_str
exactly_str-eq-some s v {t} h =
    let (same, passes) = checked-eq-some _ v h in (same, (===_iff t s).0 passes)

-- `u === v` of two strings
unfoldable pub same_str : Json → Json → Bool
same_str (str s) (str t) = s === t
same_str _ _ = false

pub same_str_comm : (u v : Json) → same_str u v ≡ same_str v u
unfolding same_str
same_str_comm (str s) (str t) = ===_comm s t
same_str_comm (str s) _ = refl
same_str_comm _ (str t) = refl
same_str_comm _ _ = refl

pub same_str_refl : (s : String) → same_str (str s) (str s) ≡ true
unfolding same_str
same_str_refl s = ground (arith, ===_iff s s)

-- An integer, as the difference `up - down`.
pub record Integer : Type 0 where
  pub up : ℕ
  pub down : ℕ

-- `Number.isSafeInteger(v)`, with the integer
unfoldable pub as_int : Json → Option Integer
as_int (int n) = if leb n max_safe_integer then some (record { up = n; down = 0 }) else none
as_int (neg n) =
    if leb (suc n) max_safe_integer then some (record { up = 0; down = suc n }) else none
as_int v = none

-- `Object.entries(v)` of a record
unfoldable pub entries_of : Fields → List (String × Json)
entries_of end = []
entries_of (field k v fs) = (k, v) ∷ entries_of fs

unfoldable pub entries : Json → List (String × Json)
unfolding entries_of
entries (obj fs) = entries_of fs
entries v = []
