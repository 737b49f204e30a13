-- ===== src/Base/Text.antt =====
-- JavaScript strings. Positions and lengths count UTF-16 code units; a lone surrogate, which is
-- no character, does not occur.
use Prim.Native.Nat.{ℕ, ◌+◌, ◌≤◌, ◌<◌}
use Prim.Native.Char.{Char, code}
use Prim.Native.String
use Prim.Native.String.{String}
use mathlib.Core.Path.{◌≡◌, refl}
use mathlib.Core.Logic.{◌↔◌, ◌≢◌}
use mathlib.Core.Bool.{Bool, true, false, ◌&&◌, ◌||◌}
use mathlib.Core.Option.{Option, none, some}
use mathlib.Core.List.{List, [], ◌∷◌}
use native.Mathlib.Omega.{arith}
use text.Mathlib.Text.{◌==◌ as str_eq}
use text.Mathlib.TextEquality.{eq_iff, Char-path}
use text.Mathlib.TextLemmas.{nil-append, cons-append}
use zed_infra.Base.Tests.{leb, ltb, ◌==◌, if◌then◌else◌, and-true}

infix 50 ◌===◌
abbrev pub ◌===◌ : String → String → Bool
◌===◌ = str_eq

pub ===_iff : (s t : String) → ((s === t) ≡ true) ↔ (s ≡ t)
===_iff = eq_iff

pub ===_comm : (s t : String) → (s === t) ≡ (t === s)
===_comm s t = ground (arith, eq_iff s t, eq_iff t s)

infixl 65 ◌⧺◌
-- `s + t` of strings, and a template's parts
abbrev pub ◌⧺◌ : String → String → String
◌⧺◌ = String.◌++◌

-- `s.length`
unfoldable pub size : String → ℕ
size String.[] = 0
size (String.◌∷◌ c s) = (if ltb (code c) 0x10000 then 1 else 2) + size s

-- every character is of a class
unfoldable pub every : (ℕ → Bool) → String → Bool
every p String.[] = true
every p (String.◌∷◌ c s) = p (code c) && every p s

-- `s.includes(c)` for a character c
unfoldable pub includes : ℕ → String → Bool
includes k String.[] = false
includes k (String.◌∷◌ c s) = (code c == k) || includes k s

push_first : Char → List String → List String
push_first c [] = String.◌∷◌ c "" ∷ []
push_first c (w ∷ ws) = String.◌∷◌ c w ∷ ws

-- `s.split(k)` for a character k
unfoldable pub split : ℕ → String → List String
unfolding push_first
split k String.[] = "" ∷ []
split k (String.◌∷◌ c s) =
    let rest = split k s in if code c == k then "" ∷ rest else push_first c rest

-- `parts.join(k)`
unfoldable pub join : String → List String → String
join k [] = ""
join k (w ∷ []) = w
join k (w ∷ v ∷ ws) = w ⧺ k ⧺ join k (v ∷ ws)

-- `s.startsWith(t) ? s.slice(t.length) : null`
unfoldable pub strip_prefix : String → String → Option String
strip_prefix String.[] s = some s
strip_prefix (String.◌∷◌ c t) String.[] = none
strip_prefix (String.◌∷◌ c t) (String.◌∷◌ d s) = if code c == code d then strip_prefix t s else none

-- `s.includes(t)`
unfoldable pub contains : String → String → Bool
unfolding strip_prefix
contains t String.[] = t === ""
contains t (String.◌∷◌ c s) =
    let rest = contains t s in
    elim (strip_prefix t (String.◌∷◌ c s)) [ none ↦ rest | some after ↦ true ]

-- `s.replace(/\/+$/, "")`
unfoldable pub strip_slashes : String → String
strip_slashes String.[] = ""
strip_slashes (String.◌∷◌ c s) =
    let rest = strip_slashes s in if (code c == b'/') && rest === "" then "" else String.◌∷◌ c rest

-- `set.has(s)` for a set of strings
unfoldable pub member : String → List String → Bool
member s [] = false
member s (t ∷ ts) = (s === t) || member s ts

-- Character classes.
unfoldable pub is_lower : ℕ → Bool
is_lower c = leb b'a' c && leb c b'z'

unfoldable pub is_upper : ℕ → Bool
is_upper c = leb b'A' c && leb c b'Z'

unfoldable pub is_digit : ℕ → Bool
is_digit c = leb b'0' c && leb c b'9'

unfoldable pub is_alnum : ℕ → Bool
unfolding is_lower is_upper is_digit
is_alnum c = is_lower c || is_upper c || is_digit c

unfoldable pub is_lower_alnum : ℕ → Bool
unfolding is_lower is_digit
is_lower_alnum c = is_lower c || is_digit c

-- `one_of "._-"` is the class `[._-]`.
unfoldable pub one_of : String → ℕ → Bool
unfolding includes
one_of cs c = includes c cs

-- `/^[first][rest]{lo,hi}$/`
unfoldable pub matches : (ℕ → Bool) → (ℕ → Bool) → ℕ → ℕ → String → Bool
unfolding every size
matches first rest lo hi String.[] = false
matches first rest lo hi (String.◌∷◌ c s) =
    first (code c) && every rest s && leb lo (size s) && leb (size s) hi

-- What `strip_prefix` leaves is the rest of the text.
pub strip_prefix-eq-some : (t s : String) {r : String} → strip_prefix t s ≡ some r → s ≡ (t ⧺ r)
unfolding strip_prefix
strip_prefix-eq-some String.[] s {r} h = let same : s ≡ r = cc h in rw nil-append same
strip_prefix-eq-some (String.◌∷◌ c t) String.[] h = cc h
strip_prefix-eq-some (String.◌∷◌ c t) (String.◌∷◌ d s) {r} h =
    let (same, rest) : (code c ≡ code d) × (strip_prefix t s ≡ some r) = ground arith in
    rw cons-append (cc (Char-path c d same, strip_prefix-eq-some t s rest))

-- A list of words with one separator after each, measured.
abbrev pub total : List String → ℕ
total [] = 0
total (w ∷ ws) = size w + 1 + total ws

total-push_first :
    (c : Char) (ws : List String)
    → ws ≢ []
    → total (push_first c ws) ≡ (if ltb (code c) 0x10000 then 1 else 2) + total ws
unfolding push_first size
total-push_first c [] h = absurd (h refl)
total-push_first c (w ∷ ws) h = omega arith

split-ne-nil : (k : ℕ) (s : String) → split k s ≢ []
unfolding split
split-ne-nil k String.[] = cc
split-ne-nil k (String.◌∷◌ c s) = ground arith

-- Splitting at a character of the basic plane loses nothing.
pub total-split : (k : ℕ) (s : String) → k < 0x10000 → total (split k s) ≡ size s + 1
unfolding split size
total-split k String.[] h = refl
total-split k (String.◌∷◌ c s) h =
    ground (arith, total-split k s h, total-push_first c (split k s) (split-ne-nil k s))

pub size-pos : (s : String) → s ≢ "" → 1 ≤ size s
unfolding size
size-pos String.[] h = absurd (h refl)
size-pos (String.◌∷◌ c s) h = ground arith

-- A wider class matches what a narrower one does.
every_mono :
    (p q : ℕ → Bool)
    → ((c : ℕ) → p c ≡ true → q c ≡ true)
    → (s : String) → every p s ≡ true
    → every q s ≡ true
unfolding every
every_mono p q wider String.[] h = refl
every_mono p q wider (String.◌∷◌ c s) h =
    let (here, later) = and-true (p (code c)) _ h in
    rw (wider (code c) here, every_mono p q wider s later)

pub matches_mono :
    (first p q : ℕ → Bool) (lo hi lo' hi' : ℕ)
    → ((c : ℕ) → p c ≡ true → q c ≡ true)
    → lo' ≤ lo
    → hi ≤ hi'
    → (s : String) → matches first p lo hi s ≡ true
    → matches first q lo' hi' s ≡ true
unfolding matches
matches_mono first p q lo hi lo' hi' wider l r String.[] h = h
matches_mono first p q lo hi lo' hi' wider l r (String.◌∷◌ c s) h =
    let e : every p s ≡ true = ground arith in ground (arith, every_mono p q wider s e)
