-- ===== src/Http.antt =====
-- What several workers read of HTTP headers: trimming, letter case, and media types.
use zed_infra.Base.{
  ℕ, String, Char, code, Bool, false, ◌&&◌, ◌||◌, Option, none, some, leb, ◌==◌, ◌===◌, split,
  strip_prefix, is_lower_alnum, one_of, any, if◌then◌else◌,
}

-- JavaScript's white space and line ends
unfoldable pub is_space : ℕ → Bool
is_space c =
    (leb 9 c && leb c 13)
    || c == 0x20
    || c == 0xa0
    || c == 0x1680
    || (leb 0x2000 c && leb c 0x200a)
    || c == 0x2028
    || c == 0x2029
    || c == 0x202f
    || c == 0x205f
    || c == 0x3000
    || c == 0xfeff

unfoldable pub trim_start : String → String
unfolding is_space
trim_start String.[] = ""
trim_start (String.◌∷◌ c s) = if is_space (code c) then trim_start s else String.◌∷◌ c s

unfoldable pub trim_end : String → String
unfolding is_space
trim_end String.[] = ""
trim_end (String.◌∷◌ c s) =
    let rest = trim_end s in if is_space (code c) && rest === "" then "" else String.◌∷◌ c rest

-- `s.trim()`
unfoldable pub trim : String → String
unfolding trim_start trim_end
trim s = trim_end (trim_start s)

-- The lower case of a letter among `A` to `Z`, found in the row of the alphabet.
letter : ℕ → String → String → Char → Char
letter n (String.◌∷◌ u us) (String.◌∷◌ l ls) c = if code u == n then l else letter n us ls c
letter n _ _ c = c

-- `s.toLowerCase()`, for texts that are compared with ASCII ones
unfoldable pub to_lower : String → String
unfolding letter
to_lower String.[] = ""
to_lower (String.◌∷◌ c s) =
    String.◌∷◌ (letter (code c) "ABCDEFGHIJKLMNOPQRSTUVWXYZ" "abcdefghijklmnopqrstuvwxyz" c)
      (to_lower s)

-- `s.toUpperCase()`, for ASCII texts
unfoldable pub to_upper : String → String
unfolding letter
to_upper String.[] = ""
to_upper (String.◌∷◌ c s) =
    String.◌∷◌ (letter (code c) "abcdefghijklmnopqrstuvwxyz" "ABCDEFGHIJKLMNOPQRSTUVWXYZ" c)
      (to_upper s)

-- `Cache-Control` lists `no-store`.
unfoldable pub has_no_store : Option String → Bool
unfolding trim to_lower split
has_no_store none = false
has_no_store (some value) = any (λ part. to_lower (trim part) === "no-store") (split b',' value)

-- `(?:\s*;|$)`
ends_or_parameter : String → Bool
unfolding trim_start
ends_or_parameter s = s === "" || semicolon (trim_start s)
  where
    semicolon : String → Bool
    semicolon String.[] = false
    semicolon (String.◌∷◌ c s) = code c == b';'

unfoldable pub ended : Option String → Bool
unfolding ends_or_parameter
ended none = false
ended (some rest) = ends_or_parameter rest

-- `(?:[a-z0-9.+-]*\+)?json(?:\s*;|$)`
json_type : String → Bool
unfolding ended strip_prefix is_lower_alnum one_of
json_type String.[] = false
json_type (String.◌∷◌ c s) =
    ended (strip_prefix "json" (String.◌∷◌ c s)) || suffixed (String.◌∷◌ c s)
  where
    suffixed : String → Bool
    suffixed String.[] = false
    suffixed (String.◌∷◌ c s) =
        ((code c == b'+') && ended (strip_prefix "json" s))
        || ((is_lower_alnum (code c) || one_of ".+-" (code c)) && suffixed s)

under_application : Option String → Bool
unfolding json_type
under_application none = false
under_application (some rest) = json_type rest

-- `/^application\/(?:[a-z0-9.+-]*\+)?json(?:\s*;|$)/i`
unfoldable pub is_json_type : String → Bool
unfolding under_application strip_prefix to_lower
is_json_type s = under_application (strip_prefix "application/" (to_lower s))
