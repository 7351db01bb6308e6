-- ===== src/Base/Text.antt =====
-- What the code uses of the texts of JavaScript: `trim`, `length` in UTF-16 units, and the classes of
-- characters in its regular expressions.
use Prim.Native.Char.{Char, code}
use Prim.Native.String.{String, [], ◌∷◌}
use intereng_api.Base.{
  ℕ, ◌+◌, ◌≡◌, refl, arith, Bool, true, false, Option, none, some, ◌&&◌, ◌||◌, leb, ltb, ◌==◌,
  if◌then◌else◌,
}

-- White space and line ends.
unfoldable pub is_space : Char → Bool
is_space c =
    let n = code c in
    (leb 9 n && leb n 13)
    || n == 32
    || n == 160
    || n == 5760
    || (leb 8192 n && leb n 8202)
    || n == 8232
    || n == 8233
    || n == 8239
    || n == 8287
    || n == 12288
    || n == 65279

-- text.length
unfoldable pub length : String → ℕ
length [] = 0
length (c ∷ s) = (if ltb (code c) 65536 then 1 else 2) + length s

abbrev pub is_empty : String → Bool
is_empty [] = true
is_empty (c ∷ s) = false

unfoldable pub trim_start : String → String
trim_start [] = []
trim_start (c ∷ s) = let rest = trim_start s in if is_space c then rest else c ∷ s

unfoldable pub trim_end : String → String
trim_end [] = []
trim_end (c ∷ s) = let rest = trim_end s in if is_space c && is_empty rest then [] else c ∷ rest

-- text.trim()
unfoldable pub trim : String → String
unfolding trim_start trim_end
trim s = trim_end (trim_start s)

-- What follows a prefix.
unfoldable pub strip_prefix : String → String → Option String
strip_prefix [] s = some s
strip_prefix (c ∷ p) [] = none
strip_prefix (c ∷ p) (d ∷ s) =
    let rest = strip_prefix p s in if code c == code d then rest else none

-- \d
abbrev pub is_digit : Char → Bool
is_digit c = leb 48 (code c) && leb (code c) 57

-- [A-Za-z0-9]
abbrev pub is_alphanumeric : Char → Bool
is_alphanumeric c =
    is_digit c || (leb 65 (code c) && leb (code c) 90) || (leb 97 (code c) && leb (code c) 122)

unfoldable pub all : (Char → Bool) → String → Bool
all p [] = true
all p (c ∷ s) = p c && all p s

trim_end-trim_end : (s : String) → trim_end (trim_end s) ≡ trim_end s
unfolding trim_end
trim_end-trim_end [] = refl
trim_end-trim_end (c ∷ s) = ground (arith, trim_end-trim_end s)

-- A text that does not begin with white space.
abbrev starts_clean : String → Bool
starts_clean [] = true
starts_clean (c ∷ s) = if is_space c then false else true

trim_start-clean : (s : String) → starts_clean (trim_start s) ≡ true
unfolding trim_start
trim_start-clean [] = refl
trim_start-clean (c ∷ s) = ground (arith, trim_start-clean s)

trim_end-clean : (s : String) → starts_clean s ≡ true → starts_clean (trim_end s) ≡ true
unfolding trim_end
trim_end-clean [] h = refl
trim_end-clean (c ∷ s) h = ground arith

trim_start_of_clean : (s : String) → starts_clean s ≡ true → trim_start s ≡ s
unfolding trim_start
trim_start_of_clean [] h = refl
trim_start_of_clean (c ∷ s) h = ground arith

pub trim-trim : (s : String) → trim (trim s) ≡ trim s
unfolding trim
trim-trim s =
    rw
      (trim_start_of_clean (trim_end (trim_start s))
        (trim_end-clean (trim_start s) (trim_start-clean s)))
      (trim_end-trim_end (trim_start s))
