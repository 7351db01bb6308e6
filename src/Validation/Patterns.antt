-- ===== src/Validation/Patterns.antt =====
-- The regular expressions of src/edition-actions/action-validation.ts.
use Prim.Native.Char.{Char, code}
use Prim.Native.String.{String, [], ◌∷◌}
use intereng_api.Base.{Bool, true, false, not, ◌&&◌, ◌||◌, leb, ◌==◌, if◌then◌else◌}
use intereng_api.Base.Text.{length, all, is_empty, is_digit, is_alphanumeric, is_space}

-- [A-Za-z0-9._:-]
abbrev pub is_id_char : Char → Bool
is_id_char c = is_alphanumeric c || code c == 46 || code c == 95 || code c == 58 || code c == 45

-- ID_PATTERN; a text of more than 128 characters does not match.
unfoldable pub is_id : String → Bool
is_id [] = false
is_id (c ∷ s) = is_alphanumeric c && all is_id_char s && leb (length s) 127

-- TIME_PATTERN
unfoldable pub is_time : String → Bool
is_time (a ∷ b ∷ c ∷ d ∷ e ∷ []) =
    (((code a == 48 || code a == 49) && is_digit b)
      || (code a == 50 && leb 48 (code b) && leb (code b) 51))
    && code c == 58
    && leb 48 (code d)
    && leb (code d) 53
    && is_digit e
is_time _ = false

-- DATE_PATTERN
unfoldable pub is_date_text : String → Bool
is_date_text (a ∷ b ∷ c ∷ d ∷ e ∷ f ∷ g ∷ h ∷ i ∷ j ∷ []) =
    is_digit a
    && is_digit b
    && is_digit c
    && is_digit d
    && code e == 45
    && is_digit f
    && is_digit g
    && code h == 45
    && is_digit i
    && is_digit j
is_date_text _ = false

-- [^\s@]
abbrev is_mail_char : Char → Bool
is_mail_char c = not (is_space c) && not (code c == 64)

-- Whether a dot stands inside, `seen` once a character stands before it.
unfoldable pub has_inner_dot : Bool → String → Bool
has_inner_dot seen [] = false
has_inner_dot seen (c ∷ s) = (seen && code c == 46 && not (is_empty s)) || has_inner_dot true s

-- The pattern of `actionEmail`, `seen` once a character of the local part was read.
unfoldable pub is_email : Bool → String → Bool
is_email seen [] = false
is_email seen (c ∷ s) =
    if code c == 64
    then seen && all is_mail_char s && has_inner_dot false s
    else is_mail_char c && is_email true s
