-- ===== src/Envelope/Text.antt =====
-- lib/sippycup/envelope.py, the tests on the characters of a text, and its first character.
use Prim.Native.Char.{Char, code}
use Prim.Native.String.{String, [], ◌∷◌}
use mathlib.Core.Bool.{Bool, true, false, ◌&&◌, ◌||◌}
use sippycup.Prelude.{leb, ◌==◌}

unfoldable pub all_characters : (Char → Bool) → String → Bool
all_characters p [] = true
all_characters p (c ∷ s) = p c && all_characters p s

-- `value[0]` passes the test, and is there.
unfoldable pub first_character : (Char → Bool) → String → Bool
first_character p [] = false
first_character p (c ∷ s) = p c

abbrev pub is_lower : Char → Bool
is_lower c = leb 97 (code c) && leb (code c) 122

abbrev pub is_digit : Char → Bool
is_digit c = leb 48 (code c) && leb (code c) 57

-- `in "abcdefghijklmnopqrstuvwxyz0123456789-"`.
abbrev pub is_name_character : Char → Bool
is_name_character c = is_lower c || is_digit c || code c == 45

-- `in "0123456789abcdef"`.
abbrev pub is_hex : Char → Bool
is_hex c = is_digit c || (leb 97 (code c) && leb (code c) 102)
