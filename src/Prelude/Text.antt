-- ===== src/Prelude/Text.antt =====
-- Texts: concatenation and `strings.ToLower`, which is modelled on ASCII letters.
use Prim.Native.Nat.{ℕ, zero, suc, ◌+◌, ◌-◌, ◌%◌, ◌/◌}
use Prim.Native.Char.{Char, code}
use Prim.Native.String.{String, char_at}
use mathlib.Core.Bool.{Bool, ◌&&◌, ◌||◌}
use mathlib.Core.Path.{◌≡◌, refl}
use mathlib.Core.Option.{Option, none, some}
use trqsh.Prelude.Tests.{leb, ltb, nat_beq, if◌then◌else◌}
pub use Prim.Native.String.{◌++◌ as ◌<>◌}

abbrev lower_letters : String
lower_letters = "abcdefghijklmnopqrstuvwxyz"

lower_char : Char → Char
lower_char c = if leb 65 (code c) && leb (code c) 90 then char_at lower_letters (code c - 65) else c

unfoldable pub to_lower : String → String
unfolding lower_char
to_lower String.[] = String.[]
to_lower (String.◌∷◌ c s) = String.◌∷◌ (lower_char c) (to_lower s)

to_lower_example : to_lower "API.Example-9" ≡ "api.example-9"
unfolding to_lower
to_lower_example = refl

abbrev digit_letters : String
digit_letters = "0123456789"

-- The last `fuel` decimal digits of a number, before `rest`.
digits : ℕ → ℕ → String → String
digits zero n rest = rest
digits (suc fuel) n rest =
    let rest' = String.◌∷◌ (char_at digit_letters (n % 10)) rest in
    let more = digits fuel (n / 10) rest' in if ltb n 10 then rest' else more

-- `%d`
unfoldable pub decimal : ℕ → String
unfolding digits
decimal n = digits (suc n) n ""

decimal_example : decimal 65535 <> decimal 0 ≡ "655350"
unfolding decimal
decimal_example = refl

-- `strings.HasPrefix` and the rest of the text behind the prefix.
unfoldable pub strip_prefix : String → String → Option String
strip_prefix String.[] t = some t
strip_prefix (String.◌∷◌ c s) String.[] = none
strip_prefix (String.◌∷◌ c s) (String.◌∷◌ d t) =
    let rest = strip_prefix s t in if nat_beq (code c) (code d) then rest else none

abbrev prepended : Char → Option String → Option String
prepended c none = none
prepended c (some s) = some (String.◌∷◌ c s)

-- The text before the first character of a code, none where there is none (`strings.IndexByte`).
unfoldable pub before : ℕ → String → Option String
before c String.[] = none
before c (String.◌∷◌ d s) =
    let rest = before c s in if nat_beq (code d) c then some "" else prepended d rest

-- `strings.ToUpper`, on ASCII letters
abbrev upper_letters : String
upper_letters = "ABCDEFGHIJKLMNOPQRSTUVWXYZ"

upper_char : Char → Char
upper_char c =
    if leb 97 (code c) && leb (code c) 122 then char_at upper_letters (code c - 97) else c

unfoldable pub to_upper : String → String
unfolding upper_char
to_upper String.[] = String.[]
to_upper (String.◌∷◌ c s) = String.◌∷◌ (upper_char c) (to_upper s)

-- `strings.TrimSpace`, on the ASCII white space
abbrev is_space : Char → Bool
is_space c = leb 9 (code c) && leb (code c) 13 || nat_beq (code c) 32

trim_left : String → String
trim_left String.[] = String.[]
trim_left (String.◌∷◌ c s) = let rest = trim_left s in if is_space c then rest else String.◌∷◌ c s

abbrev kept : Char → String → String
kept c String.[] = if is_space c then String.[] else String.◌∷◌ c String.[]
kept c (String.◌∷◌ d s) = String.◌∷◌ c (String.◌∷◌ d s)

trim_right : String → String
trim_right String.[] = String.[]
trim_right (String.◌∷◌ c s) = kept c (trim_right s)

unfoldable pub trim_space : String → String
unfolding trim_left trim_right
trim_space s = trim_right (trim_left s)

trim_space_example : to_upper (trim_space "  wdjb mjht ") ≡ "WDJB MJHT"
unfolding to_upper trim_space
trim_space_example = refl

-- The bytes of a character in UTF-8.
abbrev char_bytes : Char → ℕ
char_bytes c =
    if ltb (code c) 0x80
    then 1
    else if ltb (code c) 0x800
    then 2
    else if ltb (code c) 0x10000
    then 3
    else 4

-- `len` of a text
unfoldable pub byte_length : String → ℕ
byte_length String.[] = 0
byte_length (String.◌∷◌ c s) = char_bytes c + byte_length s

abbrev kept_slash : Char → String → String
kept_slash c String.[] = if nat_beq (code c) 47 then String.[] else String.◌∷◌ c String.[]
kept_slash c (String.◌∷◌ d s) = String.◌∷◌ c (String.◌∷◌ d s)

-- strings.TrimRight(s, "/")
unfoldable pub trim_right_slash : String → String
trim_right_slash String.[] = String.[]
trim_right_slash (String.◌∷◌ c s) = kept_slash c (trim_right_slash s)
