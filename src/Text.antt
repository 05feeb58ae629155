-- ===== src/Text.antt =====
-- `std::string` as the list of its bytes, and the functions of the standard library that the sources
-- call on it: `tolower`, `isalnum`, `rfind(w, 0)`, `find`, `substr`, `std::stoi`, `std::to_string`.
use Prim.Native.Char.{code}
use dpp_bot.Base.{
  ℕ, suc, zero, ◌+◌, ◌-◌, ◌*◌, ◌/◌, ◌%◌, String, Bool, true, false, ◌&&◌, ◌||◌, Option, none, some,
  List, [], ◌∷◌, ◌++◌, ltb, leb, ◌==◌, if◌then◌else◌, ℤ, pos, negsuc, int_max,
}

abbrev pub Text : Type 0
Text = List ℕ

-- The UTF-8 bytes of a code point.
unfoldable pub utf8 : ℕ → Text
utf8 c =
    if ltb c 0x80
    then c ∷ []
    else if ltb c 0x800
    then (0xC0 + c / 64) ∷ (0x80 + c % 64) ∷ []
    else if ltb c 0x10000
    then (0xE0 + c / 4096) ∷ (0x80 + c / 64 % 64) ∷ (0x80 + c % 64) ∷ []
    else (0xF0 + c / 262144) ∷ (0x80 + c / 4096 % 64) ∷ (0x80 + c / 64 % 64) ∷ (0x80 + c % 64) ∷ []

-- A string literal of the sources.
unfoldable pub text : String → Text
unfolding utf8
text String.[] = []
text (String.◌∷◌ c s) = utf8 (code c) ++ text s

abbrev pub space : ℕ
space = b' '

unfoldable pub is_upper : ℕ → Bool
is_upper c = leb b'A' c && leb c b'Z'

-- `std::tolower` and `isalnum` in the "C" locale.
unfoldable pub to_lower : ℕ → ℕ
unfolding is_upper
to_lower c = if is_upper c then c + 32 else c

unfoldable pub is_digit : ℕ → Bool
is_digit c = leb b'0' c && leb c b'9'

unfoldable pub is_alnum : ℕ → Bool
unfolding is_upper is_digit
is_alnum c = is_digit c || (is_upper c || (leb b'a' c && leb c b'z'))

unfoldable pub text_eq : Text → Text → Bool
text_eq [] [] = true
text_eq (a ∷ s) (b ∷ t) = a == b && text_eq s t
text_eq _ _ = false

-- `s.rfind(w, 0) == 0`.
unfoldable pub starts_with : Text → Text → Bool
starts_with [] s = true
starts_with (a ∷ w) [] = false
starts_with (a ∷ w) (b ∷ s) = a == b && starts_with w s

-- `s.find(c)`, with `none` for `npos`.
unfoldable pub find_char : ℕ → Text → Option ℕ
find_char c [] = none
find_char c (a ∷ s) =
    let later = find_char c s in
    if a == c then some 0 else elim later [ none ↦ none | some i ↦ some (suc i) ]

unfoldable pub has_char : ℕ → Text → Bool
unfolding find_char
has_char c s = elim (find_char c s) [ none ↦ false | some i ↦ true ]

-- The characters that `isspace` holds of.
unfoldable pub is_space : ℕ → Bool
is_space c = c == space || (leb 9 c && leb c 13)

unfoldable pub skip_space : Text → Text
unfolding is_space
skip_space [] = []
skip_space (c ∷ s) = let rest = skip_space s in if is_space c then rest else c ∷ s

-- The digits at the front of a text, as a number on top of `n`; `none` if there is no digit.
unfoldable pub read_digits : Option ℕ → ℕ → Text → Option ℕ
unfolding is_digit
read_digits found n [] = found
read_digits found n (c ∷ s) =
    let m = n * 10 + (c - b'0') in
    let more = read_digits (some m) m s in if is_digit c then more else found

-- What `strtol` makes of a sign and a number, and `stoi`'s range check: `none` is an exception.
unfoldable pub signed : Bool → Option ℕ → Option ℤ
signed minus none = none
signed false (some n) = if leb n int_max then some (pos n) else none
signed true (some zero) = some (pos 0)
signed true (some (suc n)) = if leb n int_max then some (negsuc n) else none

unfoldable pub read_signed : Text → Option ℤ
unfolding signed read_digits
read_signed [] = none
read_signed (c ∷ s) =
    if c == b'-'
    then signed true (read_digits none 0 s)
    else if c == b'+'
    then signed false (read_digits none 0 s)
    else signed false (read_digits none 0 (c ∷ s))

-- `std::stoi`: `none` stands for `invalid_argument` and `out_of_range`, which every caller catches.
unfoldable pub stoi : Text → Option ℤ
unfolding read_signed skip_space
stoi s = read_signed (skip_space s)

-- `std::to_string`, on fuel above the number of digits.
unfoldable pub digits : ℕ → ℕ → Text → Text
digits zero n out = out
digits (suc fuel) n out =
    let rest = digits fuel (n / 10) ((b'0' + n % 10) ∷ out) in
    if ltb n 10 then (b'0' + n) ∷ out else rest

unfoldable pub to_string : ℕ → Text
unfolding digits
to_string n = digits (suc n) n []

unfoldable pub int_to_string : ℤ → Text
unfolding to_string
int_to_string (pos n) = to_string n
int_to_string (negsuc n) = b'-' ∷ to_string (suc n)
