-- ===== src/FileLoader/Url.antt =====
-- `UrlEncode`: its output is safe in a query, and can be decoded.
use Prim.Native.Nat.{◌*◌}
use mathlib.Core.List.{flat_map}
use dpp_bot.Base.{
  ℕ, ◌+◌, ◌/◌, ◌%◌, ◌-◌, ◌<◌, ◌≤◌, true, ◌||◌, ◌&&◌, [], ◌∷◌, ◌++◌, ◌==◌, leb, if◌then◌else◌, All,
  All-append, ◌≡◌, refl, sym, arith, append-nil, append_assoc, Option, none, some, ◌≢◌, length,
  length-append,
}
use dpp_bot.Text.{Text, space, is_alnum}
use dpp_bot.FileLoader.{hex_digit, encode_byte, encode_from, url_encode}

-- The decoding of a form-encoded query, which the server applies to `q` and `id`.
abbrev unhex : ℕ → Option ℕ
unhex c =
    if leb b'0' c && leb c b'9'
    then some (c - b'0')
    else if leb b'A' c && leb c b'F'
    then some (c - b'A' + 10)
    else none

abbrev join_hex : Option ℕ → Option ℕ → Option ℕ
join_hex (some h) (some l) = some (h * 16 + l)
join_hex _ _ = none

abbrev push : Option ℕ → Option Text → Option Text
push (some c) (some s) = some (c ∷ s)
push _ _ = none

-- Where the decoder stands: between characters, behind a `%`, or behind its first digit.
data Mode : Type 0 where
  plain percent : Mode
  digit : Option ℕ → Mode

decode : Mode → Text → Option Text
decode plain [] = some []
decode percent [] = none
decode (digit h) [] = none
decode plain (c ∷ s) =
    let escaped = decode percent s in
    let rest = decode plain s in
    if c == b'%' then escaped else push (some (if c == b'+' then space else c)) rest
decode percent (c ∷ s) = decode (digit (unhex c)) s
decode (digit h) (c ∷ s) = push (join_hex h (unhex c)) (decode plain s)

pub url_decode : Text → Option Text
unfolding decode
url_decode s = decode plain s

unhex-hex_digit : (d : ℕ) → d < 16 → unhex (hex_digit d) ≡ some d
unfolding hex_digit
unhex-hex_digit d h = ground arith

special : (c : ℕ) → is_alnum c ≡ true → (c ≢ b'%') × (c ≢ b'+')
unfolding is_alnum
special c h = ground arith

encode_byte-decode :
    (c : ℕ) (s : Text)
    → c < 256
    → decode plain (encode_byte c ++ s) ≡ push (some c) (decode plain s)
unfolding decode encode_byte
encode_byte-decode c s h =
    ground (arith, special c, unhex-hex_digit (c / 16), unhex-hex_digit (c % 16))

encode_from-flat_map : (out s : Text) → encode_from out s ≡ out ++ flat_map encode_byte s
unfolding encode_from flat_map
encode_from-flat_map out [] = sym (append-nil out)
encode_from-flat_map out (c ∷ s) =
    simp (encode_from-flat_map (out ++ encode_byte c) s, append_assoc)

flat_map-decode : (s : Text) → All (λ c. c < 256) s → decode plain (flat_map encode_byte s) ≡ some s
unfolding flat_map
flat_map-decode [] h = unfold decode in refl
flat_map-decode (c ∷ s) (h, hs) =
    rw (encode_byte-decode c (flat_map encode_byte s) h, flat_map-decode s hs)

-- Decoding the query that `UrlEncode` writes gives back the text, whatever its bytes.
pub url_decode-url_encode : (s : Text) → All (λ c. c < 256) s → url_decode (url_encode s) ≡ some s
unfolding url_decode url_encode
url_decode-url_encode s h = rw encode_from-flat_map (flat_map-decode s h)

-- A character that a query may hold as it is: none that ends it or starts another parameter.
abbrev pub IsQueryChar : ℕ → Type 0
IsQueryChar c =
    (is_alnum c
      || (c == b'-' || (c == b'_' || (c == b'.' || (c == b'~' || (c == b'+' || c == b'%'))))))
    ≡ true

hex_digit-alnum : (d : ℕ) → d < 16 → is_alnum (hex_digit d) ≡ true
unfolding hex_digit is_alnum
hex_digit-alnum d h = ground arith

encode_byte-IsQueryChar :
    (c : ℕ) → c < 256 → All IsQueryChar (encode_byte c) × (length (encode_byte c) ≤ 3)
unfolding encode_byte
encode_byte-IsQueryChar c h = ground (arith, hex_digit-alnum (c / 16), hex_digit-alnum (c % 16))

flat_map-IsQueryChar :
    (s : Text)
    → All (λ c. c < 256) s
    → All IsQueryChar (flat_map encode_byte s) × (length (flat_map encode_byte s) ≤ 3 * length s)
unfolding flat_map
flat_map-IsQueryChar [] h = (tt, omega arith)
flat_map-IsQueryChar (c ∷ s) (h, hs) =
    let (safe, short) = encode_byte-IsQueryChar c h in
    let (rest, bound) = flat_map-IsQueryChar s hs in
    (
      All-append IsQueryChar (encode_byte c) (flat_map encode_byte s) safe rest,
      omega (arith, length-append (encode_byte c) (flat_map encode_byte s)),
    )

-- The encoded text holds letters, digits and `-_.~+%` only, so it stays one parameter of the query,
-- and is at most three times as long.
url_encode-IsQueryChar :
    (s : Text)
    → All (λ c. c < 256) s
    → All IsQueryChar (url_encode s) × (length (url_encode s) ≤ 3 * length s)
unfolding url_encode
url_encode-IsQueryChar s h = rw encode_from-flat_map (flat_map-IsQueryChar s h)
