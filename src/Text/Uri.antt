-- ===== src/Text/Uri.antt =====
-- `encodeURIComponent`: the unreserved characters stay, any other is the percent-encoding of its
-- UTF-8 bytes.
use kirimkode_partner.Base.{
  ℕ, ◌+◌, ◌/◌, ◌%◌, Bool, ◌&&◌, ◌||◌, [], ◌∷◌, ◌++◌, leb, ltb, ◌==◌, if◌then◌else◌,
}
use kirimkode_partner.Text.{Text}

pub is_unreserved : ℕ → Bool
is_unreserved c =
    (leb 65 c && leb c 90)
    || (leb 97 c && leb c 122)
    || (leb 48 c && leb c 57)
    || (c == 45)
    || (c == 95)
    || (c == 46)
    || (c == 33)
    || (c == 126)
    || (c == 42)
    || (c == 39)
    || (c == 40)
    || (c == 41)

pub hex_digit : ℕ → ℕ
hex_digit n = if ltb n 10 then 48 + n else 55 + n

pub percent : ℕ → Text
unfolding hex_digit
percent b = 37 ∷ hex_digit (b / 16) ∷ hex_digit (b % 16) ∷ []

pub encode_char : ℕ → Text
unfolding is_unreserved percent
encode_char c =
    if is_unreserved c
    then c ∷ []
    else if ltb c 0x80
    then percent c
    else if ltb c 0x800
    then percent (0xc0 + c / 64) ++ percent (0x80 + c % 64)
    else if ltb c 0x10000
    then percent (0xe0 + c / 4096) ++ (percent (0x80 + c / 64 % 64) ++ percent (0x80 + c % 64))
    else percent (0xf0 + c / 262144)
      ++ (percent (0x80 + c / 4096 % 64)
          ++ (percent (0x80 + c / 64 % 64) ++ percent (0x80 + c % 64)))

unfoldable pub encode_uri_component : Text → Text
unfolding encode_char
encode_uri_component [] = []
encode_uri_component (c ∷ s) = encode_char c ++ encode_uri_component s
