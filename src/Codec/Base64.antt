-- ===== src/Codec/Base64.antt =====
-- encoding/base64 without padding: `RawURLEncoding` and `RawStdEncoding`. The decoder is not strict: it
-- skips line breaks, and does not look at the bits behind the last byte.
pub mod RoundTrip
use gearshare.Prelude.{
  ℕ, ◌+◌, ◌-◌, ◌*◌, ◌/◌, ◌%◌, Bool, ◌&&◌, ◌||◌, Option, none, some, List, [], ◌∷◌, ◌++◌, ltb, leb,
  ◌==◌, if◌then◌else◌,
}

pub data Alphabet : Type 0 where
  raw_url raw_std : Alphabet

-- The characters of the last two values.
abbrev pub char_62 : Alphabet → ℕ
char_62 raw_url = b'-'
char_62 raw_std = b'+'

abbrev pub char_63 : Alphabet → ℕ
char_63 raw_url = b'_'
char_63 raw_std = b'/'

unfoldable pub char_of : Alphabet → ℕ → ℕ
char_of alphabet v =
    if ltb v 26
    then b'A' + v
    else if ltb v 52
    then b'a' + (v - 26)
    else if ltb v 62
    then b'0' + (v - 52)
    else if v == 62
    then char_62 alphabet
    else char_63 alphabet

unfoldable pub value_of : Alphabet → ℕ → Option ℕ
value_of alphabet c =
    if leb b'A' c && leb c b'Z'
    then some (c - b'A')
    else if leb b'a' c && leb c b'z'
    then some (c - b'a' + 26)
    else if leb b'0' c && leb c b'9'
    then some (c - b'0' + 52)
    else if c == char_62 alphabet
    then some 62
    else if c == char_63 alphabet
    then some 63
    else none

unfoldable pub encode : Alphabet → List ℕ → List ℕ
unfolding char_of
encode alphabet [] = []
encode alphabet (a ∷ []) = char_of alphabet (a / 4) ∷ char_of alphabet (a % 4 * 16) ∷ []
encode alphabet (a ∷ b ∷ []) =
    char_of alphabet (a / 4)
    ∷ char_of alphabet (a % 4 * 16 + b / 16)
    ∷ char_of alphabet (b % 16 * 4)
    ∷ []
encode alphabet (a ∷ b ∷ c ∷ s) =
    char_of alphabet (a / 4)
    ∷ char_of alphabet (a % 4 * 16 + b / 16)
    ∷ char_of alphabet (b % 16 * 4 + c / 64)
    ∷ char_of alphabet (c % 64)
    ∷ encode alphabet s

abbrev cons_value : Option ℕ → Option (List ℕ) → Option (List ℕ)
cons_value none rest = none
cons_value (some v) none = none
cons_value (some v) (some vs) = some (v ∷ vs)

-- The values of the characters, line breaks skipped.
unfoldable pub values : Alphabet → List ℕ → Option (List ℕ)
unfolding value_of
values alphabet [] = some []
values alphabet (c ∷ s) =
    let rest = values alphabet s in
    if c == 10 || c == 13 then rest else cons_value (value_of alphabet c) rest

abbrev prefix : ℕ → ℕ → ℕ → Option (List ℕ) → Option (List ℕ)
prefix a b c none = none
prefix a b c (some s) = some (a ∷ b ∷ c ∷ s)

-- Four values are three bytes; a value alone is an error.
unfoldable pub join : List ℕ → Option (List ℕ)
join [] = some []
join (p ∷ []) = none
join (p ∷ q ∷ []) = some ((p * 4 + q / 16) ∷ [])
join (p ∷ q ∷ r ∷ []) = some ((p * 4 + q / 16) ∷ (q % 16 * 16 + r / 4) ∷ [])
join (p ∷ q ∷ r ∷ t ∷ vs) = prefix (p * 4 + q / 16) (q % 16 * 16 + r / 4) (r % 4 * 64 + t) (join vs)

abbrev joined : Option (List ℕ) → Option (List ℕ)
joined none = none
joined (some vs) = join vs

unfoldable pub decode : Alphabet → List ℕ → Option (List ℕ)
unfolding values join
decode alphabet s = joined (values alphabet s)

-- `StdEncoding`, with padding.
unfoldable pub padding : List ℕ → List ℕ
padding [] = []
padding (a ∷ []) = b'=' ∷ b'=' ∷ []
padding (a ∷ b ∷ []) = b'=' ∷ []
padding (a ∷ b ∷ c ∷ s) = padding s

unfoldable pub encode_std : List ℕ → List ℕ
unfolding encode padding
encode_std s = encode raw_std s ++ padding s

-- The decoder wants whole groups of four: the last one may end in one or two signs of padding.
abbrev last_group : ℕ → ℕ → ℕ → ℕ → List ℕ
last_group p q r t =
    if t == b'=' then (if r == b'=' then p ∷ q ∷ [] else p ∷ q ∷ r ∷ []) else p ∷ q ∷ r ∷ t ∷ []

abbrev before_group : ℕ → ℕ → ℕ → ℕ → Option (List ℕ) → Option (List ℕ)
before_group p q r t none = none
before_group p q r t (some s) = some (p ∷ q ∷ r ∷ t ∷ s)

unfoldable pub unpad : List ℕ → Option (List ℕ)
unpad [] = some []
unpad (p ∷ []) = none
unpad (p ∷ q ∷ []) = none
unpad (p ∷ q ∷ r ∷ []) = none
unpad (p ∷ q ∷ r ∷ t ∷ []) = some (last_group p q r t)
unpad (p ∷ q ∷ r ∷ t ∷ u ∷ s) = before_group p q r t (unpad (u ∷ s))

unfoldable pub without_breaks : List ℕ → List ℕ
without_breaks [] = []
without_breaks (c ∷ s) =
    let rest = without_breaks s in if c == 10 || c == 13 then rest else c ∷ rest

abbrev decode_unpadded : Option (List ℕ) → Option (List ℕ)
decode_unpadded none = none
decode_unpadded (some s) = decode raw_std s

unfoldable pub decode_std : List ℕ → Option (List ℕ)
unfolding unpad without_breaks decode
decode_std s = decode_unpadded (unpad (without_breaks s))
