-- ===== src/Codec/Hex.antt =====
-- `hex.EncodeToString`.
use Prim.Native.Char.{Char}
use Prim.Native.String.{char_at}
use gearshare.Prelude.{ℕ, ◌/◌, ◌%◌, String, List, [], ◌∷◌, ◌≡◌, refl}

abbrev hex_digit : ℕ → Char
hex_digit n = char_at "0123456789abcdef" n

unfoldable pub hex : List ℕ → String
hex [] = ""
hex (c ∷ s) = String.◌∷◌ (hex_digit (c / 16)) (String.◌∷◌ (hex_digit (c % 16)) (hex s))

abcd : hex (171 ∷ 205 ∷ []) ≡ "abcd"
unfolding hex
abcd = refl
