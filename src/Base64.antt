-- ===== src/Base64.antt =====
-- encoding/base64 as `b64url` of crypto.go sets it up: the URL alphabet with no padding. The
-- decoder of the Go library skips carriage returns and newlines wherever they stand, and does not
-- look at the unused bits of the last digit.
pub mod RoundTrip
use npvtunnel_creator_server.Base.{
  ℕ, ◌+◌, ◌-◌, ◌*◌, ◌/◌, ◌%◌, Bool, not, ◌&&◌, ◌||◌, List, [], ◌∷◌, ◌++◌, Option, none, some, Bytes,
  Text, if◌then◌else◌, ltb, leb, ◌==◌, keep,
}

infixl 5 ◌>>=◌
abbrev ◌>>=◌ {ℓ κ} : {A : Type ℓ} {B : Type κ} → Option A → (A → Option B) → Option B
none >>= f = none
some a >>= f = f a

-- The character of a 6-bit value, and the value of a character.
unfoldable pub digit : ℕ → ℕ
digit v =
    if ltb v 26
    then v + b'A'
    else if ltb v 52
    then v - 26 + b'a'
    else if ltb v 62
    then v - 52 + b'0'
    else if v == 62
    then b'-'
    else b'_'

unfoldable pub value : ℕ → Option ℕ
value c =
    if leb b'A' c && leb c b'Z'
    then some (c - b'A')
    else if leb b'a' c && leb c b'z'
    then some (c - b'a' + 26)
    else if leb b'0' c && leb c b'9'
    then some (c - b'0' + 52)
    else if c == b'-'
    then some 62
    else if c == b'_'
    then some 63
    else none

unfoldable pub encode_to_string : Bytes → Text
encode_to_string [] = []
encode_to_string (a ∷ []) = digit (a / 4) ∷ digit (a % 4 * 16) ∷ []
encode_to_string (a ∷ b ∷ []) =
    digit (a / 4) ∷ digit (a % 4 * 16 + b / 16) ∷ digit (b % 16 * 4) ∷ []
encode_to_string (a ∷ b ∷ c ∷ rest) =
    digit (a / 4)
    ∷ digit (a % 4 * 16 + b / 16)
    ∷ digit (b % 16 * 4 + c / 64)
    ∷ digit (c % 64)
    ∷ encode_to_string rest

unfoldable pub values : Text → Option (List ℕ)
values [] = some []
values (c ∷ cs) = do v ← value c; vs ← values cs; some (v ∷ vs)

-- Four digits make three bytes; a single digit at the end is an error.
unfoldable pub regroup : List ℕ → Option Bytes
regroup [] = some []
regroup (a ∷ []) = none
regroup (a ∷ b ∷ []) = some ((a * 4 + b / 16) ∷ [])
regroup (a ∷ b ∷ c ∷ []) = some ((a * 4 + b / 16) ∷ (b % 16 * 16 + c / 4) ∷ [])
regroup (a ∷ b ∷ c ∷ d ∷ rest) = do
  bytes ← regroup rest
  some ((a * 4 + b / 16) ∷ (b % 16 * 16 + c / 4) ∷ (c % 4 * 64 + d) ∷ bytes)

abbrev pub is_newline : ℕ → Bool
is_newline c = c == b'\n' || c == b'\r'

unfoldable pub decode_string : Text → Option Bytes
decode_string s = do vs ← values (keep (λ c. not (is_newline c)) s); regroup vs
