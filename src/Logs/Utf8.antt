-- ===== src/Logs/Utf8.antt =====
-- `String::from_utf8_lossy`, which src/runner/logs.rs shows output with. A text is its bytes.
use wyd.Common.{
  ℕ, zero, suc, ◌≡◌, refl, ap, Bool, true, ◌&&◌, List, [], ◌∷◌, ◌++◌, ltb, leb, ◌==◌, if◌then◌else◌,
  and-eq_true,
}

-- Between characters, or in one: the bytes that it has, the range of the next, and how many follow.
pub data Decoder : Type 0 where
  ready : Decoder
  awaiting : List ℕ → ℕ → ℕ → ℕ → Decoder

-- U+FFFD.
abbrev pub replacement : List ℕ
replacement = 239 ∷ 191 ∷ 189 ∷ []

-- A byte between characters.
unfoldable pub begin_char : ℕ → List ℕ × Decoder
begin_char b =
    if ltb b 128
    then (b ∷ [], ready)
    else if leb 194 b && leb b 223
    then ([], awaiting (b ∷ []) 128 191 0)
    else if b == 224
    then ([], awaiting (b ∷ []) 160 191 1)
    else if b == 237
    then ([], awaiting (b ∷ []) 128 159 1)
    else if leb 225 b && leb b 239
    then ([], awaiting (b ∷ []) 128 191 1)
    else if b == 240
    then ([], awaiting (b ∷ []) 144 191 2)
    else if leb 241 b && leb b 243
    then ([], awaiting (b ∷ []) 128 191 2)
    else if b == 244
    then ([], awaiting (b ∷ []) 128 143 2)
    else (replacement, ready)

abbrev pub followed : List ℕ → ℕ → List ℕ × Decoder
followed char zero = (char, ready)
followed char (suc more) = ([], awaiting char 128 191 more)

-- A byte that does not go on with a character ends it, and may begin another one.
abbrev pub feed : Decoder → ℕ → List ℕ × Decoder
feed ready b = begin_char b
feed (awaiting char low high more) b =
    if leb low b && leb b high
    then followed (char ++ b ∷ []) more
    else let (text, next) = begin_char b in (replacement ++ text, next)

unfoldable pub decode : Decoder → List ℕ → List ℕ
decode ready [] = []
decode (awaiting char low high more) [] = replacement
decode d (b ∷ bs) = (feed d b).0 ++ decode (feed d b).1 bs

unfoldable pub from_utf8_lossy : List ℕ → List ℕ
from_utf8_lossy bs = decode ready bs

unfoldable pub is_ascii : List ℕ → Bool
is_ascii [] = true
is_ascii (b ∷ bs) = ltb b 128 && is_ascii bs

pub from_utf8_lossy-is_ascii : (bs : List ℕ) → is_ascii bs ≡ true → from_utf8_lossy bs ≡ bs
unfolding from_utf8_lossy decode begin_char is_ascii
from_utf8_lossy-is_ascii [] h = refl
from_utf8_lossy-is_ascii (b ∷ bs) h =
    let parts = and-eq_true (ltb b 128) (is_ascii bs) h in
    rw parts.0 (ap (◌∷◌ b) (from_utf8_lossy-is_ascii bs parts.1))

-- "é", a character that is cut, a stray byte, and a surrogate.
decoded :
    from_utf8_lossy (195 ∷ 169 ∷ 226 ∷ 130 ∷ 65 ∷ 255 ∷ 237 ∷ 160 ∷ [])
    ≡ 195 ∷ 169 ∷ 239 ∷ 191 ∷ 189 ∷ 65 ∷ 239 ∷ 191 ∷ 189 ∷ 239 ∷ 191 ∷ 189 ∷ 239 ∷ 191 ∷ 189 ∷ []
unfolding from_utf8_lossy decode begin_char
decoded = refl
