-- ===== src/Common/Text.antt =====
-- Python's texts: the tests on code points that the services make before they touch the store.
use Prim.Native.Nat.{ℕ}
use Prim.Native.Char.{code}
use Prim.Native.String.{String}
use mathlib.Core.Bool.{Bool, false, not, ◌&&◌, ◌||◌}
use mathlib.Core.List.{List, [], ◌∷◌, reverse}
use vera_mmu.Common.Tests.{leb, nat_eq, if◌then◌else◌}
use vera_mmu.Common.Equality.{contains, nat_Eq}
use vera_mmu.Common.Lists.{length}

-- The code points of a text.
abbrev pub codes : String → List ℕ
codes String.[] = []
codes (String.◌∷◌ c s) = code c ∷ codes s

-- `len(value)`
unfoldable pub len : String → ℕ
len s = length (codes s)

-- the code points before the first NUL
unfoldable until_nul : List ℕ → List ℕ
until_nul [] = []
until_nul (c ∷ cs) = let rest = until_nul cs in if nat_eq c 0 then [] else c ∷ rest

-- SQLite's `length(value)`, which stops at the first NUL
unfoldable pub sqlite_length : String → ℕ
unfolding until_nul
sqlite_length s = length (until_nul (codes s))

-- `not value`
unfoldable pub is_empty : String → Bool
unfolding len
is_empty s = nat_eq (len s) 0

-- `c in value`, for a character by its code point
unfoldable pub has_code : ℕ → String → Bool
unfolding contains
has_code c s = contains (codes s) c

-- the code points for which `str.isspace` holds
is_space : ℕ → Bool
is_space c =
    leb 9 c && leb c 13
    || leb 28 c && leb c 32
    || nat_eq c 0x85
    || nat_eq c 0xa0
    || nat_eq c 0x1680
    || leb 0x2000 c && leb c 0x200a
    || nat_eq c 0x2028
    || nat_eq c 0x2029
    || nat_eq c 0x202f
    || nat_eq c 0x205f
    || nat_eq c 0x3000

-- `value == value.strip()`: neither end is a space
starts_with_space : List ℕ → Bool
unfolding is_space
starts_with_space [] = false
starts_with_space (c ∷ _) = is_space c

unfoldable pub is_stripped : String → Bool
unfolding starts_with_space
is_stripped s = not (starts_with_space (codes s)) && not (starts_with_space (reverse (codes s)))

-- `_require_identifier` of the services that do not go through an address: not empty and no `/`.
unfoldable pub is_plain_identifier : String → Bool
unfolding is_empty has_code
is_plain_identifier s = not (is_empty s) && not (has_code b'/' s)

-- not empty, equal to its strip, at most `maximum` code points
unfoldable pub is_canonical_text : ℕ → String → Bool
unfolding is_empty is_stripped
is_canonical_text maximum s = not (is_empty s) && is_stripped s && leb (len s) maximum

-- the same, with no NUL
unfoldable pub is_canonical_line : ℕ → String → Bool
unfolding is_canonical_text has_code
is_canonical_line maximum s = is_canonical_text maximum s && not (has_code 0 s)

unfoldable strip_left : String → String
unfolding is_space
strip_left String.[] = String.[]
strip_left (String.◌∷◌ c s) =
    let rest = strip_left s in if is_space (code c) then rest else String.◌∷◌ c s

unfoldable strip_right : String → String
unfolding is_space is_empty
strip_right String.[] = String.[]
strip_right (String.◌∷◌ c s) =
    let rest = strip_right s in
    if is_empty rest && is_space (code c) then String.[] else String.◌∷◌ c rest

-- `value.strip()`
unfoldable pub strip : String → String
unfolding strip_left strip_right
strip s = strip_right (strip_left s)
