-- ===== src/Addressing/Unquote.antt =====
-- `urllib.parse.unquote` with strict UTF-8, as `parse_address` of src/vera_mmu/addressing.py calls it: percent
-- escapes and ASCII characters are bytes that UTF-8 decodes, other characters stand for themselves.
use Prim.Native.Nat.{Ordering, compare}
use Prim.Native.Char.{Char, char, code, IsScalar, IsLt}
use text.Mathlib.TextEquality.{Char-path}
use vera_mmu.Common.{
  ℕ, zero, suc, ◌+◌, ◌-◌, ◌*◌, ◌≡◌, refl, ap, ◌∙◌, String, Bool, true, false, ◌&&◌, ◌||◌, leb, ltb,
  nat_eq, Option, none, some, List, [], ◌∷◌, if◌then◌else◌, arith,
}
use vera_mmu.Common.Text.{codes}

-- a byte of the decoded text, or a character that is not ASCII
pub data Unit8 : Type 0 where
  byte raw : ℕ → Unit8

-- the value of a hexadecimal digit, in either case
unfoldable pub hex_value : ℕ → Option ℕ
hex_value c =
    if leb 48 c && leb c 57
    then some (c - 48)
    else if leb 65 c && leb c 70
    then some (c - 55)
    else if leb 97 c && leb c 102
    then some (c - 87)
    else none

abbrev pub pair_value : Option ℕ → Option ℕ → Option ℕ
pair_value (some a) (some b) = some (16 * a + b)
pair_value (some a) none = none
pair_value none b = none

-- `_hextobyte[item[:2]]`
abbrev pub hex_pair : List ℕ → Option ℕ
hex_pair [] = none
hex_pair (a ∷ []) = none
hex_pair (a ∷ b ∷ cs) = pair_value (hex_value a) (hex_value b)

-- the characters of a text, where `skip` of them belong to the last escape
unfoldable pub units : ℕ → List ℕ → List Unit8
unfolding hex_value
units skip [] = []
units (suc skip) (c ∷ cs) = units skip cs
units zero (c ∷ cs) =
    let rest = units zero cs in
    let escaped = units 2 cs in
    if nat_eq c 37
    then elim (hex_pair cs) [ none ↦ byte 37 ∷ rest | some b ↦ byte b ∷ escaped ]
    else if ltb c 128
    then byte c ∷ rest
    else raw c ∷ rest

-- between two characters, or inside one: how many bytes follow the next one, the value so far, and the range
-- of the next byte
pub data Pending : Type 0 where
  ready : Pending
  more : ℕ → ℕ → ℕ → ℕ → Pending

-- the character that a first byte begins
unfoldable pub first_of : ℕ → Option Pending
first_of b =
    if leb 0xc2 b && leb b 0xdf
    then some (more 0 (b - 0xc0) 0x80 0xbf)
    else if nat_eq b 0xe0
    then some (more 1 0 0xa0 0xbf)
    else if nat_eq b 0xed
    then some (more 1 13 0x80 0x9f)
    else if leb 0xe1 b && leb b 0xef
    then some (more 1 (b - 0xe0) 0x80 0xbf)
    else if nat_eq b 0xf0
    then some (more 2 0 0x90 0xbf)
    else if leb 0xf1 b && leb b 0xf3
    then some (more 2 (b - 0xf0) 0x80 0xbf)
    else if nat_eq b 0xf4
    then some (more 2 4 0x80 0x8f)
    else none

abbrev pub put : ℕ → Option (List ℕ) → Option (List ℕ)
put c none = none
put c (some cs) = some (c ∷ cs)

-- `bytes.decode('utf-8', 'strict')` of the runs of bytes, and the characters between them
unfoldable pub decode : Pending → List Unit8 → Option (List ℕ)
unfolding first_of
decode ready [] = some []
decode (more m v l h) [] = none
decode ready (raw c ∷ us) = put c (decode ready us)
decode (more m v l h) (raw c ∷ us) = none
decode ready (byte b ∷ us) =
    let plain = put b (decode ready us) in
    if ltb b 128 then plain else elim (first_of b) [ none ↦ none | some p ↦ decode p us ]
decode (more zero v l h) (byte b ∷ us) =
    let rest = put (v * 64 + (b - 0x80)) (decode ready us) in
    if leb l b && leb b h then rest else none
decode (more (suc m) v l h) (byte b ∷ us) =
    let rest = decode (more m (v * 64 + (b - 0x80)) 0x80 0xbf) us in
    if leb l b && leb b h then rest else none

less : (o : Ordering) → (elim o [ Ordering.lt ↦ true | _ ↦ false ]) ≡ true → o ≡ Ordering.lt
less Ordering.lt h = refl
less Ordering.eq h = cc
less Ordering.gt h = cc

pub below : (n : ℕ) → ltb n 55296 ≡ true → IsScalar n
below n h = rw (less (compare n 55296) h) tt

higher : (n : ℕ) → ltb 57343 n ≡ true → compare n 55296 ≡ Ordering.gt
higher n h = ground arith

pub above : (n : ℕ) → ltb 57343 n ≡ true → ltb n 1114112 ≡ true → IsScalar n
above n g h = rw (higher n g) (rw (less (compare 57343 n) g) (rw (less (compare n 1114112) h) tt))

abbrev scalar :
    (n : ℕ) (a b c : Bool)
    → ltb n 55296 ≡ a
    → ltb 57343 n ≡ b
    → ltb n 1114112 ≡ c
    → Option (IsScalar n)
scalar n true b c h g k = some (below n h)
scalar n false true true h g k = some (above n g k)
scalar n false true false h g k = none
scalar n false false c h g k = none

abbrev char_with : (n : ℕ) → Option (IsScalar n) → Option Char
char_with n none = none
char_with n (some p) = some (char n p)

-- the character of a code point
unfoldable pub char_of : ℕ → Option Char
char_of n = char_with n (scalar n (ltb n 55296) (ltb 57343 n) (ltb n 1114112) refl refl refl)

abbrev pub join_char : Option Char → Option String → Option String
join_char (some c) (some s) = some (String.◌∷◌ c s)
join_char (some c) none = none
join_char none s = none

unfoldable pub text_of : List ℕ → Option String
unfolding char_of
text_of [] = some String.[]
text_of (c ∷ cs) = join_char (char_of c) (text_of cs)

abbrev pub then_text : Option (List ℕ) → Option String
unfolding text_of
then_text none = none
then_text (some cs) = text_of cs

unfoldable pub unquote : String → Option String
unfolding units decode then_text
unquote s = then_text (decode ready (units 0 (codes s)))

scalar-some :
    (n : ℕ) (a b c : Bool) (h : ltb n 55296 ≡ a) (g : ltb 57343 n ≡ b) (k : ltb n 1114112 ≡ c)
    → (a || b && c) ≡ true
    → (p : IsScalar n) × (scalar n a b c h g k ≡ some p)
scalar-some n true b c h g k t = (below n h, refl)
scalar-some n false true true h g k t = (above n g k, refl)
scalar-some n false true false h g k t = cc
scalar-some n false false c h g k t = cc

-- the tests that `IsScalar` makes
abbrev less_than : Ordering → Bool
less_than Ordering.lt = true
less_than Ordering.eq = false
less_than Ordering.gt = false

abbrev Both : Ordering → Ordering → Type 0
Both Ordering.lt o = IsLt o
Both Ordering.eq _ = ⊥
Both Ordering.gt _ = ⊥

abbrev Scalar : Ordering → Ordering → Ordering → Type 0
Scalar Ordering.lt _ _ = Unit
Scalar Ordering.eq o p = Both o p
Scalar Ordering.gt o p = Both o p

Scalar-tests :
    (o p q : Ordering) → Scalar o p q → (less_than o || less_than p && less_than q) ≡ true
Scalar-tests Ordering.lt p q h = refl
Scalar-tests Ordering.eq Ordering.lt Ordering.lt h = refl
Scalar-tests Ordering.eq Ordering.lt Ordering.eq h = absurd h
Scalar-tests Ordering.eq Ordering.lt Ordering.gt h = absurd h
Scalar-tests Ordering.eq Ordering.eq q h = absurd h
Scalar-tests Ordering.eq Ordering.gt q h = absurd h
Scalar-tests Ordering.gt Ordering.lt Ordering.lt h = refl
Scalar-tests Ordering.gt Ordering.lt Ordering.eq h = absurd h
Scalar-tests Ordering.gt Ordering.lt Ordering.gt h = absurd h
Scalar-tests Ordering.gt Ordering.eq q h = absurd h
Scalar-tests Ordering.gt Ordering.gt q h = absurd h

pub scalar_test :
    (c : Char) → (ltb (code c) 55296 || ltb 57343 (code c) && ltb (code c) 1114112) ≡ true
scalar_test (char n p) = Scalar-tests (compare n 55296) (compare 57343 n) (compare n 1114112) p

-- a character is the one of its code point
char_of-code : (c : Char) → char_of (code c) ≡ some c
unfolding char_of
char_of-code c =
    let (p, same) = scalar-some (code c) _ _ _ refl refl refl (scalar_test c) in
    ap (char_with (code c)) same ∙ ap some (Char-path (char (code c) p) c refl)

pub text_of-codes : (s : String) → text_of (codes s) ≡ some s
unfolding text_of
text_of-codes String.[] = refl
text_of-codes (String.◌∷◌ c s) = rw (char_of-code c) (rw (text_of-codes s) refl)
