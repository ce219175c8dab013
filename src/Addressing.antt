-- ===== src/Addressing.antt =====
-- src/vera_mmu/addressing.py: `make_address` and the tests on its components. Addressing/Parse reads an
-- address back.
pub mod Unquote
pub mod Utf8
pub mod Quoted
pub mod Parse
pub mod RoundTrip
use Prim.Native.Nat.{◌/◌, ◌%◌}
use Prim.Native.Char.{code}
use vera_mmu.Common.{
  ℕ, zero, suc, ◌+◌, String, Bool, false, not, ◌&&◌, ◌||◌, ◌==◌, text_Eq, nat_eq, leb, ltb, List,
  [], ◌∷◌, Result, ok, err, ◌≡◌, refl, all, contains, if◌then◌else◌, is_ok,
}
use vera_mmu.Common.Text.{codes, is_empty, has_code, len}

pub data AddressError : Type 0 where
  invalid_project unknown_resource identifier_required invalid_identifier traversal : AddressError

is_lower_or_digit : ℕ → Bool
is_lower_or_digit c = leb 97 c && leb c 122 || leb 48 c && leb c 57

is_project_code : ℕ → Bool
unfolding is_lower_or_digit
is_project_code c = is_lower_or_digit c || nat_eq c 45

-- `PROJECT_ID_RE.fullmatch`: [a-z0-9][a-z0-9-]{1,63}
abbrev matches_project : List ℕ → Bool
matches_project [] = false
matches_project (c ∷ cs) = is_lower_or_digit c && all is_project_code cs

unfoldable pub is_project_id : String → Bool
unfolding is_project_code len
is_project_id s = leb 2 (len s) && leb (len s) 64 && matches_project (codes s)

-- `CORE_RESOURCE_TYPES`
abbrev resource_types : List String
resource_types =
    "asset" ∷ "capability" ∷ "entity" ∷ "evidence" ∷ "execution" ∷ "front" ∷ "handoff" ∷ "knowledge"
    ∷ "profile" ∷ "proof" ∷ "relation" ∷ "symbol" ∷ "work-item" ∷ []

-- `len(identifier) > 256 or "/" in identifier or "\\" in identifier or "\x00" in identifier`, negated
unfoldable pub has_identifier_form : String → Bool
unfolding len has_code
has_identifier_form s =
    leb (len s) 256 && not (has_code 47 s) && not (has_code 92 s) && not (has_code 0 s)

-- The second half of the source's test, `".." in identifier.split("/")`, is the first on a text
-- without a slash.
unfoldable pub is_traversing : String → Bool
is_traversing s = s == "." || s == ".."

-- the characters that `quote(value, safe="!._~-")` keeps
is_safe : ℕ → Bool
unfolding is_lower_or_digit
is_safe c =
    is_lower_or_digit c
    || leb 65 c && leb c 90
    || nat_eq c 33
    || nat_eq c 46
    || nat_eq c 95
    || nat_eq c 126
    || nat_eq c 45

-- the bytes of a code point in UTF-8
abbrev pub utf8 : ℕ → List ℕ
utf8 c =
    if ltb c 0x80
    then c ∷ []
    else if ltb c 0x800
    then (0xc0 + c / 0x40) ∷ (0x80 + c % 0x40) ∷ []
    else if ltb c 0x10000
    then (0xe0 + c / 0x1000) ∷ (0x80 + c / 0x40 % 0x40) ∷ (0x80 + c % 0x40) ∷ []
    else (0xf0 + c / 0x40000)
      ∷ (0x80 + c / 0x1000 % 0x40)
      ∷ (0x80 + c / 0x40 % 0x40)
      ∷ (0x80 + c % 0x40)
      ∷ []

-- the text at a place of a list
digit_at : ℕ → List String → String
digit_at n [] = ""
digit_at zero (d ∷ ds) = d
digit_at (suc n) (d ∷ ds) = digit_at n ds

hex_digit : ℕ → String
unfolding digit_at
hex_digit n = digit_at n (
    "0" ∷ "1" ∷ "2" ∷ "3" ∷ "4" ∷ "5" ∷ "6" ∷ "7" ∷ "8" ∷ "9" ∷ "A" ∷ "B" ∷ "C" ∷ "D" ∷ "E" ∷ "F"
    ∷ [])

unfoldable text_append : String → String → String
text_append String.[] t = t
text_append (String.◌∷◌ c s) t = String.◌∷◌ c (text_append s t)

pub escape : List ℕ → String
unfolding hex_digit text_append
escape [] = ""
escape (b ∷ bs) =
    text_append "%"
      (text_append (hex_digit (b / 16)) (text_append (hex_digit (b % 16)) (escape bs)))

unfoldable pub quote : String → String
unfolding is_safe escape text_append
quote String.[] = String.[]
quote (String.◌∷◌ c s) =
    let rest = quote s in
    if is_safe (code c) then String.◌∷◌ c rest else text_append (escape (utf8 (code c))) rest

-- `make_address`
unfoldable pub make_address : String → String → String → Result AddressError String
unfolding is_project_id contains is_empty has_identifier_form is_traversing quote
make_address project resource identifier =
    if not (is_project_id project)
    then err invalid_project
    else if not (contains resource_types resource)
    then err unknown_resource
    else if is_empty identifier
    then err identifier_required
    else if not (has_identifier_form identifier)
    then err invalid_identifier
    else if is_traversing identifier
    then err traversal
    else ok (
        text_append "vera://" (
          text_append project
            (text_append "/" (text_append resource (text_append "/" (quote identifier))))))

-- what the registries ask of an identifier: `make_address` does not raise
unfoldable pub is_address_of : String → String → String → Bool
unfolding make_address
is_address_of project resource identifier = is_ok (make_address project resource identifier)

address_of_item : make_address "demo" "work-item" "a b" ≡ ok "vera://demo/work-item/a%20b"
unfolding make_address all contains
address_of_item = refl
