-- ===== src/Addressing/Parse.antt =====
-- `parse_address` and `parse_compat_address` of src/vera_mmu/addressing.py.
use Prim.Native.Char.{Char, code}
use vera_mmu.Common.{
  String, not, ◌==◌, text_Eq, nat_eq, Option, none, some, Result, ok, err, if◌then◌else◌, is_some,
}
use vera_mmu.Common.Text.{is_empty}
use vera_mmu.Addressing.{
  AddressError, invalid_project, identifier_required, make_address, is_project_id, text_append,
}
use vera_mmu.Addressing.Unquote.{unquote}

pub record Address : Type 0 where
  pub project_id : String
  pub resource_type : String
  pub identifier : String

pub data ParseError : Type 0 where
  component : AddressError → ParseError
  prefix_required parts_required invalid_encoding not_canonical : ParseError
  compat_prefix_required : ParseError

-- `address[len(prefix) :]`, where `address.startswith(prefix)`
unfoldable pub strip_prefix : String → String → Option String
strip_prefix String.[] s = some s
strip_prefix (String.◌∷◌ c p) String.[] = none
strip_prefix (String.◌∷◌ c p) (String.◌∷◌ d s) =
    let rest = strip_prefix p s in if nat_eq (code c) (code d) then rest else none

abbrev grow : Char → Option (String × String) → Option (String × String)
grow c none = none
grow c (some (head, tail)) = some (String.◌∷◌ c head, tail)

-- what stands before and after the first `/`
unfoldable pub split_once : String → Option (String × String)
split_once String.[] = none
split_once (String.◌∷◌ c s) =
    let rest = grow c (split_once s) in if nat_eq (code c) 47 then some (String.[], s) else rest

-- the last test: the address is the one that its components make
unfoldable pub canonical : String → Address → Result AddressError String → Result ParseError Address
canonical address x (err e) = err (component e)
canonical address x (ok made) = if address == made then ok x else err not_canonical

unfoldable pub with_identifier :
    String → String → String → Option String → Result ParseError Address
unfolding make_address canonical
with_identifier address project resource none = err invalid_encoding
with_identifier address project resource (some identifier) =
    canonical address
      (record { project_id = project; resource_type = resource; identifier = identifier })
      (make_address project resource identifier)

unfoldable pub with_parts : String → String → Option (String × String) → Result ParseError Address
unfolding with_identifier unquote is_project_id is_empty
with_parts address project none = err parts_required
with_parts address project (some (resource, encoded)) =
    if not (is_project_id project)
    then err (component invalid_project)
    else if is_empty encoded
    then err (component identifier_required)
    else with_identifier address project resource (unquote encoded)

unfoldable pub with_project : String → Option (String × String) → Result ParseError Address
unfolding with_parts split_once
with_project address none = err parts_required
with_project address (some (project, rest)) = with_parts address project (split_once rest)

unfoldable pub with_prefix : String → Option String → Result ParseError Address
unfolding with_project split_once
with_prefix address none = err prefix_required
with_prefix address (some rest) = with_project address (split_once rest)

-- `parse_address`
unfoldable pub parse_address : String → Result ParseError Address
unfolding with_prefix strip_prefix
parse_address address = with_prefix address (strip_prefix "vera://" address)

abbrev with_alias : Option String → Result ParseError Address
unfolding parse_address text_append
with_alias none = err compat_prefix_required
with_alias (some rest) = parse_address (text_append "vera://" rest)

-- `parse_compat_address`
unfoldable pub parse_compat_address : String → Result ParseError Address
unfolding parse_address with_alias strip_prefix
parse_compat_address address =
    if is_some (strip_prefix "vera://" address)
    then parse_address address
    else with_alias (strip_prefix "mmu://" address)
