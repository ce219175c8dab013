-- ===== src/Examples/Addresses.antt =====
-- An address with an escaped identifier, and its alias.
use vera_mmu.Common.{◌≡◌, ◌↔◌, refl, ok, err, all, contains}
use vera_mmu.Addressing.{make_address}
use vera_mmu.Addressing.Unquote.{unquote}
use vera_mmu.Addressing.Parse.{Address, parse_address, parse_compat_address, not_canonical}
use vera_mmu.Addressing.RoundTrip.{parse_address_iff}

abbrev spaced : Address
spaced = record { project_id = "demo"; resource_type = "entity"; identifier = "a é" }

alias_is_read : parse_compat_address "mmu://demo/entity/a%20%C3%A9" ≡ ok spaced
unfolding parse_compat_address parse_address make_address unquote all contains
alias_is_read = refl

-- an escape that `quote` does not write
escape_is_refused : parse_address "vera://demo/entity/a%20%c3%a9" ≡ err not_canonical
unfolding parse_address make_address unquote all contains
escape_is_refused = refl

parse_address_iff_example :
    (parse_address "vera://demo/entity/a%20%C3%A9" ≡ ok spaced)
    ↔ (make_address "demo" "entity" "a é" ≡ ok "vera://demo/entity/a%20%C3%A9")
parse_address_iff_example = parse_address_iff "vera://demo/entity/a%20%C3%A9" spaced
