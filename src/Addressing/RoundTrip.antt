-- ===== src/Addressing/RoundTrip.antt =====
-- `parse_address` of src/vera_mmu/addressing.py returns exactly the components that `make_address` makes the
-- address of.
use Prim.Native.Char.{code}
use vera_mmu.Common.{
  ℕ, String, Bool, true, false, not, ◌||◌, ◌==◌, text_Eq, text_iff, nat_eq, Option, none, some,
  List, [], ◌∷◌, Result, ok, err, all, contains, if◌then◌else◌, Bool-cases, inl, inr, ◌≡◌, ◌↔◌,
  refl, sym, ap, subst, ◌∙◌, arith,
}
use vera_mmu.Common.{nat_Eq}
use vera_mmu.Common.Text.{is_empty, has_code, codes, len}
use vera_mmu.Addressing.{
  AddressError, invalid_project, unknown_resource, identifier_required, invalid_identifier,
  traversal, make_address, is_project_id, is_project_code, is_lower_or_digit, resource_types, quote,
  text_append,
}
use vera_mmu.Addressing.Unquote.{unquote}
use vera_mmu.Addressing.Quoted.{unquote-quote}
use vera_mmu.Addressing.Parse.{
  Address, ParseError, strip_prefix, split_once, not_canonical, canonical, with_identifier,
  with_parts, with_project, with_prefix, parse_address,
}

no_slash : (a b : Bool) → (a || b) ≡ false → (a ≡ false) × (b ≡ false)
no_slash a b h = ground arith

split_once-append :
    (s t : String)
    → has_code 47 s ≡ false
    → split_once (text_append s (text_append "/" t)) ≡ some (s, t)
unfolding split_once text_append has_code contains
split_once-append String.[] t h = refl
split_once-append (String.◌∷◌ c s) t h =
    let (apart, rest) = no_slash (nat_eq (code c) 47) (contains (codes s) 47) h in
    rw apart (rw (split_once-append s t rest) refl)

project_codes : (cs : List ℕ) → all is_project_code cs ≡ true → contains cs 47 ≡ false
unfolding all contains is_project_code is_lower_or_digit
project_codes [] h = refl
project_codes (c ∷ cs) h = ground (arith, project_codes cs)

project_no_slash : (s : String) → is_project_id s ≡ true → has_code 47 s ≡ false
unfolding is_project_id has_code contains is_lower_or_digit
project_no_slash String.[] h = refl
project_no_slash (String.◌∷◌ c s) h = ground (arith, project_codes (codes s))

listed_no_slash :
    (rs : List String) (r : String)
    → all (λ x. not (has_code 47 x)) rs ≡ true
    → contains rs r ≡ true
    → has_code 47 r ≡ false
unfolding all contains
listed_no_slash [] r h l = cc
listed_no_slash (x ∷ rs) r h l = ground (arith, text_iff x r, listed_no_slash rs r)

resource_no_slash : (r : String) → contains resource_types r ≡ true → has_code 47 r ≡ false
unfolding has_code contains all
resource_no_slash r h = listed_no_slash resource_types r refl h

tests :
    (p r i f t : Bool) (made a : String)
    → (if not p
        then err invalid_project
        else if not r
        then err unknown_resource
        else if i
        then err identifier_required
        else if not f
        then err invalid_identifier
        else if t
        then err traversal
        else ok made)
      ≡ ok a
    → (p ≡ true) × (r ≡ true) × (i ≡ false) × (made ≡ a)
tests true true false true false made a h = (refl, refl, refl, ground arith)
tests false r i f t made a h = cc
tests true false i f t made a h = cc
tests true true true f t made a h = cc
tests true true false false t made a h = cc
tests true true false true true made a h = cc

-- what an address is made of
make_address-ok :
    (project resource identifier a : String)
    → make_address project resource identifier ≡ ok a
    → (is_project_id project ≡ true)
      × (contains resource_types resource ≡ true)
      × (is_empty identifier ≡ false)
      × (a
          ≡ text_append "vera://" (
              text_append project
                (text_append "/" (text_append resource (text_append "/" (quote identifier))))))
unfolding make_address
make_address-ok project resource identifier a h =
    let (p, r, i, same) =
      tests (is_project_id project) (contains resource_types resource) (is_empty identifier) _ _ _ a
        h in
    (p, r, i, sym same)

text_same : (a : String) → (a == a) ≡ true
text_same a = (text_iff a a).1 refl

empty_text : (s : String) → is_empty s ≡ true → s ≡ ""
unfolding is_empty len
empty_text String.[] h = refl
empty_text (String.◌∷◌ c s) h = ground arith

same_text : (s t : String) → some s ≡ some t → s ≡ t
same_text s t h = cc

nothing_quoted : unquote "" ≡ some ""
unfolding quote
nothing_quoted = unquote-quote ""

empty_is_empty : is_empty "" ≡ true
unfolding is_empty len
empty_is_empty = refl

quote_not_empty : (s : String) → is_empty s ≡ false → is_empty (quote s) ≡ false
quote_not_empty s h = elim (Bool-cases (is_empty (quote s))) [
  | inr full ↦ full
  | inl left ↦
      let gone = ap unquote (sym (empty_text (quote s) left)) ∙ unquote-quote s in
      let nothing = same_text "" s (sym nothing_quoted ∙ gone) in
      absurd (differ (is_empty s) (ap is_empty (sym nothing) ∙ empty_is_empty) h)
]
  where
    differ : (b : Bool) → b ≡ true → b ≡ false → ⊥
    differ b t f = cc

strip_prefix-text_append : (t : String) → strip_prefix "vera://" (text_append "vera://" t) ≡ some t
unfolding strip_prefix text_append
strip_prefix-text_append t = refl

made_is_parsed :
    (x : Address) (a : String)
    → make_address x.project_id x.resource_type x.identifier ≡ ok a
    → parse_address a ≡ ok x
unfolding parse_address with_prefix with_project with_parts with_identifier canonical
made_is_parsed x a h =
    let (project, resource, given, made) =
      make_address-ok x.project_id x.resource_type x.identifier a h in
    let at_1 = ap (strip_prefix "vera://") made ∙ strip_prefix-text_append _ in
    let at_2 = split_once-append x.project_id _ (project_no_slash x.project_id project) in
    let at_3 =
      split_once-append x.resource_type (quote x.identifier)
        (resource_no_slash x.resource_type resource) in
    ap (with_prefix a) at_1
    ∙ ap (with_project a) at_2
    ∙ ap (with_parts a x.project_id) at_3
    ∙ rw project (
        rw (quote_not_empty x.identifier given) (
          ap (with_identifier a x.project_id x.resource_type) (unquote-quote x.identifier)
          ∙ ap (canonical a x) h
          ∙ rw (text_same a) refl))

-- each step of the parser, when it returns
Made : String → Address → Type 0
Made a x = make_address x.project_id x.resource_type x.identifier ≡ ok a

passed :
    {A : Type 0} (b : Bool) (e : ParseError) (k : Result ParseError A) (x : A)
    → (if b then err e else k) ≡ ok x
    → k ≡ ok x
passed true e k x h = cc
passed false e k x h = h

canonical-Made :
    (a : String) (x y : Address)
    → canonical a x (make_address x.project_id x.resource_type x.identifier) ≡ ok y
    → Made a y
unfolding Made canonical
canonical-Made a x y h = go (make_address x.project_id x.resource_type x.identifier) refl h
  where
    equal : (b : Bool) → (if b then ok x else err not_canonical) ≡ ok y → (b ≡ true) × (x ≡ y)
    equal true h = (refl, cc)
    equal false h = cc

    go :
        (r : Result AddressError String)
        → make_address x.project_id x.resource_type x.identifier ≡ r
        → canonical a x r ≡ ok y
        → make_address y.project_id y.resource_type y.identifier ≡ ok a
    go (err e) same h = cc
    go (ok made) same h =
        let (matches, same_address) = equal (a == made) h in
        subst (λ (z : Address). make_address z.project_id z.resource_type z.identifier ≡ ok a)
          same_address (same ∙ ap ok (sym ((text_iff a made).0 matches)))

with_identifier-Made :
    (a project resource : String) (o : Option String) (y : Address)
    → with_identifier a project resource o ≡ ok y
    → Made a y
unfolding with_identifier
with_identifier-Made a project resource none y h = cc
with_identifier-Made a project resource (some identifier) y h =
    canonical-Made a
      (record { project_id = project; resource_type = resource; identifier = identifier }) y h

with_parts-Made :
    (a project : String) (o : Option (String × String)) (y : Address)
    → with_parts a project o ≡ ok y
    → Made a y
unfolding with_parts
with_parts-Made a project none y h = cc
with_parts-Made a project (some (resource, encoded)) y h =
    with_identifier-Made a project resource (unquote encoded) y
      (passed (is_empty encoded) _ _ y (passed (not (is_project_id project)) _ _ y h))

with_project-Made :
    (a : String) (o : Option (String × String)) (y : Address) → with_project a o ≡ ok y → Made a y
unfolding with_project
with_project-Made a none y h = cc
with_project-Made a (some (project, rest)) y h = with_parts-Made a project (split_once rest) y h

with_prefix-Made :
    (a : String) (o : Option String) (y : Address) → with_prefix a o ≡ ok y → Made a y
unfolding with_prefix
with_prefix-Made a none y h = cc
with_prefix-Made a (some rest) y h = with_project-Made a (split_once rest) y h

parsed_was_made :
    (a : String) (x : Address)
    → parse_address a ≡ ok x
    → make_address x.project_id x.resource_type x.identifier ≡ ok a
unfolding parse_address Made
parsed_was_made a x h = with_prefix-Made a (strip_prefix "vera://" a) x h

-- An address is parsed to a project, a resource type and an identifier exactly when `make_address` makes it
-- of them: every address that is made is read back, and no other text is read.
pub parse_address_iff :
    (a : String) (x : Address)
    → (parse_address a ≡ ok x) ↔ (make_address x.project_id x.resource_type x.identifier ≡ ok a)
parse_address_iff a x = (parsed_was_made a x, made_is_parsed x a)
