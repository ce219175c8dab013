-- ===== src/Parameters/Conforms.antt =====
-- What parameters a schema accepts, said without the order of the tests.
use vera_mmu.Common.{
  String, Bool, true, false, ◌&&◌, ◌||◌, text_Eq, Option, none, some, List, [], ◌∷◌, ◌≡◌, ◌↔◌, refl,
  Result, ok, err, all, is_some, arith, All,
}
use vera_mmu.Chain.Platform.{
  Platform, Json, json_null, json_bool, json_number, json_text, json_list, json_object, Members,
  no_members, member,
}
use vera_mmu.Validators.Rules.{get_member}
use vera_mmu.Parameters.{
  ParameterError, ◌>>◌, check, ScalarType, string_type, integer_type, number_type, boolean_type,
  null_type, member_names, properties_of, required_of, additional_of, declared_type, is_integer,
  is_of_type, validate_scalar, check_value, check_values, normalize, validate_parameter_schema,
  validate_parameters, missing_parameter, undeclared_parameter,
}

-- a value of a scalar type; a Boolean is no integer and no number
pub data HasType : Json → ScalarType → Type 0 where
  text : (s : String) → HasType (json_text s) string_type
  integer : (n : String) → is_integer n ≡ true → HasType (json_number n) integer_type
  number : (n : String) → HasType (json_number n) number_type
  boolean : (b : Bool) → HasType (json_bool b) boolean_type
  null : HasType json_null null_type

Bool-apart : false ≡ true → ⊥
Bool-apart h = cc

is_of_type-HasType : (v : Json) (τ : ScalarType) → HasType v τ → is_of_type v τ ≡ true
is_of_type-HasType v τ (text s) = refl
is_of_type-HasType v τ (integer n h) = h
is_of_type-HasType v τ (number n) = refl
is_of_type-HasType v τ (boolean b) = refl
is_of_type-HasType v τ null = refl

HasType-is_of_type : (v : Json) (τ : ScalarType) → is_of_type v τ ≡ true → HasType v τ
HasType-is_of_type (json_text s) string_type h = text s
HasType-is_of_type (json_text s) integer_type h = absurd (Bool-apart h)
HasType-is_of_type (json_text s) number_type h = absurd (Bool-apart h)
HasType-is_of_type (json_text s) boolean_type h = absurd (Bool-apart h)
HasType-is_of_type (json_text s) null_type h = absurd (Bool-apart h)
HasType-is_of_type (json_bool b) string_type h = absurd (Bool-apart h)
HasType-is_of_type (json_bool b) integer_type h = absurd (Bool-apart h)
HasType-is_of_type (json_bool b) number_type h = absurd (Bool-apart h)
HasType-is_of_type (json_bool b) boolean_type h = boolean b
HasType-is_of_type (json_bool b) null_type h = absurd (Bool-apart h)
HasType-is_of_type json_null string_type h = absurd (Bool-apart h)
HasType-is_of_type json_null integer_type h = absurd (Bool-apart h)
HasType-is_of_type json_null number_type h = absurd (Bool-apart h)
HasType-is_of_type json_null boolean_type h = absurd (Bool-apart h)
HasType-is_of_type json_null null_type h = null
HasType-is_of_type (json_number n) string_type h = absurd (Bool-apart h)
HasType-is_of_type (json_number n) integer_type h = integer n h
HasType-is_of_type (json_number n) number_type h = number n
HasType-is_of_type (json_number n) boolean_type h = absurd (Bool-apart h)
HasType-is_of_type (json_number n) null_type h = absurd (Bool-apart h)
HasType-is_of_type (json_list l) string_type h = absurd (Bool-apart h)
HasType-is_of_type (json_list l) integer_type h = absurd (Bool-apart h)
HasType-is_of_type (json_list l) number_type h = absurd (Bool-apart h)
HasType-is_of_type (json_list l) boolean_type h = absurd (Bool-apart h)
HasType-is_of_type (json_list l) null_type h = absurd (Bool-apart h)
HasType-is_of_type (json_object m) string_type h = absurd (Bool-apart h)
HasType-is_of_type (json_object m) integer_type h = absurd (Bool-apart h)
HasType-is_of_type (json_object m) number_type h = absurd (Bool-apart h)
HasType-is_of_type (json_object m) boolean_type h = absurd (Bool-apart h)
HasType-is_of_type (json_object m) null_type h = absurd (Bool-apart h)

abbrev pub AllMembers : (String → Json → Type 0) → Members → Type 0
AllMembers P no_members = Unit
AllMembers P (member n v vs) = P n v × AllMembers P vs

-- the value has the type that the property of its name declares, if there is one
abbrev pub Fits : Members → String → Json → Type 0
Fits properties n v =
    (schema : Json)
    → get_member properties n ≡ some schema
    → (τ : ScalarType) × (declared_type schema ≡ some τ) × HasType v τ

pub record Conforms (properties : Members) (required : List String) (additional : Bool)
    (values : Members) : Type 0 where
  pub present : All (λ n. is_some (get_member values n) ≡ true) required
  pub declared :
      additional ≡ false → AllMembers (λ n v. is_some (get_member properties n) ≡ true) values
  pub typed : AllMembers (Fits properties) values

-- what a schema that was validated says
pub record Reads (schema properties : Members) (required : List String) (additional : Bool)
    : Type 0 where
  pub properties_read : properties_of (get_member schema "properties") ≡ ok properties
  pub required_read : required_of (get_member schema "required") ≡ ok required
  pub additional_read : additional_of (get_member schema "additionalProperties") ≡ ok additional

and-true : (a b : Bool) → (a && b) ≡ true → (a ≡ true) × (b ≡ true)
and-true a b h = ground arith

pub check-ok : {E : Type 0} (b : Bool) (e : E) → check b e ≡ ok tt → b ≡ true
check-ok true e h = refl
check-ok false e h = cc

pub >>-ok :
    {E B : Type 0} (m : Result E Unit) (k : Result E B) (b : B)
    → (m >> k) ≡ ok b
    → (m ≡ ok tt) × (k ≡ ok b)
>>-ok (ok tt) k b h = (refl, h)
>>-ok (err e) k b h = cc

all-All {ℓ} : {A : Type ℓ} (p : A → Bool) (xs : List A) → all p xs ≡ true → All (λ x. p x ≡ true) xs
unfolding all
all-All p [] h = tt
all-All p (x ∷ xs) h = let (a, b) = and-true (p x) (all p xs) h in (a, all-All p xs b)

All-all {ℓ} : {A : Type ℓ} (p : A → Bool) (xs : List A) → All (λ x. p x ≡ true) xs → all p xs ≡ true
unfolding all
All-all p [] h = refl
All-all p (x ∷ xs) h = rw (h.0, All-all p xs h.1)

names-AllMembers :
    (p : String → Bool) (vs : Members)
    → all p (member_names vs) ≡ true
    → AllMembers (λ n v. p n ≡ true) vs
unfolding all member_names
names-AllMembers p no_members h = tt
names-AllMembers p (member n v vs) h =
    let (a, b) = and-true (p n) (all p (member_names vs)) h in (a, names-AllMembers p vs b)

AllMembers-names :
    (p : String → Bool) (vs : Members)
    → AllMembers (λ n v. p n ≡ true) vs
    → all p (member_names vs) ≡ true
unfolding all member_names
AllMembers-names p no_members h = refl
AllMembers-names p (member n v vs) h = rw (h.0, AllMembers-names p vs h.1)

check_value-Fits :
    (v : Json) (n : String) (ps : Members) → check_value v (get_member ps n) ≡ ok tt → Fits ps n v
check_value-Fits v n ps h schema found = go (declared_type schema) (typed (get_member ps n) h found)
  where
    typed :
        (o : Option Json)
        → check_value v o ≡ ok tt
        → o ≡ some schema
        → validate_scalar v (declared_type schema) ≡ ok tt
    typed none h e = cc
    typed (some s) h e = ground (arith, h, e)

    go :
        (o : Option ScalarType)
        → validate_scalar v o ≡ ok tt
        → (τ : ScalarType) × (o ≡ some τ) × HasType v τ
    go none h = cc
    go (some τ) h = (τ, refl, HasType-is_of_type v τ (check-ok _ _ h))

Fits-check_value :
    (v : Json) (n : String) (ps : Members) → Fits ps n v → check_value v (get_member ps n) ≡ ok tt
Fits-check_value v n ps h = go (get_member ps n) h
  where
    go :
        (o : Option Json)
        → ((s : Json) → o ≡ some s → (τ : ScalarType) × (declared_type s ≡ some τ) × HasType v τ)
        → check_value v o ≡ ok tt
    go none h = refl
    go (some s) h =
        let (τ, declared, typed) = h s refl in rw (declared, is_of_type-HasType v τ typed)

check_values-AllMembers : (ps vs : Members) → check_values ps vs ≡ ok tt → AllMembers (Fits ps) vs
unfolding check_values
check_values-AllMembers ps no_members h = tt
check_values-AllMembers ps (member n v vs) h =
    let (a, b) = >>-ok (check_value v (get_member ps n)) (check_values ps vs) tt h in
    (check_value-Fits v n ps a, check_values-AllMembers ps vs b)

AllMembers-check_values : (ps vs : Members) → AllMembers (Fits ps) vs → check_values ps vs ≡ ok tt
unfolding check_values
AllMembers-check_values ps no_members h = refl
AllMembers-check_values ps (member n v vs) h =
    rw (Fits-check_value v n ps h.0, AllMembers-check_values ps vs h.1)

or-true : (a b : Bool) → (a || b) ≡ true → a ≡ false → b ≡ true
or-true a b h e = ground arith

-- the tests after the schema and the values are read
abbrev accepts : Members → List String → Bool → Members → Result ParameterError Members
accepts ps required additional values = do
  check (all (λ n. is_some (get_member values n)) required) missing_parameter
  check (additional || all (λ n. is_some (get_member ps n)) (member_names values))
      undeclared_parameter
  check_values ps values
  ok values

accepts-Conforms :
    (ps : Members) (required : List String) (additional : Bool) (values : Members)
    → accepts ps required additional values ≡ ok values
    → Conforms ps required additional values
accepts-Conforms ps required additional values h =
    let (a, h1) = >>-ok _ _ _ h in
    let (b, h2) = >>-ok _ _ _ h1 in
    let (c, h3) = >>-ok _ _ _ h2 in
    record {
      present = all-All _ required (check-ok _ _ a);
      declared = λ closed. names-AllMembers _ values (or-true _ _ (check-ok _ _ b) closed);
      typed = check_values-AllMembers ps values c;
    }

Conforms-accepts :
    (ps : Members) (required : List String) (additional : Bool) (values : Members)
    → Conforms ps required additional values
    → accepts ps required additional values ≡ ok values
Conforms-accepts ps required true values c =
    rw (All-all _ required c.present, AllMembers-check_values ps values c.typed)
Conforms-accepts ps required false values c = rw (
  All-all _ required c.present,
  AllMembers-names _ values (c.declared refl),
  AllMembers-check_values ps values c.typed,
)

-- Parameters are accepted as they are exactly when they conform to the schema: each required name has a
-- value, a schema that is closed declares each name, and each value has the type that its property
-- declares. The schema is one that validates, and the parameters are those that its JSON text gives.
pub validate_parameters_iff :
    (platform : Platform) (schema parameters normalized values properties : Members)
    (required : List String) (additional : Bool)
    → validate_parameter_schema platform schema ≡ ok normalized
    → Reads normalized properties required additional
    → normalize platform parameters ≡ ok values
    → (validate_parameters platform schema parameters ≡ ok values)
      ↔ Conforms properties required additional values
unfolding validate_parameters
validate_parameters_iff platform schema parameters normalized values ps required additional valid
      reads read =
    rw (valid, reads.properties_read, reads.required_read, reads.additional_read, read)
      (
        accepts-Conforms ps required additional values,
        Conforms-accepts ps required additional values,
      )
