-- ===== src/Pki.antt =====
-- keysas_lib: the fields of a certificate and what is signed of one (certificate_field.rs). The
-- crates der, x509-cert and spki are a record of functions, the parameter `x` of what uses it.
pub mod Tbs
pub mod Keys
pub mod Issue
pub mod Bounds
pub mod Issued
pub mod Possession
pub mod Chain
pub mod Root
pub mod Hybrid
pub mod Pubkeys
pub mod Store
pub mod Written
pub mod Reload
mod Samples
mod Examples
use keysas.Base.{
  ℕ, ◌+◌, ◌-◌, ◌*◌, ◌%◌, Bool, true, false, ◌&&◌, Option, none, some, List, [], ◌∷◌, ◌++◌, Text,
  Bytes, codes, utf8, length, take, ltb, leb, ◌==◌, if◌then◌else◌, Result, err, ok, message,
  library, or_err, ◌>>=◌,
}

pub record CertificateFields : Type 0 where
  pub org_name : Option Text
  pub org_unit : Option Text
  pub country : Option Text
  pub common_name : Option Text
  pub validity : Option ℕ

abbrev pub u32_size : ℕ
u32_size = 4294967296

-- `parse::<u32>()`: a sign `+` at most, one digit at least, and each step within 32 bits.
is_digit : ℕ → Bool
is_digit c = leb b'0' c && leb c b'9'

from_digits : ℕ → Text → Option ℕ
unfolding is_digit
from_digits acc [] = some acc
from_digits acc (c ∷ s) =
    let next = acc * 10 + (c - b'0') in
    let rest = from_digits next s in if is_digit c && ltb next u32_size then rest else none

some_digits : Text → Option ℕ
some_digits [] = none
some_digits (c ∷ s) = from_digits 0 (c ∷ s)

unfoldable pub parse_u32 : Text → Option ℕ
unfolding some_digits from_digits is_digit
parse_u32 [] = none
parse_u32 (c ∷ s) = if c == b'+' then some_digits s else some_digits (c ∷ s)

-- `name[..2]` counts bytes; `none` is the panic of a slice that ends inside a character.
first_two : Text → Option Text
first_two name =
    if length (utf8 (take 1 name)) == 2
    then some (take 1 name)
    else if length (utf8 (take 2 name)) == 2
    then some (take 2 name)
    else none

country_of : Option Text → Option (Result (Option Text))
country_of none = some (ok none)
country_of (some name) =
    if leb (length (utf8 name)) 1
    then some (err (message (codes "Invalid country name")))
    else if length (utf8 name) == 2
    then some (ok (some name))
    else elim (first_two name) [ none ↦ none | some two ↦ some (ok (some two)) ]

-- The parsed validity, and `checked_mul(86_400)`.
checked : ℕ → Result (Option ℕ)
checked n =
    if ltb (n * 86400) u32_size
    then ok (some n)
    else err (message (codes "Validity value is too large"))

validity_of : Option Text → Result (Option ℕ)
unfolding checked
validity_of none = ok none
validity_of (some value) = or_err (parse_u32 value) library >>= checked

fields_of :
    Option Text
    → Option Text
    → Option Text
    → Option Text
    → Result (Option Text)
    → Result CertificateFields
unfolding validity_of
fields_of org_name org_unit common_name validity country = do
  cn ← country
  val ← validity_of validity
  ok (record {
    org_name = org_name;
    org_unit = org_unit;
    country = cn;
    common_name = common_name;
    validity = val;
  })

unless_panic :
    Option Text
    → Option Text
    → Option Text
    → Option Text
    → Option (Result (Option Text))
    → Option (Result CertificateFields)
unfolding fields_of
unless_panic org_name org_unit common_name validity none = none
unless_panic org_name org_unit common_name validity (some country) =
    some (fields_of org_name org_unit common_name validity country)

-- `none` is a panic.
unfoldable pub from_fields :
    Option Text
    → Option Text
    → Option Text
    → Option Text
    → Option Text
    → Option (Result CertificateFields)
unfolding country_of first_two unless_panic
from_fields org_name org_unit country common_name validity =
    unless_panic org_name org_unit common_name validity (country_of country)
