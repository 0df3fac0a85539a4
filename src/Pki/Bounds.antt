-- ===== src/Pki/Bounds.antt =====
-- certificate_field.rs: the bounds that `from_fields` checks, and the arithmetic that relies on them.
use keysas.Base.{
  ℕ, ◌*◌, ◌<◌, ◌≡◌, sym, ap, ◌∙◌, Bool, Option, none, some, [], ◌∷◌, take, Text, Bytes, utf8,
  length, ltb→lt, ==_iff, Option-cases, inl, inr, Result, ok, or_err, library, >>=-eq-ok,
  or_err-eq-ok, ok-injective, arith,
}
use keysas.Pki.{
  CertificateFields, u32_size, first_two, country_of, checked, validity_of, fields_of, unless_panic,
  from_fields, parse_u32,
}
use keysas.Pki.Tbs.{
  RdnSequence, TbsCertificate, Encoding, seconds, generate_dn, authority_key,
  construct_tbs_certificate,
}

first_two-length : (name two : Text) → first_two name ≡ some two → length (utf8 two) ≡ 2
unfolding first_two
first_two-length name two e = ground (arith, ==_iff _ 2)

country-length :
    (country : Option Text) (cn : Text)
    → country_of country ≡ some (ok (some cn))
    → length (utf8 cn) ≡ 2
unfolding country_of
country-length none cn e = absurd (cc e)
country-length (some name) cn e = elim (Option-cases (first_two name)) [
  | inl n ↦ ground (arith, ==_iff _ 2)
  | inr (two, t) ↦ let size = first_two-length name two t in ground (arith, ==_iff _ 2)
]

validity-bound :
    (validity : Option Text) (days : ℕ)
    → validity_of validity ≡ ok (some days)
    → days * 86400 < u32_size
unfolding validity_of checked
validity-bound none days e = absurd (cc e)
validity-bound (some value) days e =
    let (n, e1, e2) = >>=-eq-ok (or_err (parse_u32 value) library) checked e in
    ground (arith, ltb→lt (n * 86400) u32_size)

seconds-exact : (days : ℕ) → days * 86400 < u32_size → seconds days ≡ days * 86400
unfolding seconds
seconds-exact days b = omega arith

abbrev InBounds : CertificateFields → Type 0
InBounds f =
    ((cn : Text) → f.country ≡ some cn → length (utf8 cn) ≡ 2)
    × ((days : ℕ) → f.validity ≡ some days → days * 86400 < u32_size)

fields_of-InBounds :
    (org_name org_unit country common_name validity : Option Text) (outcome : Result (Option Text))
    (f : CertificateFields)
    → country_of country ≡ some outcome
    → fields_of org_name org_unit common_name validity outcome ≡ ok f
    → InBounds f
unfolding fields_of
fields_of-InBounds org_name org_unit country common_name validity outcome f known e =
    let (cn, e1, e2) = >>=-eq-ok outcome _ e in
    let (val, e3, e4) = >>=-eq-ok (validity_of validity) _ e2 in
    (λ name g. country-length country name cc, λ days g. validity-bound validity days cc)

from_fields-some :
    (org_name org_unit country common_name validity : Option Text) (outcome : Result (Option Text))
    → country_of country ≡ some outcome
    → from_fields org_name org_unit country common_name validity
      ≡ some (fields_of org_name org_unit common_name validity outcome)
unfolding from_fields unless_panic
from_fields-some org_name org_unit country common_name validity outcome known =
    ap (unless_panic org_name org_unit common_name validity) known

from_fields-none :
    (org_name org_unit country common_name validity : Option Text)
    → country_of country ≡ none
    → from_fields org_name org_unit country common_name validity ≡ none
unfolding from_fields unless_panic
from_fields-none org_name org_unit country common_name validity unknown =
    ap (unless_panic org_name org_unit common_name validity) unknown

-- `from_fields` accepts only a country of two bytes, which is what a longer one is cut to, and a number
-- of days whose seconds fit in 32 bits.
pub from_fields-InBounds :
    (org_name org_unit country common_name validity : Option Text) (f : CertificateFields)
    → from_fields org_name org_unit country common_name validity ≡ some (ok f)
    → InBounds f
from_fields-InBounds org_name org_unit country common_name validity f e =
    elim (Option-cases (country_of country)) [
      | inl n ↦ absurd (cc (e, from_fields-none org_name org_unit country common_name validity n))
      | inr (outcome, known) ↦
          fields_of-InBounds org_name org_unit country common_name validity outcome f known
            (cc (e, from_fields-some org_name org_unit country common_name validity outcome known))
    ]

-- What is in a signed part.
pub construct-parts :
    (x : Encoding) (f : CertificateFields) (subject : RdnSequence) (key serial : Bytes) (oid : Text)
    (is_app : Bool) (tbs : TbsCertificate)
    → construct_tbs_certificate x f subject key serial oid is_app ≡ ok tbs
    → (tbs.subject ≡ subject)
      × (tbs.subject_public_key_info.algorithm ≡ oid)
      × (x.bit_string key ≡ some tbs.subject_public_key_info.subject_public_key)
      × ((days : ℕ) × (f.validity ≡ some days) × (x.from_now (seconds days) ≡ some tbs.validity))
unfolding construct_tbs_certificate
construct-parts x f subject key serial oid is_app tbs e =
    let (days, e1, f1) = >>=-eq-ok (or_err f.validity _) _ e in
    let (issuer, e2, f2) = >>=-eq-ok (generate_dn x f) _ f1 in
    let (pub_key, e3, f3) = >>=-eq-ok (or_err (x.bit_string key) _) _ f2 in
    let (authority, e4, f4) = >>=-eq-ok (authority_key x is_app issuer) _ f3 in
    let (usage, e5, f5) = >>=-eq-ok (or_err (x.octet_string (1 ∷ 0 ∷ [])) _) _ f4 in
    let (number, e6, f6) = >>=-eq-ok (or_err (x.serial_new (take 19 serial)) _) _ f5 in
    let (validity, e7, f7) = >>=-eq-ok (or_err (x.from_now (seconds days)) _) _ f6 in
    let key_is = or_err-eq-ok (x.bit_string key) _ e3 in
    let until = or_err-eq-ok (x.from_now (seconds days)) _ e7 in
    let same = ok-injective f7 in
    (
      sym (ap (λ t. t.subject) same),
      sym (ap (λ t. t.subject_public_key_info.algorithm) same),
      key_is ∙ ap (λ t. some t.subject_public_key_info.subject_public_key) same,
      (days, or_err-eq-ok f.validity _ e1, until ∙ ap (λ t. some t.validity) same),
    )

-- A signed part made of the fields that `from_fields` accepted has the validity that `from_now` gives
-- for the seconds of the days of the fields: they fit in 32 bits, so the product does not wrap around.
pub construct-validity :
    (x : Encoding) (org_name org_unit country common_name validity : Option Text)
    (f : CertificateFields) (subject : RdnSequence) (key serial : Bytes) (oid : Text)
    (is_app : Bool) (tbs : TbsCertificate)
    → from_fields org_name org_unit country common_name validity ≡ some (ok f)
    → construct_tbs_certificate x f subject key serial oid is_app ≡ ok tbs
    → (days : ℕ) × (f.validity ≡ some days)
      × (days * 86400 < u32_size)
      × (x.from_now (days * 86400) ≡ some tbs.validity)
construct-validity x org_name org_unit country common_name validity f subject key serial oid is_app
      tbs made e =
    let (_, _, _, (days, given, until)) = construct-parts x f subject key serial oid is_app tbs e in
    let bound =
      (from_fields-InBounds org_name org_unit country common_name validity f made).1 days given in
    (days, given, bound, sym (ap x.from_now (seconds-exact days bound)) ∙ until)
