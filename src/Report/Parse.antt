-- ===== src/Report/Parse.antt =====
-- file_report.rs: what an accepted report has passed.
use keysas.Base.{
  drop, ◌<◌, ◌≡◌, sym, ap, true, ◌||◌, Option, none, some, ◌∷◌, ◌++◌, [], List, Text, Bytes, utf8,
  take, length, ok, or_err, >>=-eq-ok, ensure-eq-ok, or_err-eq-ok, text_eq_iff, split, is_empty,
  Option-cases, inl, inr, arith,
}
use mathlib.Core.Path.{ap₂, subst}
use keysas.Signing.{Certificate, Crypto, validate_signing_certificate}
use keysas.Report.{
  Report, MetaData, FileMetadata, Json, Disk, bind_and_sign, two_parts, file_reference,
  metadata_reference, check_signatures, check_binding, parse_report,
}

-- `report` binds `content` to its metadata by a text that both keys have signed.
pub record IsBound (c : Crypto) (j : Json) (content : Bytes) (report : Report) (cl pq : Certificate)
    : Type 0 where
  pub json : Text
  pub signature : Bytes
  pub json_of : j.metadata_to_string report.metadata ≡ some json
  pub decoded : c.b64_decode report.binding.report_signature ≡ some signature
  pub file_matches : c.b64_encode (utf8 (c.sha256_hex content)) ≡ report.binding.file_digest
  pub metadata_matches :
      c.b64_encode (utf8 (c.sha256_hex (utf8 json))) ≡ report.binding.metadata_digest
  pub long : 64 < length signature
  pub ed_signed :
      c.ed_verify cl.public_key
        (utf8 (c.sha256_hex content ++ b'-' ∷ c.sha256_hex (utf8 json)))
        (take 64 signature)
      ≡ true
  pub pq_signed :
      c.pq_verify
        (utf8 (c.sha256_hex content ++ b'-' ∷ c.sha256_hex (utf8 json)))
        (drop 64 signature)
        pq.public_key
      ≡ true

check_signatures-ok :
    (c : Crypto) (cl pq : Certificate) (msg s : Bytes)
    → check_signatures c cl pq msg s ≡ ok tt
    → (64 < length s)
      × (c.ed_verify cl.public_key msg (take 64 s) ≡ true)
      × (c.pq_verify msg (drop 64 s) pq.public_key ≡ true)
unfolding check_signatures
check_signatures-ok c cl pq msg s h = ground arith

file_reference-ok :
    (c : Crypto) (d : Disk) (r : Report) (path digest : Text)
    → file_reference c d r (some path) ≡ ok digest
    → (content : Bytes) × (d.read path ≡ some content)
      × (c.b64_encode (utf8 (c.sha256_hex content)) ≡ r.binding.file_digest)
      × (digest ≡ c.sha256_hex content)
unfolding file_reference
file_reference-ok c d r path digest h = elim (Option-cases (d.read path)) [
  | inl e ↦ ground arith
  | inr (content, e) ↦ (
    content,
    e,
    ground (arith, text_eq_iff (c.b64_encode (utf8 (c.sha256_hex content))) r.binding.file_digest),
    ground arith,
  )
]

metadata_reference-ok :
    (c : Crypto) (j : Json) (r : Report) (digest : Text)
    → metadata_reference c j r ≡ ok digest
    → (json : Text) × (j.metadata_to_string r.metadata ≡ some json)
      × (c.b64_encode (utf8 (c.sha256_hex (utf8 json))) ≡ r.binding.metadata_digest)
      × (digest ≡ c.sha256_hex (utf8 json))
unfolding metadata_reference
metadata_reference-ok c j r digest h = elim (Option-cases (j.metadata_to_string r.metadata)) [
  | inl e ↦ ground arith
  | inr (json, e) ↦ (
    json,
    e,
    ground (
      arith,
      text_eq_iff (c.b64_encode (utf8 (c.sha256_hex (utf8 json)))) r.binding.metadata_digest,
    ),
    ground arith,
  )
]

bound :
    (c : Crypto) (j : Json) (r : Report) (cl pq : Certificate) (content : Bytes) (json fd md : Text)
    (s : Bytes)
    → c.b64_encode (utf8 (c.sha256_hex content)) ≡ r.binding.file_digest
    → fd ≡ c.sha256_hex content
    → j.metadata_to_string r.metadata ≡ some json
    → c.b64_encode (utf8 (c.sha256_hex (utf8 json))) ≡ r.binding.metadata_digest
    → md ≡ c.sha256_hex (utf8 json)
    → c.b64_decode r.binding.report_signature ≡ some s
    → check_signatures c cl pq (utf8 (fd ++ b'-' ∷ md)) s ≡ ok tt
    → IsBound c j content r cl pq
bound c j r cl pq content json fd md s ef efd ej em emd es ec =
    let message : Text = c.sha256_hex content ++ b'-' ∷ c.sha256_hex (utf8 json) in
    let e : fd ++ b'-' ∷ md ≡ message = ap₂ (λ a b. a ++ b'-' ∷ b) efd emd in
    let (long, ed, pqs) =
      check_signatures-ok c cl pq (utf8 message) s
        (subst (λ m. check_signatures c cl pq (utf8 m) s ≡ ok tt) e ec) in
    record {
      json = json;
      signature = s;
      json_of = ej;
      decoded = es;
      file_matches = ef;
      metadata_matches = em;
      long = long;
      ed_signed = ed;
      pq_signed = pqs;
    }

check_binding-ok :
    (c : Crypto) (j : Json) (d : Disk) (r out : Report) (path : Text) (cl pq : Certificate)
    → check_binding c j d r (some path) cl pq ≡ ok out
    → (out ≡ r) × ((content : Bytes) × (d.read path ≡ some content) × IsBound c j content r cl pq)
unfolding check_binding
check_binding-ok c j d r out path cl pq h =
    let (fd, hf, h1) = >>=-eq-ok (file_reference c d r (some path)) _ h in
    let (md, hm, h2) = >>=-eq-ok (metadata_reference c j r) _ h1 in
    let (s, hs, h3) = >>=-eq-ok (or_err (c.b64_decode r.binding.report_signature) _) _ h2 in
    let (u, hc, h4) = >>=-eq-ok (check_signatures c cl pq (utf8 (fd ++ b'-' ∷ md)) s) _ h3 in
    let (content, ec, ef, efd) = file_reference-ok c d r path fd hf in
    let (json, ej, em, emd) = metadata_reference-ok c j r md hm in
    (
      cc h4,
      (
        content,
        ec,
        bound c j r cl pq content json fd md s ef efd ej em emd (or_err-eq-ok _ _ hs) hc,
      ),
    )

two_parts-ok : (parts : List Text) (a b : Text) → two_parts parts ≡ ok (a, b) → parts ≡ a ∷ b ∷ []
unfolding two_parts
two_parts-ok [] a b h = cc
two_parts-ok (x ∷ []) a b h = cc
two_parts-ok (x ∷ y ∷ []) a b h = ground arith
two_parts-ok (x ∷ y ∷ z ∷ zs) a b h = cc

module _ (c : Crypto) (j : Json) (d : Disk) (report_path path : Text)
    (ca_cl ca_pq : Option Certificate) where
  -- The text on disk parses to `r`, which names two accepted certificates and binds the file.
  pub record IsAccepted (r : Report) : Type 0 where
    pub text : Text
    pub pem_cl : Text
    pub pem_pq : Text
    pub cl : Certificate
    pub pq : Certificate
    pub content : Bytes
    pub text_read : d.read_to_string report_path ≡ some text
    pub parsed : j.report_from_str text ≡ some r
    pub two_certificates : split b'|' r.binding.station_certificate ≡ pem_cl ∷ pem_pq ∷ []
    pub cl_valid : validate_signing_certificate c pem_cl ca_cl ≡ ok cl
    pub pq_valid : validate_signing_certificate c pem_pq ca_pq ≡ ok pq
    pub file_read : d.read path ≡ some content
    pub is_bound : IsBound c j content r cl pq

  accepted :
      (text pem_cl pem_pq : Text) (report : Report) (cl pq : Certificate) (r : Report)
      → d.read_to_string report_path ≡ some text
      → j.report_from_str text ≡ some report
      → two_parts (split b'|' report.binding.station_certificate) ≡ ok (pem_cl, pem_pq)
      → validate_signing_certificate c pem_cl ca_cl ≡ ok cl
      → validate_signing_certificate c pem_pq ca_pq ≡ ok pq
      → check_binding c j d report (some path) cl pq ≡ ok r
      → IsAccepted r
  accepted text pem_cl pem_pq report cl pq r ht hr hp hcl hpq h =
      let (same, (content, ec, b)) = check_binding-ok c j d report r path cl pq h in
      subst IsAccepted (sym same) (record {
        text = text;
        pem_cl = pem_cl;
        pem_pq = pem_pq;
        cl = cl;
        pq = pq;
        content = content;
        text_read = ht;
        parsed = hr;
        two_certificates =
            two_parts-ok (split b'|' report.binding.station_certificate) pem_cl pem_pq hp;
        cl_valid = hcl;
        pq_valid = hpq;
        file_read = ec;
        is_bound = b;
      })

  -- A report is accepted for a file only if: the text on disk parses to it; its certificate field has
  -- exactly two parts, each accepted as a signing certificate under its authority; the file's digest
  -- and the digest of the report's metadata are the two that the binding names; and both signatures
  -- verify, under the keys of those certificates, on the text that joins the two digests.
  pub parse_report-IsAccepted :
      (r : Report) → parse_report c j d report_path (some path) ca_cl ca_pq ≡ ok r → IsAccepted r
  unfolding parse_report
  parse_report-IsAccepted r h =
      let (text, ht, h1) = >>=-eq-ok (or_err (d.read_to_string report_path) _) _ h in
      let (report, hr, h2) = >>=-eq-ok (or_err (j.report_from_str text) _) _ h1 in
      let (_, h3) = ensure-eq-ok (is_empty report.metadata.name || true) _ _ h2 in
      let (certs, hp, h4) =
        >>=-eq-ok (two_parts (split b'|' report.binding.station_certificate)) _ h3 in
      let (cl, hcl, h5) = >>=-eq-ok (validate_signing_certificate c certs.0 ca_cl) _ h4 in
      let (pq, hpq, h6) = >>=-eq-ok (validate_signing_certificate c certs.1 ca_pq) _ h5 in
      accepted text certs.0 certs.1 report cl pq r (or_err-eq-ok _ _ ht) (or_err-eq-ok _ _ hr) hp
        hcl hpq h6

  sign_none :
      (f : FileMetadata) (meta : MetaData) (sign_cert : Text) (r : Report)
      → bind_and_sign c j f meta none sign_cert ≡ ok r
      → r.binding.report_signature ≡ c.b64_encode []
  unfolding bind_and_sign
  sign_none f meta sign_cert r h =
      let (json, ej, h1) = >>=-eq-ok (or_err (j.metadata_to_string meta) _) _ h in cc h1

  -- A report made without signing keys is never accepted for a file, given that base64 decodes the
  -- empty text it encodes.
  pub parse_report-unsigned :
      (f : FileMetadata) (meta : MetaData) (sign_cert : Text) (r : Report)
      → c.b64_decode (c.b64_encode []) ≡ some []
      → bind_and_sign c j f meta none sign_cert ≡ ok r
      → ¬ (parse_report c j d report_path (some path) ca_cl ca_pq ≡ ok r)
  parse_report-unsigned f meta sign_cert r b64 made h =
      let b = (parse_report-IsAccepted r h).is_bound in
      let e : b.signature ≡ [] =
        cc (b.decoded, b64, ap c.b64_decode (sign_none f meta sign_cert r made)) in
      let short : length b.signature ≡ 0 = ap (λ (l : Bytes). length l) e in
      omega (arith, b.long, short)
