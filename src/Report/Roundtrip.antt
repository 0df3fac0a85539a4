-- ===== src/Report/Roundtrip.antt =====
-- file_report.rs: a report from `bind_and_sign`, as `parse_report` reads it.
use keysas.Base.{
  drop, ◌<◌, ◌≡◌, refl, sym, ap, ◌∙◌, Bool, true, false, ◌||◌, Option, some, ◌∷◌, ◌++◌, [], Text,
  Bytes, utf8, take, length, length-append, HasNo, split-pair, ok, or_err, >>=-eq-ok, or_err-eq-ok,
  text_eq_refl, is_empty, ltb, lt→ltb, arith, ==_iff,
}
use keysas.Signing.{Certificate, Crypto, validate_signing_certificate}
use keysas.Report.{
  Report, MetaData, FileMetadata, Json, Disk, HybridKeyPair, sign_with, two_parts, file_reference,
  metadata_reference, check_signatures, check_binding, bind_and_sign, parse_report,
}

-- The certificates are those of the signing keys: what the keys sign, the libraries verify under the
-- public keys that the certificates carry. An Ed25519 signature has 64 bytes.
pub record KeysMatch (c : Crypto) (keys : HybridKeyPair) (cl pq : Certificate) : Type 0 where
  pub ed_length : length cl.public_key ≡ 32
  pub ed_parses : c.ed_key cl.public_key ≡ true
  pub pq_available : c.pq_scheme ≡ true
  pub pq_parses : c.pq_key pq.public_key ≡ true
  pub ed_verifies :
      (m s : Bytes)
      → keys.classic_sign m ≡ some s
      → (length s ≡ 64) × (c.ed_verify cl.public_key m s ≡ true)
  pub pq_verifies :
      (m s : Bytes)
      → keys.pq_sign m ≡ some s
      → (0 < length s) × (c.pq_signature s ≡ true) × (c.pq_verify m s pq.public_key ≡ true)

take-append_exact : (xs ys : Bytes) → take (length xs) (xs ++ ys) ≡ xs
take-append_exact [] ys = refl
take-append_exact (x ∷ xs) ys = ap (λ l. x ∷ l) (take-append_exact xs ys)

drop-append_exact : (xs ys : Bytes) → drop (length xs) (xs ++ ys) ≡ ys
drop-append_exact [] ys = refl
drop-append_exact (x ∷ xs) ys = drop-append_exact xs ys

check_signatures-sign :
    (c : Crypto) (keys : HybridKeyPair) (cl pq : Certificate) (m sc sp : Bytes)
    → KeysMatch c keys cl pq
    → keys.classic_sign m ≡ some sc
    → keys.pq_sign m ≡ some sp
    → check_signatures c cl pq m (sc ++ sp) ≡ ok tt
unfolding check_signatures
check_signatures-sign c keys cl pq m sc sp k ec ep =
    let (l, ed) = k.ed_verifies m sc ec in
    let (n, parses, pqv) = k.pq_verifies m sp ep in
    let ht : take 64 (sc ++ sp) ≡ sc =
      ap (λ n. take n (sc ++ sp)) (sym l) ∙ take-append_exact sc sp in
    let hd : drop 64 (sc ++ sp) ≡ sp =
      ap (λ n. drop n (sc ++ sp)) (sym l) ∙ drop-append_exact sc sp in
    let long : ltb 64 (length (sc ++ sp)) ≡ true =
      lt→ltb 64 (length (sc ++ sp)) (omega (arith, length-append sc sp)) in
    rw (
      long,
      (==_iff (length cl.public_key) 32).1 k.ed_length,
      k.ed_parses,
      ht,
      ed,
      k.pq_available,
      k.pq_parses,
      hd,
      parses,
      pqv,
    )

-- The report that two signatures of the digests give.
abbrev report_of : Crypto → FileMetadata → MetaData → Text → Text → Bytes → Report
report_of c f meta json sign_cert signature = record {
  metadata = meta;
  binding = record {
    file_digest = c.b64_encode (utf8 f.digest);
    metadata_digest = c.b64_encode (utf8 (c.sha256_hex (utf8 json)));
    station_certificate = sign_cert;
    report_signature = c.b64_encode signature;
  };
}

abbrev message_of : Crypto → FileMetadata → Text → Bytes
message_of c f json = utf8 (f.digest ++ b'-' ∷ c.sha256_hex (utf8 json))

bind_and_sign-ok :
    (c : Crypto) (j : Json) (f : FileMetadata) (meta : MetaData) (keys : HybridKeyPair)
    (sign_cert : Text) (r : Report)
    → bind_and_sign c j f meta (some keys) sign_cert ≡ ok r
    → (json : Text) × (sc : Bytes) × (sp : Bytes) × (j.metadata_to_string meta ≡ some json)
      × (keys.classic_sign (message_of c f json) ≡ some sc)
      × (keys.pq_sign (message_of c f json) ≡ some sp)
      × (r ≡ report_of c f meta json sign_cert (sc ++ sp))
unfolding bind_and_sign
bind_and_sign-ok c j f meta keys sign_cert r h =
    let (json, ej, h1) = >>=-eq-ok (or_err (j.metadata_to_string meta) _) _ h in
    let (signature, es, h2) = >>=-eq-ok (sign_with (some keys) (message_of c f json)) _ h1 in
    let (sc, ec, h3) = >>=-eq-ok (or_err (keys.classic_sign (message_of c f json)) _) _ es in
    let (sp, ep, h4) = >>=-eq-ok (or_err (keys.pq_sign (message_of c f json)) _) _ h3 in
    (json, sc, sp, or_err-eq-ok _ _ ej, or_err-eq-ok _ _ ec, or_err-eq-ok _ _ ep, cc (h2, h4))

or_true : (b : Bool) → (b || true) ≡ true
or_true true = refl
or_true false = refl

module _ (c : Crypto) (j : Json) (d : Disk)
    (b64 : (b : Bytes) → c.b64_decode (c.b64_encode b) ≡ some b) where
  check_binding-report_of :
      (f : FileMetadata) (meta : MetaData) (keys : HybridKeyPair) (cl pq : Certificate)
      (json sign_cert path : Text) (content sc sp : Bytes)
      → KeysMatch c keys cl pq
      → d.read path ≡ some content
      → c.sha256_hex content ≡ f.digest
      → j.metadata_to_string meta ≡ some json
      → keys.classic_sign (message_of c f json) ≡ some sc
      → keys.pq_sign (message_of c f json) ≡ some sp
      → check_binding c j d (report_of c f meta json sign_cert (sc ++ sp)) (some path) cl pq
        ≡ ok (report_of c f meta json sign_cert (sc ++ sp))
  unfolding check_binding file_reference metadata_reference
  check_binding-report_of f meta keys cl pq json sign_cert path content sc sp k hr hd hj hc hp =
      rw (
        hr,
        hd,
        text_eq_refl (c.b64_encode (utf8 f.digest)),
        hj,
        text_eq_refl (c.b64_encode (utf8 (c.sha256_hex (utf8 json)))),
        b64 (sc ++ sp),
        check_signatures-sign c keys cl pq (message_of c f json) sc sp k hc hp,
      )

  -- A report that `bind_and_sign` makes with the station's keys, its certificate field being the two
  -- certificates joined by a bar, is accepted by `parse_report` for a file whose digest is the one
  -- signed. This is when base64 decodes what it encodes, the text on disk parses to the report, no
  -- certificate text holds a bar, both are accepted under their authorities, and they are those of
  -- the signing keys.
  pub parse-bind_and_sign :
      (f : FileMetadata) (meta : MetaData) (keys : HybridKeyPair) (cl pq : Certificate)
      (ca_cl ca_pq : Option Certificate) (pem_cl pem_pq report_path path text : Text)
      (content : Bytes) (r : Report)
      → HasNo b'|' pem_cl
      → HasNo b'|' pem_pq
      → validate_signing_certificate c pem_cl ca_cl ≡ ok cl
      → validate_signing_certificate c pem_pq ca_pq ≡ ok pq
      → KeysMatch c keys cl pq
      → bind_and_sign c j f meta (some keys) (pem_cl ++ b'|' ∷ pem_pq) ≡ ok r
      → d.read_to_string report_path ≡ some text
      → j.report_from_str text ≡ some r
      → d.read path ≡ some content
      → c.sha256_hex content ≡ f.digest
      → parse_report c j d report_path (some path) ca_cl ca_pq ≡ ok r
  unfolding parse_report two_parts
  parse-bind_and_sign f meta keys cl pq ca_cl ca_pq pem_cl pem_pq report_path path text content r
        ncl npq vcl vpq k made ht hr hc hd =
      let (json, sc, sp, ej, ec, ep, er) =
        bind_and_sign-ok c j f meta keys (pem_cl ++ b'|' ∷ pem_pq) r made in
      let checked =
        check_binding-report_of f meta keys cl pq json (pem_cl ++ b'|' ∷ pem_pq) path content sc sp
          k hc hd ej ec ep in
      rw (ht, hr, er, or_true (is_empty meta.name), split-pair b'|' pem_cl pem_pq ncl npq, vcl, vpq)
        checked
