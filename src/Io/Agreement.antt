-- ===== src/Io/Agreement.antt =====
-- The signature of a device as keysas-io checks it and as the firewall of a workstation does.
use keysas.Base.{
  ℕ, ◌≡◌, refl, ap, ◌∙◌, true, Option, some, List, [], ◌∷◌, Text, Bytes, utf8, length, drop, leb,
  split, ◌==◌, Result, ok, err, or_err, is_ok, >>=-eq-ok, ensure-eq-ok, or_err-eq-ok,
}
use mathlib.Core.Path.{subst}
use keysas.Signing.{Crypto}
use keysas.Firewall.{
  HybridPubKeys, UsbDevice, verify_key_signatures, validate_usb_signature, signed_data,
}
use keysas.Firewall.Monitor.{ends_with_digit, raw_device, read_block, extract_signature}
use keysas.Io.{
  read_exact, be_u32, two_signatures, parse_signature, get_signature, device_data, verified,
  is_signed, remove_last,
}

two_signatures-parts :
    (parts : List Text) (cl pq : Text) → two_signatures parts ≡ ok (cl, pq) → parts ≡ cl ∷ pq ∷ []
unfolding two_signatures
two_signatures-parts [] cl pq e = absurd (cc e)
two_signatures-parts (a ∷ []) cl pq e = absurd (cc e)
two_signatures-parts (a ∷ b ∷ []) cl pq e = cc e
two_signatures-parts (a ∷ b ∷ d ∷ parts) cl pq e = absurd (cc e)

module _ (c : Crypto) (from_utf8 : Bytes → Option Text) (lossy : Text → Text) where
  read_block-eq :
      (bytes buffer : Bytes) (n : ℕ) (text : Text)
      → read_exact n (drop 4 bytes) ≡ some buffer
      → from_utf8 buffer ≡ some text
      → read_block from_utf8 bytes n ≡ ok (some text)
  unfolding read_block
  read_block-eq bytes buffer n text e t = rw (e, t) refl

  extract_signature-eq :
      (content : Option Bytes) (bytes buf : Bytes) {r : Result (Option Text)}
      → content ≡ some bytes
      → read_exact 4 bytes ≡ some buf
      → leb (be_u32 buf) 7684 ≡ true
      → read_block from_utf8 bytes (be_u32 buf) ≡ r
      → extract_signature from_utf8 content ≡ r
  unfolding extract_signature
  extract_signature-eq content bytes buf c' e small same = rw (c', e, small) same

  -- What keysas-io reads, the monitor of the firewall reads too.
  get_signature-extract :
      (content : Option Bytes) (sig : Bytes × Bytes)
      → get_signature c from_utf8 content ≡ ok sig
      → (text : Text) × (extract_signature from_utf8 content ≡ ok (some text))
        × (parse_signature c from_utf8 text ≡ ok sig)
  unfolding get_signature
  get_signature-extract content sig e =
      let (bytes, e1, e2) = >>=-eq-ok (or_err content _) _ e in
      let (buf, e3, e4) = >>=-eq-ok (or_err (read_exact 4 bytes) _) _ e2 in
      let (small, e5) = ensure-eq-ok (leb (be_u32 buf) 7684) _ _ e4 in
      let (buffer, e6, e7) = >>=-eq-ok (or_err (read_exact (be_u32 buf) (drop 4 bytes)) _) _ e5 in
      let (text, e8, e9) = >>=-eq-ok (or_err (from_utf8 buffer) _) _ e7 in
      (
        text,
        extract_signature-eq content bytes buf (or_err-eq-ok content _ e1) (or_err-eq-ok _ _ e3)
            small
            (read_block-eq bytes buffer (be_u32 buf) text (or_err-eq-ok _ _ e6)
              (or_err-eq-ok _ _ e8)),
        e9,
      )

  validated :
      (pubkeys : HybridPubKeys) (d : UsbDevice) (text cl pq : Text) (classic pq_bytes : Bytes)
      → split b'|' text ≡ cl ∷ pq ∷ []
      → c.b64_decode cl ≡ some classic
      → c.b64_decode pq ≡ some pq_bytes
      → (length classic == 64) ≡ true
      → c.pq_scheme ≡ true
      → c.pq_signature pq_bytes ≡ true
      → validate_usb_signature c lossy pubkeys d text
        ≡ ok (
            is_ok (verify_key_signatures c (utf8 (signed_data c lossy d)) classic pq_bytes pubkeys))
  unfolding validate_usb_signature
  validated pubkeys d text cl pq classic pq_bytes s d1 d2 size scheme sound =
      rw (s, d1, size, d2, scheme, sound) refl

  -- What keysas-io parses, the firewall parses to the same.
  parse_signature-validate :
      (pubkeys : HybridPubKeys) (d : UsbDevice) (text : Text) (sig : Bytes × Bytes)
      → parse_signature c from_utf8 text ≡ ok sig
      → validate_usb_signature c lossy pubkeys d text
        ≡ ok (is_ok (verify_key_signatures c (utf8 (signed_data c lossy d)) sig.0 sig.1 pubkeys))
  unfolding parse_signature
  parse_signature-validate pubkeys d text sig e =
      let (parts, e1, e2) = >>=-eq-ok (two_signatures (split b'|' text)) _ e in
      let (cl, e3, e4) = >>=-eq-ok (or_err (c.b64_decode parts.0) _) _ e2 in
      let (pq, e5, e6) = >>=-eq-ok (or_err (c.b64_decode parts.1) _) _ e4 in
      let (size, e7) = ensure-eq-ok (length cl == 64) _ _ e6 in
      let (scheme, e8) = ensure-eq-ok c.pq_scheme _ _ e7 in
      let (sound, e9) = ensure-eq-ok (c.pq_signature pq) _ _ e8 in
      let same : (cl, pq) ≡ sig = cc e9 in
      subst
        (λ x.
          validate_usb_signature c lossy pubkeys d text
          ≡ ok (is_ok (verify_key_signatures c (utf8 (signed_data c lossy d)) x.0 x.1 pubkeys)))
        same
        (validated pubkeys d text parts.0 parts.1 cl pq (two_signatures-parts _ parts.0 parts.1 e1)
          (or_err-eq-ok _ _ e3) (or_err-eq-ok _ _ e5) size scheme sound)

  verified-validate :
      (pubkeys : HybridPubKeys) (d : UsbDevice) (content : Option Bytes)
      (r : Result (Bytes × Bytes))
      → get_signature c from_utf8 content ≡ r
      → verified c from_utf8 (signed_data c lossy d) pubkeys r ≡ true
      → (text : Text) × (extract_signature from_utf8 content ≡ ok (some text))
        × (validate_usb_signature c lossy pubkeys d text ≡ ok true)
  unfolding verified
  verified-validate pubkeys d content (err x) e v = absurd (cc v)
  verified-validate pubkeys d content (ok (cl, pq)) e v =
      let (text, read, parsed) = get_signature-extract content (cl, pq) e in
      (text, read, parse_signature-validate pubkeys d text (cl, pq) parsed ∙ ap (λ b. ok b) v)

  -- Where keysas-io takes a partition, whose name ends with a digit, for that of a signed device, the
  -- monitor of the firewall reads a block of signatures from the disk, and the controller's check of that
  -- block holds, under the same keys and of the same properties.
  pub is_signed-validate_usb_signature :
      (read : Text → Option Bytes) (pubkeys : HybridPubKeys) (devnode : Text) (d : UsbDevice)
      → ends_with_digit devnode ≡ true
      → is_signed c from_utf8 read
          (ok (some pubkeys))
          devnode
          (lossy d.vendor)
          (lossy d.model)
          (lossy d.revision)
          (lossy d.serial)
        ≡ true
      → (text : Text) × (extract_signature from_utf8 (read (raw_device devnode)) ≡ ok (some text))
        × (validate_usb_signature c lossy pubkeys d text ≡ ok true)
  unfolding is_signed device_data signed_data raw_device
  is_signed-validate_usb_signature read pubkeys devnode d digit e =
      let (text, block, valid) =
        verified-validate pubkeys d (read (remove_last devnode))
          (get_signature c from_utf8 (read (remove_last devnode))) refl e in
      (text, rw digit block, valid)
