-- ===== src/Admin/Signature.antt =====
-- A device that the administrator signs is taken for signed by the station and by the firewall.
use keysas.Base.{
  ℕ, ◌≤◌, ◌≡◌, refl, sym, ap, ◌∙◌, true, Option, some, [], ◌∷◌, ◌++◌, Text, Bytes, codes, utf8,
  length, drop, leb, ◌==◌, split-pair, HasNo, ok, arith,
}
use mathlib.Core.List.{append-nil}
use keysas.Signing.{Crypto}
use keysas.Io.{
  read_exact, be_u32, two_signatures, parse_signature, get_signature, device_data, verified,
  is_signed, remove_last,
}
use keysas.Firewall.{
  HybridPubKeys, UsbDevice, SecurityPolicy, verify_key_signatures, evaluate, trusted_auth,
}
use keysas.Firewall.Monitor.{ends_with_digit, raw_device, read_block, extract_signature}
use keysas.Io.Agreement.{is_signed-validate_usb_signature}
use keysas.Admin.{
  to_be_bytes, NewUsb, KeyStore, Mbr, Device, whole, sign_device, write_block, write_signature,
  sign_parted, first_entry, write_table, make_table, sign_usb,
}
use keysas.Admin.Disk.{read_exact-append, be_u32-to_be_bytes, write_block-drop}

-- A block of `bytes` with its size, and the readers of it.
module _ (from_utf8 : Bytes → Option Text) (bytes rest : Bytes) (text : Text)
    (small : length bytes ≤ 7684) (valid : from_utf8 bytes ≡ some text) where
  abbrev content : Bytes
  content = to_be_bytes (length bytes) ++ (bytes ++ rest)

  size_read : read_exact 4 content ≡ some (to_be_bytes (length bytes))
  unfolding to_be_bytes
  size_read = read_exact-append (to_be_bytes (length bytes)) (bytes ++ rest)

  size_back : be_u32 (to_be_bytes (length bytes)) ≡ length bytes
  size_back =
      ap be_u32 (sym (append-nil (to_be_bytes (length bytes))))
      ∙ be_u32-to_be_bytes (length bytes) [] (omega arith)

  size_small : leb (length bytes) 7684 ≡ true
  size_small = ground arith

  body_read : read_exact (length bytes) (drop 4 content) ≡ some bytes
  unfolding to_be_bytes
  body_read = read_exact-append bytes rest

  pub get_signature-block :
      (c : Crypto) → get_signature c from_utf8 (some content) ≡ parse_signature c from_utf8 text
  unfolding get_signature
  get_signature-block c = rw (size_read, size_back, size_small, body_read, valid) refl

  pub extract_signature-block : extract_signature from_utf8 (some content) ≡ ok (some text)
  unfolding extract_signature read_block
  extract_signature-block = rw (size_read, size_back, size_small, body_read, valid) refl

-- The keys of the authority, and the two signatures that they make of the device's properties.
module _ {T : Type 0} (mbr : Mbr T) (c : Crypto) (from_utf8 : Bytes → Option Text) (keys : KeyStore)
    (pubkeys : HybridPubKeys) (dir : Text) (usb : NewUsb) (password : Text) (cl pq : Bytes)
    (sign_cl sign_pq : Bytes → Option Bytes) where
  abbrev signed_text : Bytes
  signed_text = utf8 (device_data c from_utf8 usb.vendor usb.model usb.revision usb.serial)

  abbrev block : Text
  block = c.b64_encode cl ++ b'|' ∷ c.b64_encode pq

  module _ (load_cl : keys.load_classic (dir ++ codes "/CA/usb/usb-cl.p8") password ≡ some sign_cl)
      (load_pq : keys.load_pq (dir ++ codes "/CA/usb/usb-pq.p8") password ≡ some sign_pq)
      (made_cl : sign_cl signed_text ≡ some cl) (made_pq : sign_pq signed_text ≡ some pq) where
    sign_device-block :
        sign_device c keys usb
          (codes "out")
          (dir ++ codes "/CA/usb/usb-cl.p8")
          (dir ++ codes "/CA/usb/usb-pq.p8")
          password
        ≡ ok block
    unfolding sign_device device_data
    sign_device-block = rw (load_cl, load_pq, made_cl, made_pq) refl

    sign_usb-write_block :
        (dev : Device) (disk parted : Bytes) (table : T) (sectors : ℕ)
        → dev.opens ≡ true
        → mbr.new_from disk ≡ some table
        → mbr.get_maximum_partition_size table ≡ some sectors
        → mbr.write_into (mbr.set_first (first_entry mbr c keys (some dir) sectors) table) disk
          ≡ (parted, true)
        → sign_usb mbr c keys (some dir) dev usb (codes "out") password disk
          ≡ write_block dev block parted
    unfolding sign_usb make_table write_table sign_parted write_signature
    sign_usb-write_block dev disk parted table sectors o t m w =
        rw (o) (rw (t, make_table) (rw (m, make_table) (rw (w) (rw (sign_device-block) refl))))

  parse_signature-block :
      c.b64_decode (c.b64_encode cl) ≡ some cl
      → c.b64_decode (c.b64_encode pq) ≡ some pq
      → HasNo b'|' (c.b64_encode cl)
      → HasNo b'|' (c.b64_encode pq)
      → (length cl == 64) ≡ true
      → c.pq_scheme ≡ true
      → c.pq_signature pq ≡ true
      → parse_signature c from_utf8 block ≡ ok (cl, pq)
  unfolding parse_signature
  parse_signature-block decodes_cl decodes_pq bars_cl bars_pq size scheme sound =
      rw
        (
          split-pair b'|' (c.b64_encode cl) (c.b64_encode pq) bars_cl bars_pq,
          two_signatures,
          decodes_cl,
          decodes_pq,
          size,
          scheme,
          sound,
        )
        refl

  -- Keys and crates that behave: the encoding of the two signatures is undone by the decoding and has no
  -- bar in it, they have their form and verify, and the block is read back from its UTF-8.
  module _ (decodes_cl : c.b64_decode (c.b64_encode cl) ≡ some cl)
      (decodes_pq : c.b64_decode (c.b64_encode pq) ≡ some pq)
      (bars_cl : HasNo b'|' (c.b64_encode cl)) (bars_pq : HasNo b'|' (c.b64_encode pq))
      (size : (length cl == 64) ≡ true) (scheme : c.pq_scheme ≡ true)
      (sound : c.pq_signature pq ≡ true)
      (verifies_cl : c.ed_verify pubkeys.classic signed_text cl ≡ true)
      (verifies_pq : c.pq_verify signed_text pq pubkeys.pq ≡ true)
      (valid : from_utf8 (utf8 block) ≡ some block) (fits : length (utf8 block) ≤ 7684) where
    verified-block :
        verified c from_utf8
          (device_data c from_utf8 usb.vendor usb.model usb.revision usb.serial)
          pubkeys
          (ok (cl, pq))
        ≡ true
    unfolding verified verify_key_signatures
    verified-block = simp (verifies_cl, scheme, verifies_pq)

    -- A disk with the block behind its first sector.
    is_signed-content :
        (read : Text → Option Bytes) (devnode : Text) (rest : Bytes)
        → read (remove_last devnode)
          ≡ some (to_be_bytes (length (utf8 block)) ++ (utf8 block ++ rest))
        → is_signed c from_utf8 read
            (ok (some pubkeys))
            devnode
            usb.vendor
            usb.model
            usb.revision
            usb.serial
          ≡ true
    unfolding is_signed
    is_signed-content read devnode rest e =
        rw
          (
            e,
            get_signature-block from_utf8 (utf8 block) rest block fits valid c,
            parse_signature-block decodes_cl decodes_pq bars_cl bars_pq size scheme sound,
          )
          verified-block

    -- Let the two signatures that the authority's keys make of a device's properties verify under its public
    -- keys, have their form and make a block of at most 7684 bytes; let decoding undo their base64, which
    -- holds no bar, and the block be read back from its UTF-8. A device that is signed for the way out, on a disk of 512 bytes at
    -- least where no call fails, is then taken by keysas-io for signed; and the firewall's monitor reads a
    -- block from it on which the controller, for a device of those properties, gives the access of a
    -- trusted device.
    pub sign_usb-trusted :
        (dev : Device) (disk parted : Bytes) (table : T) (sectors : ℕ) (read : Text → Option Bytes)
        (devnode : Text) (lossy : Text → Text) (d : UsbDevice) (policy : SecurityPolicy)
        → keys.load_classic (dir ++ codes "/CA/usb/usb-cl.p8") password ≡ some sign_cl
        → keys.load_pq (dir ++ codes "/CA/usb/usb-pq.p8") password ≡ some sign_pq
        → sign_cl signed_text ≡ some cl
        → sign_pq signed_text ≡ some pq
        → dev ≡ record { opens = true; seeks = true; size = whole; body = whole }
        → mbr.new_from disk ≡ some table
        → mbr.get_maximum_partition_size table ≡ some sectors
        → mbr.write_into (mbr.set_first (first_entry mbr c keys (some dir) sectors) table) disk
          ≡ (parted, true)
        → 512 ≤ length parted
        → ends_with_digit devnode ≡ true
        → read (remove_last devnode)
          ≡ some
              (drop 512 (sign_usb mbr c keys (some dir) dev usb (codes "out") password disk).disk)
        → lossy d.vendor ≡ usb.vendor
        → lossy d.model ≡ usb.model
        → lossy d.revision ≡ usb.revision
        → lossy d.serial ≡ usb.serial
        → ((sign_usb mbr c keys (some dir) dev usb (codes "out") password disk).result ≡ ok tt)
          × (is_signed c from_utf8 read
                (ok (some pubkeys))
                devnode
                usb.vendor
                usb.model
                usb.revision
                usb.serial
              ≡ true)
          × (text : Text) × (extract_signature from_utf8 (read (raw_device devnode))
              ≡ ok (some text))
          × (evaluate c lossy policy pubkeys d (some text) ≡ ok (trusted_auth c lossy policy))
    unfolding evaluate
    sign_usb-trusted dev disk parted table sectors read devnode lossy d policy lc lp mc mp e t m w
          long digit found ev em er es =
        let signed =
          sign_usb-write_block lc lp mc mp dev disk parted table sectors (ap (λ x. x.opens) e) t m
            w in
        let (done, rest, lies) =
          write_block-drop dev block parted (ap (λ x. x.seeks) e) (ap (λ x. x.size) e)
            (ap (λ x. x.body) e) (omega arith) long in
        let there = found ∙ ap (λ o. some (drop 512 o.disk)) signed ∙ ap some lies in
        let yes_signed = is_signed-content read devnode rest there in
        let (text, block_read, accepted) =
          is_signed-validate_usb_signature c from_utf8 lossy read pubkeys devnode d digit
            (rw (ev, em, er, es) yes_signed) in
        (ap (λ o. o.result) signed ∙ done, yes_signed, text, block_read, rw accepted refl)
