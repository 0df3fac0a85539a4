-- ===== src/Admin/Revocation.antt =====
-- A device that the administrator revokes is no longer taken for signed.
use keysas.Base.{
  ℕ, zero, suc, ◌≤◌, ◌≡◌, refl, ap, ◌∙◌, true, false, Option, none, some, [], ◌∷◌, ◌++◌, Text,
  Bytes, utf8, text_eq_refl, length, drop, ◌==◌, split, split-HasNo, HasNo, Result, Error, ok, err,
  ◌>>=◌, is_ok, Bool-cases, inl, inr, arith,
}
use keysas.Signing.{Crypto}
use keysas.Io.{two_signatures, parse_signature, verified, is_signed, remove_last}
use keysas.Firewall.{
  HybridPubKeys, UsbDevice, SecurityPolicy, Controller, block, get, insert, set_auth, settle,
  register, authorize_usb, validate_usb_signature, evaluate,
}
use keysas.Firewall.Monitor.{ends_with_digit, raw_device, extract_signature}
use keysas.Admin.{to_be_bytes, Device, whole, repeat, revoke_device}
use keysas.Admin.Disk.{write_block-drop}
use keysas.Admin.Signature.{get_signature-block, extract_signature-block}

length-utf8-zeros : (n : ℕ) → length (utf8 (repeat b'0' n)) ≡ n
unfolding utf8 repeat
length-utf8-zeros zero = refl
length-utf8-zeros (suc n) = ap suc (length-utf8-zeros n)

HasNo-zeros : (n : ℕ) → HasNo b'|' (repeat b'0' n)
unfolding repeat
HasNo-zeros zero = tt
HasNo-zeros (suc n) = (refl, HasNo-zeros n)

split-zeros : (n : ℕ) → split b'|' (repeat b'0' n) ≡ repeat b'0' n ∷ []
split-zeros n = split-HasNo b'|' (repeat b'0' n) (HasNo-zeros n)

error_of {ℓ} : {A : Type ℓ} (r : Result A) → is_ok r ≡ false → (e : Error) × (r ≡ err e)
error_of (err e) h = (e, refl)
error_of (ok a) h = absurd (ground arith)

refused_too {ℓ κ} :
    {A : Type ℓ} {B : Type κ} (r : Result A) (next : A → Result B)
    → is_ok r ≡ false
    → is_ok (r >>= next) ≡ false
refused_too (err e) next h = refl
refused_too (ok a) next h = absurd (ground arith)

module _ (c : Crypto) (from_utf8 : Bytes → Option Text) (lossy : Text → Text) where
  -- A text without a bar has no second signature.
  parse_signature-zeros : (n : ℕ) → is_ok (parse_signature c from_utf8 (repeat b'0' n)) ≡ false
  unfolding parse_signature
  parse_signature-zeros n = rw (split-zeros n, two_signatures) refl

  one_part :
      (keys : HybridPubKeys) (d : UsbDevice) (n : ℕ) (decoded : Option Bytes)
      → c.b64_decode (repeat b'0' n) ≡ decoded
      → is_ok (validate_usb_signature c lossy keys d (repeat b'0' n)) ≡ false
  unfolding validate_usb_signature
  one_part keys d n none e = rw (split-zeros n, e) refl
  one_part keys d n (some bytes) e = elim (Bool-cases (length bytes == 64)) [
    | inl long ↦ rw (split-zeros n, e, long) refl
    | inr short ↦ rw (split-zeros n, e, short) refl
  ]

  evaluate-zeros :
      (policy : SecurityPolicy) (keys : HybridPubKeys) (d : UsbDevice) (n : ℕ)
      → (e : Error) × (evaluate c lossy policy keys d (some (repeat b'0' n)) ≡ err e)
  unfolding evaluate
  evaluate-zeros policy keys d n =
      error_of _ (refused_too _ _ (one_part keys d n (c.b64_decode (repeat b'0' n)) refl))

  -- A device that is not in the table, and whose evaluation fails, is blocked.
  authorize_usb-err :
      (ctrl : Controller) (d : UsbDevice) (signature : Option Text) (e : Error)
      → get d.device_id ctrl.unmounted_usb ≡ none
      → evaluate c lossy ctrl.policy ctrl.usb_ca_pub d signature ≡ err e
      → ((authorize_usb c lossy ctrl d signature).result ≡ err e)
        × (get d.device_id (authorize_usb c lossy ctrl d signature).controller.unmounted_usb
            ≡ some (record { device = d; auth = block }))
  unfolding authorize_usb register settle insert set_auth get
  authorize_usb-err ctrl d signature e absent fails = (
    rw (absent, authorize_usb, fails) refl,
    rw (absent, authorize_usb, fails, text_eq_refl d.device_id)
        (rw (text_eq_refl d.device_id) refl),
  )

  module _ (valid : from_utf8 (utf8 (repeat b'0' 7683)) ≡ some (repeat b'0' 7683)) where
    -- What stands behind the first sector of a revoked disk.
    revoked-lies :
        (dev : Device) (disk : Bytes)
        → dev ≡ record { opens = true; seeks = true; size = whole; body = whole }
        → 512 ≤ length disk
        → ((revoke_device dev disk).result ≡ ok tt)
          × (rest : Bytes) × (drop 512 (revoke_device dev disk).disk
              ≡ to_be_bytes (length (utf8 (repeat b'0' 7683))) ++ (utf8 (repeat b'0' 7683) ++ rest))
    unfolding revoke_device
    revoked-lies dev disk e long = rw (ap (λ x. x.opens) e) (
        write_block-drop dev (repeat b'0' 7683) disk (ap (λ x. x.seeks) e) (ap (λ x. x.size) e)
          (ap (λ x. x.body) e) (omega (arith, length-utf8-zeros 7683)) long)

    -- Whatever the cryptography, if zeros are read back as UTF-8: a disk of 512 bytes at least that is revoked, with
    -- nothing failing, is not taken by keysas-io for signed, under any keys and for any properties. And the
    -- firewall's monitor reads a block from it on which the controller blocks a device that is not in its
    -- table, with an error, under any keys and any policy, also one that lets unsigned devices in.
    pub revoke_device-blocked :
        (dev : Device) (disk : Bytes) (read : Text → Option Bytes) (path : Text)
        (pubkeys : HybridPubKeys) (v m r s : Text) (d : UsbDevice) (ctrl : Controller)
        → dev ≡ record { opens = true; seeks = true; size = whole; body = whole }
        → 512 ≤ length disk
        → ends_with_digit path ≡ true
        → read (remove_last path) ≡ some (drop 512 (revoke_device dev disk).disk)
        → get d.device_id ctrl.unmounted_usb ≡ none
        → ((revoke_device dev disk).result ≡ ok tt)
          × (is_signed c from_utf8 read (ok (some pubkeys)) path v m r s ≡ false)
          × (text : Text) × (extract_signature from_utf8 (read (raw_device path)) ≡ ok (some text))
          × (is_ok (authorize_usb c lossy ctrl d (some text)).result ≡ false)
          × (get d.device_id (authorize_usb c lossy ctrl d (some text)).controller.unmounted_usb
              ≡ some (record { device = d; auth = block }))
    unfolding is_signed verified raw_device
    revoke_device-blocked dev disk read path pubkeys v m r s d ctrl e long digit found absent =
        let zeros = repeat b'0' 7683 in
        let (done, rest, lies) = revoked-lies dev disk e long in
        let there = found ∙ ap some lies in
        let fits : length (utf8 zeros) ≤ 7684 = omega (arith, length-utf8-zeros 7683) in
        let (e1, unparsed) =
          error_of (parse_signature c from_utf8 zeros) (parse_signature-zeros 7683) in
        let (e2, fails) = evaluate-zeros ctrl.policy ctrl.usb_ca_pub d 7683 in
        let (refused, blocked) = authorize_usb-err ctrl d (some zeros) e2 absent fails in
        (
          done,
          rw (there, get_signature-block from_utf8 (utf8 zeros) rest zeros fits valid c, unparsed)
              refl,
          zeros,
          rw (digit, there) (extract_signature-block from_utf8 (utf8 zeros) rest zeros fits valid),
          rw refused refl,
          blocked,
        )
