-- ===== src/Admin/Examples.antt =====
-- A device that is signed, and one that is revoked.
use keysas.Base.{
  ℕ, zero, suc, ◌≤◌, ◌≡◌, refl, ap, Bool, true, false, ◌&&◌, Option, none, some, [], ◌∷◌, Text,
  Bytes, codes, HasNo, utf8, text_eq, length, drop, ok, is_ok, arith,
}
use keysas.Signing.{Crypto}
use keysas.Io.{device_data, is_signed}
use keysas.Firewall.{
  UsbDevice, HybridPubKeys, SecurityPolicy, block, new_controller, get, evaluate, trusted_auth,
  authorize_usb,
}
use keysas.Firewall.Monitor.{ends_with_digit, raw_device, extract_signature}
use keysas.Admin.{
  NewUsb, BlockEvent, KeyStore, Mbr, Device, whole, repeat, sign_usb, revoke_device, watch_new_usb,
}
use keysas.Admin.Signature.{sign_usb-trusted}
use keysas.Admin.Revocation.{revoke_device-blocked}

abbrev toy : Crypto
toy = record {
  sha256_hex = λ b. b;
  b64_encode = λ b. b;
  b64_decode = λ t. some t;
  from_pem = λ _. none;
  ed_key = λ _. true;
  ed_verify = λ _ _ _. true;
  pq_scheme = true;
  pq_key = λ _. true;
  pq_signature = λ _. true;
  pq_verify = λ m s _. text_eq s (codes "pq") && text_eq m (codes "1/2/3/s/out");
}

abbrev same : Text → Text
same t = t

abbrev fill : ℕ → Bytes
fill zero = []
fill (suc n) = 7 ∷ fill n

abbrev keys : KeyStore
keys = record {
  load_classic = λ path password. some (λ text. some (fill 64));
  load_pq = λ path password. some (λ text. some (codes "pq"));
}

abbrev table_of : Mbr (Unit {0})
table_of = record {
  new_from = λ disk. some tt;
  get_maximum_partition_size = λ table. some 100;
  set_first = λ entry table. table;
  write_into = λ table disk. (disk, true);
}

abbrev usb : NewUsb
usb = record {
  device = codes "/dev/sdb";
  vendor = codes "1";
  model = codes "2";
  revision = codes "3";
  serial = codes "s";
}

abbrev stick : UsbDevice
stick = record {
  device_id = codes "/dev/sdb1";
  mnt_point = none;
  vendor = codes "1";
  model = codes "2";
  revision = codes "3";
  serial = codes "s";
  usb_syspath = none;
}

abbrev pubkeys : HybridPubKeys
pubkeys = record { classic = []; pq = [] }

abbrev strict : SecurityPolicy
strict = record {
  disable_unsigned_usb = false;
  allow_user_usb_authorization = false;
  allow_user_file_read = false;
  allow_user_file_write = false;
}

abbrev working : Device
working = record { opens = true; seeks = true; size = whole; body = whole }

abbrev disk : Bytes
disk = repeat 0 600

abbrev read_of : Bytes → Text → Option Bytes
read_of content path = some (drop 512 content)

abbrev signed : Bytes
signed = (sign_usb table_of toy keys (some []) working usb (codes "out") (codes "pw") disk).disk

no_bar : (n : ℕ) → HasNo b'|' (fill n)
no_bar zero = tt
no_bar (suc n) = (refl, no_bar n)

long : 512 ≤ length disk
unfolding repeat
long = omega arith

sign_usb-trusted_example :
    ((sign_usb table_of toy keys (some []) working usb (codes "out") (codes "pw") disk).result
      ≡ ok tt)
    × (is_signed toy
          (λ b. some b)
          (read_of signed)
          (ok (some pubkeys))
          (codes "/dev/sdb1")
          (codes "1")
          (codes "2")
          (codes "3")
          (codes "s")
        ≡ true)
    × (text : Text) × (extract_signature
          (λ b. some b)
          (read_of signed (raw_device (codes "/dev/sdb1")))
        ≡ ok (some text))
    × (evaluate toy same strict pubkeys stick (some text) ≡ ok (trusted_auth toy same strict))
unfolding utf8 text_eq ends_with_digit device_data
sign_usb-trusted_example =
    sign_usb-trusted table_of toy (λ b. some b) keys pubkeys [] usb (codes "pw") (fill 64)
      (codes "pq") (λ text. some (fill 64)) (λ text. some (codes "pq")) refl refl (no_bar 64)
      (refl, (refl, tt)) refl refl refl refl refl refl (omega arith) working disk disk tt 100
      (read_of signed) (codes "/dev/sdb1") same stick strict refl refl refl refl refl refl refl refl
      long refl refl refl refl refl refl

utf8-zeros : (n : ℕ) → utf8 (repeat b'0' n) ≡ repeat b'0' n
unfolding utf8 repeat
utf8-zeros zero = refl
utf8-zeros (suc n) = ap (λ l. b'0' ∷ l) (utf8-zeros n)

revoke_device-blocked_example :
    ((revoke_device working disk).result ≡ ok tt)
    × (is_signed toy
          (λ b. some b)
          (read_of (revoke_device working disk).disk)
          (ok (some pubkeys))
          (codes "/dev/sdb1")
          (codes "1")
          (codes "2")
          (codes "3")
          (codes "s")
        ≡ false)
    × (text : Text) × (extract_signature
          (λ b. some b)
          (read_of (revoke_device working disk).disk (raw_device (codes "/dev/sdb1")))
        ≡ ok (some text))
    × (is_ok (authorize_usb toy same (new_controller strict pubkeys) stick (some text)).result
        ≡ false)
    × (get
          (codes "/dev/sdb1")
          (authorize_usb toy same
            (new_controller strict pubkeys)
            stick
            (some text)).controller.unmounted_usb
        ≡ some (record { device = stick; auth = block }))
unfolding ends_with_digit new_controller get
revoke_device-blocked_example =
    revoke_device-blocked toy (λ b. some b) same (ap some (utf8-zeros 7683)) working disk
      (read_of (revoke_device working disk).disk) (codes "/dev/sdb1") pubkeys (codes "1")
      (codes "2") (codes "3") (codes "s") stick (new_controller strict pubkeys) refl long refl refl
      refl

abbrev appears : Text → Text → BlockEvent
appears devtype devnode = record {
  action = some (codes "add");
  devtype = some devtype;
  devnode = some devnode;
  vendor = some (codes "1");
  model = some (codes "2");
  revision = some (codes "3");
  serial = some (codes "s");
}

abbrev is_digit : ℕ → Bool
is_digit c = text_eq (c ∷ []) (codes "1")

partition-is_watched :
    watch_new_usb is_digit same (
      appears (codes "disk") (codes "/dev/sdb")
      ∷ appears (codes "partition") (codes "/dev/sdb1")
      ∷ [])
    ≡ some (ok usb)
unfolding watch_new_usb
partition-is_watched = refl
