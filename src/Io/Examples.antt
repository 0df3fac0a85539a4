-- ===== src/Io/Examples.antt =====
-- Two files that are lost, and a device with a partition whose user does not pass the challenge.
use keysas.Base.{
  ◌≡◌, refl, Bool, true, false, none, some, List, [], ◌∷◌, map, Text, codes, mem_text, All, ok,
  text_eq, split, utf8, Option, ◌&&◌, ℕ, zero, suc, Bytes, if◌then◌else◌,
}
use keysas.Io.Files.{Outgoing, move_files_out, Locks}
use keysas.Io.Station.{
  Effect, copied_in, Station, Event, Probe, continue_with, handle_device, handle,
}
use keysas.Signing.{Crypto}
use keysas.Firewall.{HybridPubKeys, UsbDevice, validate_usb_signature}
use keysas.Io.{is_signed}
use keysas.Firewall.Monitor.{ends_with_digit, raw_device, extract_signature}
use keysas.Io.Agreement.{is_signed-validate_usb_signature}
use keysas.Io.Loss.{regular, part_of, move_files_out-loses}
use keysas.Io.Sides.{Extends, handle_device-Extends}

abbrev same : Text → Text
same t = t

abbrev outgoing : List Text
outgoing = codes "a" ∷ codes "b" ∷ []

abbrev lost : List (Text × Bool × Bool)
lost = (codes "b", true, false) ∷ []

move_files_out-loses_example :
    let s : Outgoing = record { sas_out = outgoing; device = []; unmounted = false } in
    let all_files = (codes "a", false, true) ∷ lost in
    let r = move_files_out same (some (map regular all_files)) s in
    (r.0 ≡ ok tt)
    × (r.1.device ≡ part_of same (codes "a") true)
    × All (λ p. mem_text p.0 r.1.sas_out ≡ false) all_files
move_files_out-loses_example = move_files_out-loses same (codes "a") true lost outgoing []

abbrev idle : Locks
idle = record { directory = true; working_in = false; working_out = false }

abbrev station : Station
station = record { keys_in = []; keys_out = []; keys_undef = []; locks = idle; effects = [] }

abbrev refused : Probe
refused = record { sends = true; io = true; challenge = none; copies = true; moves = true }

abbrev product : Text
product = codes "1/2/3"

abbrev known : Station
known = record station { keys_in = product ∷ [] }

handle_device-Extends_example :
    Extends false station
      (handle_device true refused false true product (codes "/dev/sdb1") station).1
handle_device-Extends_example =
    handle_device-Extends true refused false true product (codes "/dev/sdb1") station

abbrev plug : Text → Text → Event
plug devname devtype = record {
  action = some (codes "add");
  devtype = some devtype;
  id_vendor_id = some (codes "1");
  id_model_id = some (codes "2");
  id_revision = some (codes "3");
  devname = some devname;
  id_serial = some (codes "s");
  has_parent = true;
}

abbrev copied : List Effect → List Text
copied [] = []
copied (copied_in device ∷ es) = device ∷ copied es
copied (e ∷ es) = copied es

-- The kernel announces the disk, whose user is refused, and then its partition, which is copied.
refused-is_copied :
    let after =
      (handle true refused (λ a. false) (plug (codes "/dev/sdb") (codes "disk")) station).1 in
    copied
      (handle true refused
        (λ a. false)
        (plug (codes "/dev/sdb1") (codes "partition"))
        after).1.effects
    ≡ codes "/dev/sdb1" ∷ []
unfolding handle continue_with
refused-is_copied = refl

abbrev toy : Crypto
toy = record {
  sha256_hex = λ b. b;
  b64_encode = λ b. b;
  b64_decode = λ t. some t;
  from_pem = λ _. none;
  ed_key = λ _. true;
  ed_verify = λ _ _ _. true;
  pq_scheme = true;
  pq_key = λ _. true;
  pq_signature = λ _. true;
  pq_verify = λ m s _. text_eq s (codes "pq") && text_eq m (codes "1/2/3/s/out");
}

abbrev fill : ℕ → Bytes → Bytes
fill zero rest = rest
fill (suc n) rest = 7 ∷ fill n rest

abbrev block : Text
block = fill 64 (codes "|pq")

abbrev read : Text → Option Bytes
read path = if text_eq path (codes "/dev/sdb") then some (0 ∷ 0 ∷ 0 ∷ 67 ∷ block) else none

abbrev signed_stick : UsbDevice
signed_stick = record {
  device_id = codes "/dev/sdb1";
  mnt_point = none;
  vendor = codes "1";
  model = codes "2";
  revision = codes "3";
  serial = codes "s";
  usb_syspath = none;
}

abbrev keys : HybridPubKeys
keys = record { classic = []; pq = [] }

is_signed-validate_usb_signature_example :
    (text : Text) × (extract_signature (λ b. some b) (read (raw_device (codes "/dev/sdb1")))
      ≡ ok (some text))
    × (validate_usb_signature toy same keys signed_stick text ≡ ok true)
unfolding is_signed text_eq split utf8 ends_with_digit
is_signed-validate_usb_signature_example =
    is_signed-validate_usb_signature toy (λ b. some b) same read keys (codes "/dev/sdb1")
      signed_stick refl refl
