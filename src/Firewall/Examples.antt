-- ===== src/Firewall/Examples.antt =====
-- A signed device that is plugged in and mounted, under a policy that lets no unsigned device in.
use keysas.Base.{
  ◌⊎◌, ℕ, zero, suc, ◌≡◌, refl, true, false, none, some, List, [], ◌∷◌, ◌++◌, Text, Bytes, codes,
  split, utf8, text_eq, Result, ok, ◌↔◌, Bool,
}
use keysas.Signing.{Crypto}
use keysas.Firewall.{
  UsbDevice, SecurityPolicy, HybridPubKeys, allow_read, get, remove, insert, set_auth,
  verify_key_signatures, validate_usb_signature, evaluate, trusted_auth, settle, register,
  authorize_usb, is_access,
}
use keysas.Firewall.Start.{Startup, init, Recovered}
use keysas.Firewall.Devices.{update_usb}
use keysas.Firewall.Files.{Files, FileUpdateMessage, authorize_file}
use keysas.Firewall.Access.{Grounds, authorize_file-iff_Grounds}
use keysas.Firewall.Queries.{get_usb_auth}
use keysas.Firewall.Entries.{AllEntries}
use keysas.Firewall.Restart.{Attested, recovered-Attested}
use keysas.Firewall.Events.{Event, plugged, mounted, handle, after, Signed, IsJustified}
use keysas.Firewall.Reach.{after-IsJustified, mounted-Signed}

abbrev toy : Crypto
toy = record {
  sha256_hex = λ b. b;
  b64_encode = λ b. b;
  b64_decode = λ t. some t;
  from_pem = λ _. none;
  ed_key = λ _. true;
  ed_verify = λ _ _ _. true;
  pq_scheme = true;
  pq_key = λ _. true;
  pq_signature = λ _. true;
  pq_verify = λ _ s _. text_eq s (codes "pq");
}

abbrev same : Text → Text
same t = t

abbrev fill : ℕ → Bytes
fill zero = []
fill (suc n) = 7 ∷ fill n

abbrev stick : UsbDevice
stick = record {
  device_id = codes "/dev/sdb1";
  mnt_point = some (codes "/mnt");
  vendor = codes "v";
  model = codes "m";
  revision = codes "1";
  serial = codes "s";
  usb_syspath = none;
}

abbrev strict : SecurityPolicy
strict = record {
  disable_unsigned_usb = false;
  allow_user_usb_authorization = false;
  allow_user_file_read = false;
  allow_user_file_write = false;
}

abbrev keys : HybridPubKeys
keys = record { classic = []; pq = [] }

-- No sentinel is there.
abbrev fresh : Startup
fresh = record { exists = λ path. false; mounts = none; entries = none }

abbrev events : List Event
events = mounted stick ∷ plugged stick (some (fill 64 ++ codes "|pq")) ∷ []

after-IsJustified_example :
    IsJustified toy same fresh strict keys events
      (after toy same events (init toy same fresh strict keys).controller)
after-IsJustified_example = after-IsJustified toy same fresh strict keys events

readable :
    get
      (codes "/dev/sdb1")
      (after toy same events (init toy same fresh strict keys).controller).mounted_usb
    ≡ some (record { device = stick; auth = allow_read })
unfolding after handle init authorize_usb register settle evaluate validate_usb_signature
    trusted_auth verify_key_signatures update_usb get remove insert set_auth split text_eq utf8
readable = refl

access : is_access toy same allow_read ≡ true
unfolding is_access
access = refl

mounted-Signed_example :
    Signed toy same keys (codes "/dev/sdb1") events ⊎ Recovered toy same fresh (codes "/dev/sdb1")
mounted-Signed_example =
    mounted-Signed toy same fresh strict keys events (codes "/dev/sdb1")
      (record { device = stick; auth = allow_read }) refl refl readable access

-- A disk with a file and something that has the name of its report.
abbrev disk : Files
disk = record {
  is_dir = λ path. some false;
  is_file = λ path. text_eq path (codes "/mnt/.a.exe.krp");
}

abbrev refusing : FileUpdateMessage → Result Bool
refusing m = ok false

authorize_file-iff_Grounds_example :
    ((authorize_file same disk refusing (some (codes "/mnt/a.exe"))).0 ≡ ok true)
    ↔ Grounds same disk refusing (codes "/mnt/a.exe")
authorize_file-iff_Grounds_example =
    authorize_file-iff_Grounds same disk refusing (codes "/mnt/a.exe")

-- The user is not even asked.
named-is_authorized : authorize_file same disk refusing (some (codes "/mnt/a.exe")) ≡ (ok true, [])
unfolding authorize_file
named-is_authorized = refl

abbrev mounts : List Text
mounts = codes "/dev/sda1 / ext4 rw" ∷ codes "/dev/sdb1 /mnt vfat rw" ∷ []

abbrev sentinels : List Text
sentinels = codes "sdb1" ∷ codes "sdc1" ∷ []

abbrev present : Text → Bool
present path = text_eq path (codes "/dev/sdb1")

abbrev again : Startup
again = record { exists = present; mounts = some mounts; entries = some sentinels }

recovered-Attested_example :
    AllEntries
      (Attested toy same strict again)
      (init toy same again strict keys).controller.mounted_usb
recovered-Attested_example = recovered-Attested toy same again strict keys

-- The recovered device has access, though no signature was read.
stick-is_recovered :
    get_usb_auth (init toy same again strict keys).controller (codes "/dev/sdb1") ≡ ok allow_read
unfolding get_usb_auth init
stick-is_recovered = refl
