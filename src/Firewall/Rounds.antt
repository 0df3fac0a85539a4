-- ===== src/Firewall/Rounds.antt =====
-- A round of the monitor in which a signed device is added and mounted.
use keysas.Base.{
  ℕ, zero, suc, ◌≡◌, ◌||◌, ◌==◌, refl, Bool, true, false, Option, none, some, List, [], ◌∷◌, ◌++◌,
  Text, Bytes, codes, split, utf8, text_eq, Some, inl, ◌⊎◌,
}
use keysas.Signing.{Crypto}
use keysas.Firewall.{
  UsbDevice, SecurityPolicy, HybridPubKeys, allow_read, get, remove, insert, set_auth,
  verify_key_signatures, validate_usb_signature, evaluate, trusted_auth, settle, register,
  authorize_usb, is_access,
}
use keysas.Firewall.Start.{Startup, init, Recovered}
use keysas.Firewall.Devices.{update_usb}
use keysas.Firewall.Monitor.{extract_usb_info}
use keysas.Firewall.Mount.{System, mount_point_of, mount_certified}
use keysas.Firewall.Watch.{UdevEvent, Round, event, handle_event, watch}
use keysas.Firewall.Traces.{SignedIn, watch-SignedIn}
use keysas.Firewall.Deauthorize.{Authorized, Opens, handle_event-Authorized}
use keysas.Firewall.MountPoint.{printed}

abbrev toy : Crypto
toy = record {
  sha256_hex = λ b. b;
  b64_encode = λ b. b;
  b64_decode = λ t. some t;
  from_pem = λ _. none;
  ed_key = λ _. true;
  ed_verify = λ _ _ _. true;
  pq_scheme = true;
  pq_key = λ _. true;
  pq_signature = λ _. true;
  pq_verify = λ _ s _. text_eq s (codes "pq");
}

abbrev same : Text → Text
same t = t

abbrev fill : ℕ → Bytes → Bytes
fill zero rest = rest
fill (suc n) rest = 7 ∷ fill n rest

abbrev white : ℕ → Bool
white c = c == 32 || c == 10

abbrev sys : System
sys = record {
  run_user = some (codes "0" ∷ codes "1000" ∷ []);
  exists = λ path. true;
  create_dir_all = λ path. true;
  write = λ path. true;
  id_un = λ uid. some (some (codes "ann" ++ 10 ∷ []));
  udisksctl = λ user dev. some (some (printed (codes "dev/sdb1") (codes "/media/ann/K")));
  mount = λ dev mnt. none;
  from_utf8 = λ b. some b;
  from_utf8_lossy = λ b. b;
  is_whitespace = white;
}

abbrev read : Text → Option Bytes
read path = if_disk (text_eq path (codes "/dev/sdb"))
  where
    if_disk : Bool → Option Bytes
    if_disk true = some (0 ∷ 0 ∷ 0 ∷ 67 ∷ fill 64 (codes "|pq"))
    if_disk false = none

abbrev plug : UdevEvent
plug = record {
  action = some (codes "add");
  subsystem = some (codes "block");
  devtype = some (codes "partition");
  syspath = codes "/sys/devices/sdb1";
  sysname = codes "sdb1";
  device = record {
    devnode = some (codes "/dev/sdb1");
    vendor = some (codes "v");
    model = some (codes "m");
    revision = some (codes "1");
    serial = some (codes "s");
    usb_syspath = some (codes "/sys/devices/usb1");
  };
}

abbrev strict : SecurityPolicy
strict = record {
  disable_unsigned_usb = false;
  allow_user_usb_authorization = false;
  allow_user_file_read = false;
  allow_user_file_write = false;
}

abbrev keys : HybridPubKeys
keys = record { classic = []; pq = [] }

-- No sentinel is there.
abbrev fresh : Startup
fresh = record { exists = λ path. false; mounts = none; entries = none }

abbrev rounds : List Round
rounds = event sys read plug ∷ []

abbrev stick : UsbDevice
stick = record {
  device_id = codes "/dev/sdb1";
  mnt_point = some (codes "/media/ann/K");
  vendor = codes "v";
  model = codes "m";
  revision = codes "1";
  serial = codes "s";
  usb_syspath = some (codes "/sys/devices/usb1");
}

readable :
    get
      (codes "/dev/sdb1")
      (watch toy same rounds (init toy same fresh strict keys).controller).mounted_usb
    ≡ some (record { device = stick; auth = allow_read })
unfolding watch init authorize_usb register settle evaluate validate_usb_signature trusted_auth
    verify_key_signatures update_usb get remove insert set_auth split text_eq utf8 extract_usb_info
    mount_certified
readable = refl

access : is_access toy same allow_read ≡ true
unfolding is_access
access = refl

watch-SignedIn_example :
    Some (SignedIn toy same keys (codes "/dev/sdb1")) rounds
    ⊎ Recovered toy same fresh (codes "/dev/sdb1")
watch-SignedIn_example =
    watch-SignedIn toy same fresh strict keys rounds (codes "/dev/sdb1")
      (record { device = stick; auth = allow_read }) refl refl readable access

opened :
    Some Opens
      (handle_event toy same sys read (init toy same fresh strict keys).controller plug).acts
unfolding handle_event init authorize_usb register settle evaluate validate_usb_signature
    trusted_auth verify_key_signatures get remove insert set_auth split text_eq utf8
    extract_usb_info mount_certified
opened = inl tt

handle_event-Authorized_example :
    Authorized toy same sys read (init toy same fresh strict keys).controller plug
handle_event-Authorized_example =
    handle_event-Authorized toy same sys read (init toy same fresh strict keys).controller plug
      opened

dots-are_lost :
    mount_point_of white (printed (codes "dev/sdb1") (codes "/media/ann/K.."))
    ≡ some (codes "/media/ann/K")
unfolding mount_point_of
dots-are_lost = refl
