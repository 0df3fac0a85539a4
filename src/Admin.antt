-- ===== src/Admin.antt =====
-- keysas-admin/src-tauri/src/usb_sign.rs: the signing and the revoking of a USB device by the
-- administrator, and sign_key and revoke_usb of keysas-admin/src-tauri/src/lib.rs.
pub mod Disk
pub mod Signature
pub mod Revocation
mod Examples
use keysas.Base.{
  ℕ, ◌+◌, ◌*◌, ◌/◌, ◌%◌, Bool, true, false, not, ◌&&◌, Option, none, some, List, [], ◌∷◌, ◌++◌,
  Text, Bytes, codes, utf8, text_eq, length, take, drop, zero, suc, if◌then◌else◌, Result, Error,
  ok, err, message, library, or_err, ◌>>=◌, is_ok,
}
use keysas.Signing.{Crypto}

-- The partition number is cut off; `is_numeric` is that of `char`.
unfoldable pub rm_last : (ℕ → Bool) → Text → Text
rm_last is_numeric [] = []
rm_last is_numeric (c ∷ []) = if is_numeric c then [] else c ∷ []
rm_last is_numeric (c ∷ d ∷ value) = c ∷ rm_last is_numeric (d ∷ value)

-- What `watch_new_usb` reads of an event of the block subsystem.
pub record BlockEvent : Type 0 where
  pub action : Option Text
  pub devtype : Option Text
  pub devnode : Option Text
  pub vendor : Option Text
  pub model : Option Text
  pub revision : Option Text
  pub serial : Option Text

pub record NewUsb : Type 0 where
  pub device : Text
  pub vendor : Text
  pub model : Text
  pub revision : Text
  pub serial : Text

is_text : Text → Option Text → Bool
unfolding text_eq
is_text t none = false
is_text t (some s) = text_eq s t

-- `lossy` is `to_string_lossy`.
module _ (is_numeric : ℕ → Bool) (lossy : Text → Text) where
  unfoldable pub new_usb : BlockEvent → Result NewUsb
  unfolding rm_last
  new_usb event = do
    device ← or_err event.devnode (message (codes "Cannot get device name."))
    vendor ← or_err event.vendor (message (codes "Cannot get ID_VENDOR_ID from event."))
    model ← or_err event.model (message (codes "Cannot get ID_MODEL_ID from event."))
    revision ← or_err event.revision (message (codes "Cannot get ID_REVISION from event."))
    serial ← or_err event.serial (message (codes "Cannot get ID_SERIAL from event."))
    ok (record {
      device = rm_last is_numeric (lossy device);
      vendor = lossy vendor;
      model = lossy model;
      revision = lossy revision;
      serial = lossy serial;
    })

  unfoldable pub is_new_partition : BlockEvent → Bool
  unfolding is_text
  is_new_partition event =
      is_text (codes "add") event.action && is_text (codes "partition") event.devtype

  -- The first partition that is added ends the loop; none where the events are used up before.
  unfoldable pub watch_new_usb : List BlockEvent → Option (Result NewUsb)
  unfolding new_usb is_new_partition
  watch_new_usb [] = none
  watch_new_usb (event ∷ events) =
      let later = watch_new_usb events in
      if is_new_partition event then some (new_usb event) else later

-- `load_keys` of the two private keys, by path and password, and their `message_sign`.
pub record KeyStore : Type 0 where
  pub load_classic : Text → Text → Option (Bytes → Option Bytes)
  pub load_pq : Text → Text → Option (Bytes → Option Bytes)

unfoldable pub device_text : Text → Text → Text → Text → Text → Text
device_text vendor model revision serial direction =
    vendor ++ b'/' ∷ (model ++ b'/' ∷ (revision ++ b'/' ∷ (serial ++ b'/' ∷ direction)))

unfoldable pub sign_device : Crypto → KeyStore → NewUsb → Text → Text → Text → Text → Result Text
unfolding device_text
sign_device c keys usb direction path_cl path_pq password = do
  let text = utf8 (device_text usb.vendor usb.model usb.revision usb.serial direction)
  classic_struct ← or_err (keys.load_classic path_cl password) library
  pq_struct ← or_err (keys.load_pq path_pq password) library
  classic_sig ← or_err (classic_struct text) library
  pq_sig ← or_err (pq_struct text) library
  ok (c.b64_encode classic_sig ++ b'|' ∷ c.b64_encode pq_sig)

-- `u32::to_be_bytes`
unfoldable pub to_be_bytes : ℕ → Bytes
to_be_bytes n = (n / 16777216 % 256) ∷ (n / 65536 % 256) ∷ (n / 256 % 256) ∷ (n % 256) ∷ []

-- Bytes written over what lies at an offset of the disk.
unfoldable pub put : ℕ → Bytes → Bytes → Bytes
put offset bytes disk = take offset disk ++ (bytes ++ drop (offset + length bytes) disk)

-- What becomes of a `write_all`: it lands whole, or it fails after some bytes.
pub data Landing : Type 0 where
  whole : Landing
  stops_after : ℕ → Landing

unfoldable pub write_all : Landing → ℕ → Bytes → Bytes → Bytes × Bool
unfolding put
write_all whole offset bytes disk = (put offset bytes disk, true)
write_all (stops_after n) offset bytes disk = (put offset (take n bytes) disk, false)

-- The answers of the system: whether the device opens, whether the seek succeeds, and the two writes.
pub record Device : Type 0 where
  pub opens : Bool
  pub seeks : Bool
  pub size : Landing
  pub body : Landing

pub record Outcome : Type 0 where
  pub disk : Bytes
  pub result : Result (Unit {0})

abbrev pub failed : Text → Bytes → Outcome
failed text disk = record { disk = disk; result = err (message text) }

-- The size and the text behind the magic number of the first sector.
unfoldable pub write_block : Device → Text → Bytes → Outcome
unfolding write_all to_be_bytes
write_block dev text disk =
    let bytes = utf8 text in
    let (sized, size_ok) = write_all dev.size 512 (to_be_bytes (length bytes % 4294967296)) disk in
    let (filled, body_ok) = write_all dev.body 516 bytes sized in
    if not dev.seeks
    then failed [] disk
    else if not size_ok
    then failed [] sized
    else if not body_ok
    then failed [] filled
    else record { disk = filled; result = ok tt }

-- The crate mbrman: `new_from` with sectors of 512 bytes, the largest free space, the first entry, and
-- `write_into`, which says whether it succeeded.
pub record PartitionEntry : Type 0 where
  pub sys : ℕ
  pub starting_lba : ℕ
  pub sectors : ℕ

pub record Mbr (T : Type 0) : Type 0 where
  pub new_from : Bytes → Option T
  pub get_maximum_partition_size : T → Option ℕ
  pub set_first : PartitionEntry → T → T
  pub write_into : T → Bytes → Bytes × Bool

-- The PKI directory of the settings, none where it is not set.
module _ {T : Type 0} (mbr : Mbr T) (c : Crypto) (keys : KeyStore) (pki_dir : Option Text) where
  unfoldable pub write_signature : Device → Result Text → Bytes → Outcome
  unfolding write_block
  write_signature dev (err e) disk = record { disk = disk; result = err e }
  write_signature dev (ok attrs) disk = write_block dev attrs disk

  unfoldable pub sign_parted : Device → NewUsb → Text → Text → Bytes → Outcome
  unfolding write_signature sign_device
  sign_parted dev usb direction password disk = elim pki_dir [
    | none ↦ failed (codes "Invalid PKI configuration") disk
    | some dir ↦
        write_signature dev
          (sign_device c keys usb direction (dir ++ codes "/CA/usb/usb-cl.p8")
            (dir ++ codes "/CA/usb/usb-pq.p8") password)
          disk
  ]

  unfoldable pub first_entry : ℕ → PartitionEntry
  first_entry sectors = record { sys = 12; starting_lba = 8192; sectors = sectors }

  unfoldable pub write_table : Device → NewUsb → Text → Text → T → ℕ → Bytes → Outcome
  unfolding sign_parted first_entry
  write_table dev usb direction password table sectors disk =
      let (parted, done) = mbr.write_into (mbr.set_first (first_entry sectors) table) disk in
      if done
      then sign_parted dev usb direction password parted
      else failed (codes "Could not write MBR to disk") parted

  unfoldable pub make_table : Device → NewUsb → Text → Text → Bytes → Outcome
  unfolding write_table
  make_table dev usb direction password disk = elim (mbr.new_from disk) [
    | none ↦ failed (codes "Could not make a partition table") disk
    | some table ↦ elim (mbr.get_maximum_partition_size table) [
      | none ↦ failed (codes "No more space available in the USB device") disk
      | some sectors ↦ write_table dev usb direction password table sectors disk
    ]
  ]

  unfoldable pub sign_usb : Device → NewUsb → Text → Text → Bytes → Outcome
  unfolding make_table
  sign_usb dev usb direction password disk =
      if dev.opens
      then make_table dev usb direction password disk
      else failed (codes "Cannot open device for signing.") disk

  -- The command of the interface: what it answers, and the disk.
  unfoldable pub sign_key : Device → Result NewUsb → Text → Bytes → Bytes × Bool
  unfolding sign_usb
  sign_key dev (err e) password disk = (disk, false)
  sign_key dev (ok usb) password disk =
      let signed = sign_usb dev usb (codes "out") password disk in
      (signed.disk, is_ok signed.result)

unfoldable pub repeat : ℕ → ℕ → Text
repeat c zero = []
repeat c (suc n) = c ∷ repeat c n

unfoldable pub revoke_device : Device → Bytes → Outcome
unfolding write_block repeat
revoke_device dev disk =
    if dev.opens
    then write_block dev (repeat b'0' 7683) disk
    else failed (codes "Cannot open device for revoking.") disk

unfoldable pub revoke_usb : Device → Result NewUsb → Bytes → Bytes × Bool
unfolding revoke_device
revoke_usb dev (err e) disk = (disk, false)
revoke_usb dev (ok usb) disk =
    let revoked = revoke_device dev disk in (revoked.disk, is_ok revoked.result)
