-- ===== src/Firewall/Monitor.antt =====
-- keysas-firewall/daemon/src/linux/usb_monitor.rs: what is read of a device that udev announces.
use keysas.Base.{
  ℕ, Bool, false, ◌&&◌, Option, none, some, [], ◌∷◌, Text, Bytes, codes, drop, leb, if◌then◌else◌,
  Result, ok, message, library, or_err, ◌>>=◌,
}
use keysas.Firewall.{UsbDevice}
use keysas.Io.{read_exact, be_u32, remove_last}

-- The properties of the device; `usb_syspath` is that of its parent of type usb_device.
pub record UdevDevice : Type 0 where
  pub devnode : Option Text
  pub vendor : Option Text
  pub model : Option Text
  pub revision : Option Text
  pub serial : Option Text
  pub usb_syspath : Option Text

unfoldable pub ends_with_digit : Text → Bool
ends_with_digit [] = false
ends_with_digit (c ∷ []) = leb 48 c && leb c 57
ends_with_digit (c ∷ d ∷ s) = ends_with_digit (d ∷ s)

-- The disk of a partition; the digit that is cut off is one byte.
unfoldable pub raw_device : Text → Text
unfolding ends_with_digit remove_last
raw_device devnode = if ends_with_digit devnode then remove_last devnode else devnode

-- `content` is what lies from byte 512 of the disk on, none where it cannot be opened.
module _ (from_utf8 : Bytes → Option Text) where
  unfoldable pub read_block : Bytes → ℕ → Result (Option Text)
  unfolding read_exact
  read_block bytes sig_size = do
    sig_buf ← or_err (read_exact sig_size (drop 4 bytes)) library
    text ← or_err (from_utf8 sig_buf) library
    ok (some text)

  unfoldable pub extract_signature : Option Bytes → Result (Option Text)
  unfolding read_exact be_u32 read_block
  extract_signature content = do
    bytes ← or_err content library
    size_buf ← or_err (read_exact 4 bytes) library
    let sig_size = be_u32 size_buf
    if leb sig_size 7684 then read_block bytes sig_size else ok none

  unfoldable pub extract_usb_info :
      (Text → Option Bytes) → UdevDevice → Result (UsbDevice × Option Text)
  unfolding extract_signature raw_device
  extract_usb_info read e = do
    devnode ← or_err e.devnode (message (codes "Devnode not found"))
    vendor ← or_err e.vendor (message (codes "Vendor ID not found"))
    model ← or_err e.model (message (codes "Model ID not found"))
    revision ← or_err e.revision (message (codes "Revision not found"))
    serial ← or_err e.serial (message (codes "Serial number not found"))
    let usb_device : UsbDevice = record {
      device_id = devnode;
      mnt_point = none;
      vendor = vendor;
      model = model;
      revision = revision;
      serial = serial;
      usb_syspath = e.usb_syspath;
    }
    signature ← extract_signature (read (raw_device devnode))
    ok (usb_device, signature)
