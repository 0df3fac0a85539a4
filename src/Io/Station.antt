-- ===== src/Io/Station.antt =====
-- The events of block devices, as one client of the station meets them.
use keysas.Base.{
  Bool, true, false, not, ◌&&◌, ◌||◌, Option, none, some, List, [], ◌∷◌, ◌++◌, Text, codes, text_eq,
  mem_text, contains, retain, if◌then◌else◌, Result, ok, err, message, library, or_err, ◌>>=◌,
}
use keysas.Io.Files.{Locks, busy_in, busy_out, ready_in, ready_out}

-- What the client is told, less the list of keys of users.
pub record Usbkeys : Type 0 where
  pub usb_in : List Text
  pub usb_out : List Text
  pub usb_undef : List Text

-- What is done outside: the lists sent to the client, `hmac_challenge`, and the calls of `copy_device_in`
-- and `move_device_out`.
pub data Effect : Type 0 where
  sent : Usbkeys → Effect
  challenged : Effect
  copied_in moved_out : Text → Effect

pub record Station : Type 0 where
  pub keys_in : List Text
  pub keys_out : List Text
  pub keys_undef : List Text
  pub locks : Locks
  pub effects : List Effect

-- The properties of an event that are there and are UTF-8.
pub record Event : Type 0 where
  pub action : Option Text
  pub devtype : Option Text
  pub id_vendor_id : Option Text
  pub id_model_id : Option Text
  pub id_revision : Option Text
  pub devname : Option Text
  pub id_serial : Option Text
  pub has_parent : Bool

-- What the calls answer: the sending to the client, the locks, the challenge (the user's name), the copying
-- and the moving.
pub record Probe : Type 0 where
  pub sends : Bool
  pub io : Bool
  pub challenge : Option Text
  pub copies : Bool
  pub moves : Bool

-- An error passed on with `?` ends the client's thread.
abbrev pub Act : Type 0
Act = Station → Result (Unit {0}) × Station

unfoldable pub continue_with : Result (Unit {0}) × Station → Act → Result (Unit {0}) × Station
continue_with (err e, s) next = (err e, s)
continue_with (ok _, s) next = next s

infixr 4 ◌then_do◌
abbrev pub ◌then_do◌ : Act → Act → Act
first then_do next = λ s. continue_with (first s) next

abbrev pub skip : Act
skip s = (ok tt, s)

abbrev outcome : Bool → Result (Unit {0})
outcome done = if done then ok tt else err library

abbrev pub emit : Effect → Bool → Act
emit e done s = (outcome done, record s { effects = s.effects ++ e ∷ [] })

abbrev keys_of : Station → Usbkeys
keys_of s = record { usb_in = s.keys_in; usb_out = s.keys_out; usb_undef = s.keys_undef }

abbrev pub send_keys : Bool → Act
send_keys done s = emit (sent (keys_of s)) done s

abbrev pub lock_with : (Locks → Result (Unit {0}) × Locks) → Act
lock_with f s = let (r, locks) = f s.locks in (r, record s { locks = locks })

abbrev pub push_in : Text → Act
push_in product s = (ok tt, record s { keys_in = s.keys_in ++ product ∷ [] })

abbrev pub push_out : Text → Act
push_out product s = (ok tt, record s { keys_out = s.keys_out ++ product ∷ [] })

-- `copy_device_in(device)?`, then `ready_in()?`.
unfoldable pub take_in : Probe → Text → Act
unfolding ready_in
take_in p device = emit (copied_in device) p.copies then_do lock_with (ready_in p.io)

unfoldable pub challenge_then : Probe → Text → Option Text → Act
unfolding take_in ready_in
challenge_then p device none = emit challenged true then_do lock_with (ready_in p.io)
challenge_then p device (some name) = emit challenged true then_do take_in p device

unfoldable pub new_unsigned : Bool → Probe → Text → Text → Act
unfolding challenge_then take_in busy_in
new_unsigned yubikey p product device =
    lock_with (busy_in p.io)
    then_do push_in product
    then_do send_keys p.sends
    then_do (if yubikey then challenge_then p device p.challenge else take_in p device)

unfoldable pub known_unsigned : Probe → Text → Bool → Act
unfolding take_in busy_in
known_unsigned p device is_partition =
    if is_partition
    then (lock_with (busy_in p.io) then_do send_keys p.sends then_do take_in p device)
    else skip

-- A failed sending is only logged here.
unfoldable pub new_signed : Probe → Text → Text → Act
unfolding busy_out ready_out
new_signed p product device =
    lock_with (busy_out p.io)
    then_do push_out product
    then_do send_keys true
    then_do emit (moved_out device) p.moves
    then_do lock_with (ready_out p.io)

unfoldable pub handle_device : Bool → Probe → Bool → Bool → Text → Text → Act
unfolding new_unsigned known_unsigned new_signed mem_text
handle_device yubikey p signed is_partition product device s =
    if signed
    then (if mem_text product s.keys_out then skip s else new_signed p product device s)
    else if mem_text product s.keys_in
    then known_unsigned p device is_partition s
    else new_unsigned yubikey p product device s

unfoldable pub product_of : Text → Text → Text → Text
product_of v m r = v ++ b'/' ∷ (m ++ b'/' ∷ r)

is_text : Text → Option Text → Bool
unfolding text_eq
is_text t none = false
is_text t (some u) = text_eq u t

-- The properties of an added device, none where one is missing or the device has no parent, on which the
-- code panics.
pub record Added : Type 0 where
  pub vendor : Text
  pub model : Text
  pub revision : Text
  pub device : Text
  pub serial : Text

unfoldable pub added : Event → Result Added
added e = do
  vendor ← or_err e.id_vendor_id (message (codes "Cannot get ID_VENDOR_ID from event."))
  model ← or_err e.id_model_id (message (codes "Cannot get ID_MODEL_ID from event."))
  revision ← or_err e.id_revision (message (codes "Cannot get ID_REVISION from event."))
  device ← or_err e.devname (message (codes "Cannot get DEVNAME from event."))
  serial ← or_err e.id_serial (message (codes "Cannot get ID_SERIAL from event."))
  parent ← or_err (if e.has_parent then some (tt {0}) else none) library
  ok (record {
    vendor = vendor;
    model = model;
    revision = revision;
    device = device;
    serial = serial;
  })

-- `is_signed` is the test of a device with its properties.
unfoldable pub add_device : Bool → Probe → (Added → Bool) → Bool → Result Added → Act
unfolding handle_device product_of
add_device yubikey p is_signed is_partition (err e) s = (err e, s)
add_device yubikey p is_signed is_partition (ok a) s =
    handle_device yubikey p (is_signed a) is_partition (product_of a.vendor a.model a.revision)
      a.device s

-- `get_attr_udev`, or "unknown".
product_or_unknown : Option Text → Option Text → Option Text → Text
unfolding product_of
product_or_unknown (some v) (some m) (some r) = product_of v m r
product_or_unknown _ _ _ = codes "unknown"

unfoldable pub forget : Text → Station → Station
unfolding contains text_eq
forget product s =
    if contains product (codes "unknown")
    then record s { keys_in = []; keys_out = [] }
    else record s {
      keys_in = retain (λ x. not (text_eq x product)) s.keys_in;
      keys_out = retain (λ x. not (text_eq x product)) s.keys_out;
      keys_undef = retain (λ x. not (text_eq x product)) s.keys_undef;
    }

abbrev no_keys : Usbkeys
no_keys = record { usb_in = []; usb_out = []; usb_undef = [] }

unfoldable pub handle : Bool → Probe → (Added → Bool) → Event → Act
unfolding add_device added forget product_or_unknown is_text
handle yubikey p is_signed e s =
    let is_partition = is_text (codes "partition") e.devtype in
    if is_text (codes "add") e.action && (is_partition || is_text (codes "disk") e.devtype)
    then continue_with (emit (sent no_keys) p.sends s)
        (add_device yubikey p is_signed is_partition (added e))
    else if is_text (codes "remove") e.action
    then send_keys p.sends
        (forget (product_or_unknown e.id_vendor_id e.id_model_id e.id_revision) s)
    else skip s
