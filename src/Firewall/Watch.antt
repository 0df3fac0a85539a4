-- ===== src/Firewall/Watch.antt =====
-- keysas-firewall/daemon/src/linux/usb_monitor.rs: the loop over the events of udev.
use keysas.Base.{
  Bool, true, false, not, ◌&&◌, ◌||◌, Option, none, some, List, [], ◌∷◌, ◌++◌, Text, Bytes, codes,
  text_eq, push, file_name, if◌then◌else◌, Result, ok, err,
}
use keysas.Signing.{Crypto}
use keysas.Firewall.{UsbDevice, Controller, Effect, Reply, authorize_usb}
use keysas.Firewall.Devices.{update_usb, force_remove_usb, remove_usb}
use keysas.Firewall.Queries.{unmounted_usb_ids_with_syspath_prefix}
use keysas.Firewall.Monitor.{UdevDevice, extract_usb_info}
use keysas.Firewall.Mount.{
  System, Act, removed_sentinel, deauthorized, sentinel_of, mount_certified,
}

pub record UdevEvent : Type 0 where
  pub action : Option Text
  pub subsystem : Option Text
  pub devtype : Option Text
  pub syspath : Text
  pub sysname : Text
  pub device : UdevDevice

unfoldable pub says : Text → Option Text → Bool
unfolding text_eq
says t none = false
says t (some s) = text_eq s t

-- What an event asks for.
pub data EventKind : Type 0 where
  usb_removed partition_removed partition_added other : EventKind

unfoldable pub kind_of : UdevEvent → EventKind
unfolding says
kind_of e =
    let is_partition = says (codes "partition") e.devtype in
    let is_usb_device = says (codes "usb") e.subsystem && says (codes "usb_device") e.devtype in
    if says (codes "remove") e.action && is_usb_device
    then usb_removed
    else if says (codes "remove") e.action && is_partition
    then partition_removed
    else if not (says (codes "add") e.action) || not is_partition
    then other
    else partition_added

-- A turn of the loop: the controller, what is done to the system, and the calls of the controller's
-- interfaces.
pub record Turn : Type 0 where
  pub controller : Controller
  pub acts : List Act
  pub effects : List Effect

unfoldable pub force_remove_all : Controller → List Text → Controller
unfolding force_remove_usb
force_remove_all ctrl [] = ctrl
force_remove_all ctrl (id ∷ ids) = force_remove_all (force_remove_usb ctrl id) ids

unfoldable pub deauthorize : Option Text → List Act
unfolding push
deauthorize none = []
deauthorize (some syspath) = deauthorized (push syspath (codes "authorized")) ∷ []

abbrev text_or : Text → Option Text → Text
text_or default none = default
text_or default (some t) = t

module _ (c : Crypto) (lossy : Text → Text) where
  -- The result of the mount is entered in the tables.
  unfoldable pub after_mount : UsbDevice → Reply Bool → List Act × Result Text → Turn
  after_mount d reply (acts, err e) = record {
    controller = reply.controller;
    acts = acts;
    effects = reply.effects;
  }
  after_mount d reply (acts, ok mnt_point) =
      let updated = update_usb c lossy reply.controller (record d { mnt_point = some mnt_point }) in
      record {
        controller = updated.controller;
        acts = acts;
        effects = reply.effects ++ updated.effects;
      }

  unfoldable pub device_name : Text → Text
  unfolding file_name
  device_name device_id = elim (file_name device_id) [ none ↦ codes "usb" | some n ↦ lossy n ]

  unfoldable pub refused : UsbDevice → Reply Bool → Turn
  unfolding deauthorize
  refused d reply = record {
    controller = reply.controller;
    acts = deauthorize d.usb_syspath;
    effects = reply.effects;
  }

  unfoldable pub after_authorize : System → UsbDevice → Reply Bool → Result Bool → Turn
  unfolding after_mount refused mount_certified device_name
  after_authorize sys d reply (err e) = refused d reply
  after_authorize sys d reply (ok false) = refused d reply
  after_authorize sys d reply (ok true) =
      after_mount d reply (mount_certified sys (lossy d.device_id) (device_name d.device_id))

  abbrev pub unchanged : Controller → Turn
  unchanged ctrl = record { controller = ctrl; acts = []; effects = [] }

  unfoldable pub add_device : System → Controller → Result (UsbDevice × Option Text) → Turn
  unfolding after_authorize
  add_device sys ctrl (err e) = unchanged ctrl
  add_device sys ctrl (ok (d, signature)) =
      let reply = authorize_usb c lossy ctrl d signature in after_authorize sys d reply reply.result

  unfoldable pub remove_partition : System → Controller → UdevEvent → Turn
  unfolding sentinel_of
  remove_partition sys ctrl e =
      let dev_name = lossy e.sysname in
      let (ctrl', effects) =
        remove_usb ctrl (text_or (codes "/dev/" ++ dev_name) e.device.devnode) in
      record {
        controller = ctrl';
        acts =
            if sys.exists (sentinel_of dev_name)
            then removed_sentinel (sentinel_of dev_name) ∷ []
            else [];
        effects = effects;
      }

  -- `read` is what lies from byte 512 of a disk on.
  unfoldable pub handle_kind :
      System → (Text → Option Bytes) → Controller → UdevEvent → EventKind → Turn
  unfolding force_remove_all add_device remove_partition
  handle_kind sys read ctrl e usb_removed = record {
    controller = force_remove_all ctrl (unmounted_usb_ids_with_syspath_prefix ctrl e.syspath);
    acts = [];
    effects = [];
  }
  handle_kind sys read ctrl e partition_removed = remove_partition sys ctrl e
  handle_kind sys read ctrl e partition_added =
      add_device sys ctrl (extract_usb_info sys.from_utf8 read e.device)
  handle_kind sys read ctrl e other = unchanged ctrl

  unfoldable pub handle_event : System → (Text → Option Bytes) → Controller → UdevEvent → Turn
  unfolding handle_kind kind_of
  handle_event sys read ctrl e = handle_kind sys read ctrl e (kind_of e)

-- A round of the loop: the flag is set, the poll fails, nothing comes (an interrupt, the timeout or no
-- event), or an event with the answers of the system and the disks as they are then.
pub data Round : Type 0 where
  stopped poll_failed idle : Round
  event : System → (Text → Option Bytes) → UdevEvent → Round

module _ (c : Crypto) (lossy : Text → Text) where
  -- The rounds in order; the loop ends where it is stopped or the poll fails.
  unfoldable pub watch : List Round → Controller → Controller
  unfolding handle_event
  watch [] ctrl = ctrl
  watch (stopped ∷ rounds) ctrl = ctrl
  watch (poll_failed ∷ rounds) ctrl = ctrl
  watch (idle ∷ rounds) ctrl = watch rounds ctrl
  watch (event sys read e ∷ rounds) ctrl =
      watch rounds (handle_event c lossy sys read ctrl e).controller
