-- ===== src/Firewall/Queries.antt =====
-- controller.rs: the look-ups in the tables, the lists for the user interface, and the recovery of devices
-- that were mounted before the daemon started.
use keysas.Base.{
  ℕ, Bool, true, false, not, ◌&&◌, Option, none, some, List, [], ◌∷◌, ◌++◌, map, Text, codes,
  text_eq, starts_with, split, if◌then◌else◌, Result, ok, err, message,
}
use keysas.Signing.{Crypto}
use keysas.Firewall.{
  UsbAuthorization, as_u8, UsbDevicePolicy, Controller, Table, Effect, send_usb_update,
  update_usb_auth, get, insert, get_name, trusted_auth,
}
use keysas.Firewall.Files.{components}

-- The key is a device's identifier.
unfoldable pub get_usb_auth : Controller → Text → Result UsbAuthorization
unfolding get
get_usb_auth ctrl mount = elim (get mount ctrl.mounted_usb) [
  | none ↦ err (message (codes "No device found"))
  | some p ↦ ok p.auth
]

is_mounted_at : Text → Option Text → Bool
unfolding text_eq
is_mounted_at mnt none = false
is_mounted_at mnt (some m) = text_eq m mnt

find_mounted : Text → Table → Option UsbAuthorization
unfolding is_mounted_at
find_mounted mnt [] = none
find_mounted mnt (entry ∷ table) =
    let rest = find_mounted mnt table in
    if is_mounted_at mnt entry.1.device.mnt_point then some entry.1.auth else rest

-- The values of the map in some order, which is that of the list.
unfoldable pub get_usb_auth_by_mount : Controller → Text → Option UsbAuthorization
unfolding find_mounted
get_usb_auth_by_mount ctrl mnt_point = find_mounted mnt_point ctrl.mounted_usb

abbrev is_absolute : Text → Bool
is_absolute path = starts_with path (codes "/")

list_prefix : List Text → List Text → Bool
unfolding text_eq
list_prefix [] ps = true
list_prefix (q ∷ qs) [] = false
list_prefix (q ∷ qs) (p ∷ ps) = text_eq q p && list_prefix qs ps

-- `Path::starts_with` compares whole components.
unfoldable pub path_starts_with : Text → Text → Bool
unfolding list_prefix components starts_with
path_starts_with path prefix =
    (if is_absolute path then is_absolute prefix else not (is_absolute prefix))
    && list_prefix (components prefix) (components path)

syspath_under : Text → Option Text → Bool
unfolding path_starts_with
syspath_under prefix none = false
syspath_under prefix (some sp) = path_starts_with sp prefix

ids_under : Text → Table → List Text
unfolding syspath_under
ids_under prefix [] = []
ids_under prefix (entry ∷ table) =
    let rest = ids_under prefix table in
    if syspath_under prefix entry.1.device.usb_syspath then entry.0 ∷ rest else rest

unfoldable pub unmounted_usb_ids_with_syspath_prefix : Controller → Text → List Text
unfolding ids_under
unmounted_usb_ids_with_syspath_prefix ctrl prefix = ids_under prefix ctrl.unmounted_usb

pub record Recovery : Type 0 where
  pub controller : Controller
  pub effects : List Effect
  pub removed : List Text  -- the sentinels

module _ (c : Crypto) (lossy : Text → Text) where
  mount_text : Option Text → Text
  mount_text none = []
  mount_text (some m) = lossy m

  -- A device of the list: its identifier, mount point, name and authorisation.
  unfoldable pub list_usb_devices : Controller → List (Text × Text × Text × ℕ)
  unfolding get_name as_u8 mount_text
  list_usb_devices ctrl =
      map (λ e. (lossy e.1.device.device_id, [], get_name c lossy e.1.device, as_u8 e.1.auth))
        ctrl.unmounted_usb
      ++ map
          (λ e. (
            lossy e.1.device.device_id,
            mount_text e.1.device.mnt_point,
            get_name c lossy e.1.device,
            as_u8 e.1.auth,
          ))
          ctrl.mounted_usb

  abbrev list_message : Text × UsbDevicePolicy → Effect
  list_message e = send_usb_update (record {
    device = lossy e.1.device.device_id;
    path = [];
    name = get_name c lossy e.1.device;
    authorization = e.1.auth;
  })

  unfoldable pub send_usb_file_list : Controller → List Effect
  unfolding get_name
  send_usb_file_list ctrl = map list_message ctrl.unmounted_usb ++ map list_message ctrl.mounted_usb

  -- A line of `/proc/mounts`: its first two columns, none where there are fewer.
  two_columns : List Text → Option (Text × Text)
  two_columns (dev ∷ mnt ∷ _) = some (dev, mnt)
  two_columns _ = none

  same_device : Text → Option (Text × Text) → Option Text → Option Text
  unfolding text_eq
  same_device dev_str none rest = rest
  same_device dev_str (some (dev, mnt)) rest = if text_eq dev dev_str then some mnt else rest

  mount_in : Text → List Text → Option Text
  unfolding same_device two_columns split
  mount_in dev_str [] = none
  mount_in dev_str (line ∷ lines) =
      same_device dev_str (two_columns (split b' ' line)) (mount_in dev_str lines)

  -- `mounts` has the lines that can be read, none where the file does not open.
  unfoldable pub find_mount_point : Option (List Text) → Text → Option Text
  unfolding mount_in
  find_mount_point none device = none
  find_mount_point (some lines) device = mount_in (lossy device) lines

  unfoldable pub device_path : Text → Text
  device_path dev_name = codes "/dev/" ++ dev_name

  unfoldable pub recovered_policy : Controller → Text → Text → UsbDevicePolicy
  unfolding trusted_auth
  recovered_policy ctrl device_id mnt_point = record {
    device = record {
      device_id = device_id;
      mnt_point = some mnt_point;
      vendor = [];
      model = [];
      revision = [];
      serial = [];
      usb_syspath = none;
    };
    auth = trusted_auth c lossy ctrl.policy;
  }

  -- A device that is there, with its mount point if it is mounted.
  unfoldable pub restore : Text → Option Text → Recovery → Recovery
  unfolding recovered_policy insert
  restore device_id none r = r
  restore device_id (some mnt_point) r =
      let p = recovered_policy r.controller device_id mnt_point in
      record r {
        controller = record r.controller {
          mounted_usb = insert device_id p r.controller.mounted_usb;
        };
        effects = r.effects ++ update_usb_auth p ∷ [];
      }

  unfoldable pub recover_one : (Text → Bool) → Option (List Text) → Text → Recovery → Recovery
  unfolding restore find_mount_point device_path
  recover_one exists mounts dev_name r =
      if exists (device_path dev_name)
      then restore (device_path dev_name) (find_mount_point mounts (device_path dev_name)) r
      else record r { removed = r.removed ++ dev_name ∷ [] }

  unfoldable pub recover_all : (Text → Bool) → Option (List Text) → List Text → Recovery → Recovery
  unfolding recover_one
  recover_all exists mounts [] r = r
  recover_all exists mounts (dev_name ∷ entries) r =
      recover_all exists mounts entries (recover_one exists mounts dev_name r)

  -- `entries` are the names of the sentinels, none where the directory is missing or cannot be read.
  unfoldable pub recover_mounted_devices :
      (Text → Bool) → Option (List Text) → Option (List Text) → Controller → Recovery
  unfolding recover_all
  recover_mounted_devices exists mounts none ctrl = record {
    controller = ctrl;
    effects = [];
    removed = [];
  }
  recover_mounted_devices exists mounts (some entries) ctrl =
      recover_all exists mounts entries (record { controller = ctrl; effects = []; removed = [] })
