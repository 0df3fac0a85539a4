-- ===== src/Firewall/Devices.antt =====
-- controller.rs: the operations on a device that is in the tables.
use keysas.Base.{
  Bool, Option, none, some, List, [], ◌∷◌, Text, codes, if◌then◌else◌, Result, ok, err, message,
  library,
}
use keysas.Signing.{Crypto}
use keysas.Firewall.{
  UsbAuthorization, block, allow_read, allow_rw, UsbDevice, UsbDevicePolicy, Controller, Effect,
  send_usb_update, update_usb_auth, reauthorize, Reply, get, remove, insert, set_auth, get_name,
}

unfoldable pub refuse : Controller → Text → Reply (Unit {0})
refuse ctrl text = record { result = err (message text); controller = ctrl; effects = [] }

-- A blocked device with a sysfs path; `written` is whether the write below it succeeds.
unfoldable pub promote : Controller → Text → Bool → Text → Reply (Unit {0})
promote ctrl key written syspath =
    let new_auth = if ctrl.policy.allow_user_file_write then allow_rw else allow_read in
    record {
      result = if written then ok tt else err (message (codes "Failed to re-authorize '' via : "));
      controller = record ctrl { unmounted_usb = set_auth key new_auth ctrl.unmounted_usb };
      effects = reauthorize syspath ∷ [];
    }

unfoldable pub override_at : Controller → Text → Bool → Option Text → Reply (Unit {0})
override_at ctrl key written none = refuse ctrl (codes "No sysfs path for device ''")
override_at ctrl key written (some syspath) = promote ctrl key written syspath

unfoldable pub override_known :
    Controller → Text → Bool → Option Text → UsbAuthorization → Reply (Unit {0})
override_known ctrl key written syspath block = override_at ctrl key written syspath
override_known ctrl key written syspath _ =
    refuse ctrl (codes "Device '' is not in a blocked state")

unfoldable pub override_found : Controller → Text → Bool → Option UsbDevicePolicy → Reply (Unit {0})
override_found ctrl device_id written none =
    refuse ctrl (codes "Device '' not found in blocked list")
override_found ctrl device_id written (some p) =
    override_known ctrl device_id written p.device.usb_syspath p.auth

unfoldable pub override_blocked_usb : Controller → Text → Bool → Reply (Unit {0})
override_blocked_usb ctrl device_id written =
    if ctrl.policy.allow_user_usb_authorization
    then override_found ctrl device_id written (get device_id ctrl.unmounted_usb)
    else refuse ctrl (codes "User USB authorization override is disabled by policy")

path_of : (Text → Text) → Option Text → Text
path_of lossy none = []
path_of lossy (some m) = lossy m

-- The device has been mounted: it changes tables, with its mount point. Failures to tell the file filter
-- or the user interface are only logged.
unfoldable pub update_usb : Crypto → (Text → Text) → Controller → UsbDevice → Reply (Unit {0})
unfolding refuse path_of
update_usb c lossy ctrl d = elim (get d.device_id ctrl.unmounted_usb) [
  | none ↦ refuse ctrl (codes "update_usb: device  not found in unmounted list")
  | some p ↦
      let p' : UsbDevicePolicy = record p {
        device = record p.device { mnt_point = d.mnt_point };
      } in
      record {
        result = ok tt;
        controller = record ctrl {
          unmounted_usb = remove d.device_id ctrl.unmounted_usb;
          mounted_usb = insert d.device_id p' ctrl.mounted_usb;
        };
        effects =
            update_usb_auth p'
            ∷ send_usb_update (record {
              device = lossy d.device_id;
              path = path_of lossy d.mnt_point;
              name = get_name c lossy p'.device;
              authorization = p.auth;
            })
            ∷ [];
      }
]

unfoldable pub force_remove_usb : Controller → Text → Controller
force_remove_usb ctrl device_id = record ctrl {
  unmounted_usb = remove device_id ctrl.unmounted_usb;
}

unfoldable pub remove_unmounted : Controller → Text → UsbAuthorization → Controller
remove_unmounted ctrl device_id block = ctrl
remove_unmounted ctrl device_id _ = record ctrl {
  unmounted_usb = remove device_id ctrl.unmounted_usb;
}

-- A blocked device stays in the table of unmounted ones.
unfoldable pub remove_usb : Controller → Text → Controller × List Effect
unfolding remove_unmounted
remove_usb ctrl device_id = elim (get device_id ctrl.mounted_usb) [
  | some p ↦ (
    record ctrl { mounted_usb = remove device_id ctrl.mounted_usb },
    update_usb_auth (record { device = p.device; auth = block }) ∷ [],
  )
  | none ↦ elim (get device_id ctrl.unmounted_usb) [
    | none ↦ (ctrl, [])
    | some p ↦ (remove_unmounted ctrl device_id p.auth, [])
  ]
]

-- The user interface asks for another authorisation of a mounted device: the file filter is told, and
-- its failure passed on; the tables stay.
unfoldable pub request_usb_update :
    Controller → Text → UsbAuthorization → Bool → Result (Unit {0}) × List Effect
request_usb_update ctrl device authorization filter_ok = elim (get device ctrl.mounted_usb) [
  | none ↦ (ok tt, [])
  | some p ↦ (
    (if filter_ok then ok tt else err library),
    update_usb_auth (record { device = p.device; auth = authorization }) ∷ [],
  )
]
