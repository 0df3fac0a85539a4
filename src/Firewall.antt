-- ===== src/Firewall.antt =====
-- keysas-firewall/daemon/src/controller.rs: the firewall's table of USB devices, and the check of a
-- device's signature (with verify_key_signatures of keysas_lib/src/keysas_key.rs).
pub mod Start
pub mod Devices
pub mod Files
pub mod Queries
pub mod Access
pub mod Restart
pub mod Monitor
pub mod Mount
pub mod Watch
pub mod Traces
pub mod Deauthorize
pub mod MountPoint
pub mod FileFilter
pub mod Responses
pub mod Gui
pub mod Dialog
pub mod Entries
pub mod Events
pub mod Evaluate
pub mod Grants
pub mod Moves
pub mod Reach
mod Examples
mod Rounds
mod Questions
use keysas.Base.{
  ℕ, ◌+◌, Bool, true, false, not, Option, none, some, List, [], ◌∷◌, ◌++◌, Text, Bytes, codes, utf8,
  text_eq, length, split, ◌==◌, if◌then◌else◌, Result, ok, err, message, library, ensure, or_err,
  ◌>>=◌, ◌>>◌, is_ok,
}
use keysas.Signing.{Crypto}

pub data UsbAuthorization : Type 0 where
  pending block allow_read allow_rw allow_all : UsbAuthorization

unfoldable pub as_u8 : UsbAuthorization → ℕ
as_u8 pending = 0
as_u8 block = 1
as_u8 allow_read = 2
as_u8 allow_rw = 3
as_u8 allow_all = 4

unfoldable pub to_kernel_u8 : UsbAuthorization → ℕ
to_kernel_u8 a = as_u8 a + 1

pub record SecurityPolicy : Type 0 where
  pub disable_unsigned_usb : Bool
  pub allow_user_usb_authorization : Bool
  pub allow_user_file_read : Bool
  pub allow_user_file_write : Bool

pub record UsbDevice : Type 0 where
  pub device_id : Text
  pub mnt_point : Option Text
  pub vendor : Text
  pub model : Text
  pub revision : Text
  pub serial : Text
  pub usb_syspath : Option Text

pub record UsbDevicePolicy : Type 0 where
  pub device : UsbDevice
  pub auth : UsbAuthorization

pub record HybridPubKeys : Type 0 where
  pub classic : Bytes
  pub pq : Bytes

-- The tables are hash maps: association lists whose order does not matter.
abbrev pub Table : Type 0
Table = List (Text × UsbDevicePolicy)

unfoldable pub get : Text → Table → Option UsbDevicePolicy
get k [] = none
get k (entry ∷ table) = let rest = get k table in if text_eq k entry.0 then some entry.1 else rest

unfoldable pub remove : Text → Table → Table
remove k [] = []
remove k (entry ∷ table) =
    let rest = remove k table in if text_eq k entry.0 then rest else entry ∷ rest

unfoldable pub insert : Text → UsbDevicePolicy → Table → Table
insert k p table = (k, p) ∷ remove k table

-- `get_mut(k)` and an assignment to its `auth`.
unfoldable pub set_auth : Text → UsbAuthorization → Table → Table
set_auth k a [] = []
set_auth k a (entry ∷ table) =
    let rest = set_auth k a table in
    if text_eq k entry.0 then (entry.0, record entry.1 { auth = a }) ∷ rest else entry ∷ rest

-- The controller's own state; the interfaces it calls are the effects below.
pub record Controller : Type 0 where
  pub policy : SecurityPolicy
  pub usb_ca_pub : HybridPubKeys
  pub unmounted_usb : Table
  pub mounted_usb : Table

-- The controller that `init` builds before it recovers devices.
unfoldable pub new_controller : SecurityPolicy → HybridPubKeys → Controller
new_controller policy usb_ca_pub = record {
  policy = policy;
  usb_ca_pub = usb_ca_pub;
  unmounted_usb = [];
  mounted_usb = [];
}

pub record UsbUpdateMessage : Type 0 where
  pub device : Text
  pub path : Text
  pub name : Text
  pub authorization : UsbAuthorization

-- Calls of the other interfaces: to the user interface, to the file filter, and a write of `1` below a
-- sysfs path. What of them may fail and matters is an argument of the operation.
pub data Effect : Type 0 where
  send_usb_update : UsbUpdateMessage → Effect
  update_usb_auth : UsbDevicePolicy → Effect
  reauthorize : Text → Effect

pub record Reply (A : Type 0) : Type 0 where
  pub result : Result A
  pub controller : Controller
  pub effects : List Effect

-- The signature block: base64 of an Ed25519 signature, `|`, base64 of an ML-DSA-87 one.
first_part : List Text → Option Text
first_part [] = none
first_part (a ∷ _) = some a

second_part : List Text → Option Text
second_part (_ ∷ b ∷ _) = some b
second_part _ = none

unfoldable pub verify_key_signatures :
    Crypto → Bytes → Bytes → Bytes → HybridPubKeys → Result (Unit {0})
verify_key_signatures c msg classic pq pubkeys = do
  ensure (c.ed_verify pubkeys.classic msg classic) (message (codes "Invalid Ed25519 signature"))
  ensure c.pq_scheme (message (codes "Cannot construct new ML-DSA87 algorithm: "))
  ensure (c.pq_verify msg pq pubkeys.pq) (message (codes "ML-DSA87 scheme is not verified: "))

-- `lossy` is `to_string_lossy`.
module _ (c : Crypto) (lossy : Text → Text) where
  unfoldable pub get_name : UsbDevice → Text
  get_name d =
      lossy d.vendor ++ b'-' ∷ (lossy d.model ++ b'-' ∷ (lossy d.revision ++ b'-' ∷ lossy d.serial))

  unfoldable pub signed_data : UsbDevice → Text
  signed_data d =
      lossy d.vendor
      ++ b'/'
        ∷ (lossy d.model
            ++ b'/' ∷ (lossy d.revision ++ b'/' ∷ (lossy d.serial ++ b'/' ∷ codes "out")))

  unfoldable pub validate_usb_signature : HybridPubKeys → UsbDevice → Text → Result Bool
  unfolding first_part second_part
  validate_usb_signature pubkeys device sig_block = do
    let signatures = split b'|' sig_block
    sig_cl ← or_err (first_part signatures) (message (codes "Cannot extract ED25519 signature"))
    sig_cl_dec ← or_err (c.b64_decode sig_cl) (message (codes "Failed to parse ED25519 signature"))
    ensure (length sig_cl_dec == 64)
        (message (codes "ED25519 signature is  bytes (expected 64); sig_cl base64 length="))
    sig_pq ←
        or_err (second_part signatures) (message (codes "Cannot extract Dilithium 5 signature"))
    sig_pq_dec ←
        or_err (c.b64_decode sig_pq) (message (codes "Failed to parse Dilithium 5 signature"))
    ensure c.pq_scheme (message (codes "Cannot construct new MlDsa87 algorithm: "))
    ensure (c.pq_signature sig_pq_dec) (message (codes "Cannot parse PQ signature from bytes"))
    ok (is_ok (verify_key_signatures c (utf8 (signed_data device)) sig_cl_dec sig_pq_dec pubkeys))

  unfoldable pub unsigned_auth : SecurityPolicy → UsbAuthorization
  unsigned_auth p = if p.disable_unsigned_usb then allow_all else block

  unfoldable pub trusted_auth : SecurityPolicy → UsbAuthorization
  trusted_auth p = if p.allow_user_file_write then allow_rw else allow_read

  -- The authorisation of a device seen for the first time.
  unfoldable pub evaluate :
      SecurityPolicy → HybridPubKeys → UsbDevice → Option Text → Result UsbAuthorization
  unfolding unsigned_auth trusted_auth
  evaluate policy usb_ca_pub device none = ok (unsigned_auth policy)
  evaluate policy usb_ca_pub device (some sig) = do
    valid ← validate_usb_signature usb_ca_pub device sig
    ok (if valid then trusted_auth policy else unsigned_auth policy)

  unfoldable pub is_access : UsbAuthorization → Bool
  is_access block = false
  is_access pending = false
  is_access _ = true

  blocked_message : UsbDevice → UsbAuthorization → List Effect
  blocked_message d block =
      send_usb_update
        (record { device = lossy d.device_id; path = []; name = get_name d; authorization = block })
      ∷ []
  blocked_message d _ = []

  -- The device stands in the table, `auth` is its evaluation.
  unfoldable pub settle : Controller → UsbDevice → Result UsbAuthorization → Reply Bool
  unfolding is_access blocked_message
  settle ctrl d (err e) = record {
    result = err e;
    controller = record ctrl { unmounted_usb = set_auth d.device_id block ctrl.unmounted_usb };
    effects = [];
  }
  settle ctrl d (ok auth) = record {
    result = ok (is_access auth);
    controller = record ctrl { unmounted_usb = set_auth d.device_id auth ctrl.unmounted_usb };
    effects = blocked_message d auth;
  }

  -- `remove` before `insert` is what happens to a blocked device that comes again.
  unfoldable pub register : Controller → UsbDevice → Option Text → Reply Bool
  unfolding settle
  register ctrl d signature =
      let pending_policy : UsbDevicePolicy = record { device = d; auth = pending } in
      let ctrl' = record ctrl {
        unmounted_usb = insert d.device_id pending_policy ctrl.unmounted_usb;
      } in
      settle ctrl' d (evaluate ctrl.policy ctrl.usb_ca_pub d signature)

  unfoldable pub authorize_known :
      Controller → UsbDevice → Option Text → UsbAuthorization → Reply Bool
  authorize_known ctrl d signature pending = record {
    result = ok false;
    controller = ctrl;
    effects = [];
  }
  authorize_known ctrl d signature block =
      register (record ctrl { unmounted_usb = remove d.device_id ctrl.unmounted_usb }) d signature
  authorize_known ctrl d signature _ = record { result = ok true; controller = ctrl; effects = [] }

  unfoldable pub authorize_usb : Controller → UsbDevice → Option Text → Reply Bool
  unfolding authorize_known register
  authorize_usb ctrl d signature = elim (get d.device_id ctrl.unmounted_usb) [
    | none ↦ register ctrl d signature
    | some existing ↦ authorize_known ctrl d signature existing.auth
  ]
