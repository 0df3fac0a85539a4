-- ===== src/Firewall/Events.antt =====
-- The events that reach the controller, and what an authorisation in its tables may rest on.
use keysas.Base.{◌≡◌, ◌⊎◌, Bool, true, false, Option, some, List, [], ◌∷◌, Text, ok}
use keysas.Signing.{Crypto}
use keysas.Firewall.{
  UsbAuthorization, allow_read, allow_rw, allow_all, SecurityPolicy, HybridPubKeys, UsbDevice,
  Controller, validate_usb_signature, authorize_usb,
}
use keysas.Firewall.Devices.{override_blocked_usb, update_usb, force_remove_usb, remove_usb}
use keysas.Firewall.Start.{Startup, Recovered}
use keysas.Firewall.Entries.{AllEntries}

-- What reaches the controller: a device is plugged in with its signature, a user overrides a block (and
-- the write to sysfs succeeds or not), a device has been mounted, is unplugged, or is removed.
pub data Event : Type 0 where
  plugged : UsbDevice → Option Text → Event
  overridden : Text → Bool → Event
  mounted : UsbDevice → Event
  unplugged removed : Text → Event

module _ (c : Crypto) (lossy : Text → Text) where
  -- The state after an event, and after a sequence of events, the latest first.
  unfoldable pub handle : Event → Controller → Controller
  handle (plugged d signature) ctrl = (authorize_usb c lossy ctrl d signature).controller
  handle (overridden id written) ctrl = (override_blocked_usb ctrl id written).controller
  handle (mounted d) ctrl = (update_usb c lossy ctrl d).controller
  handle (unplugged id) ctrl = force_remove_usb ctrl id
  handle (removed id) ctrl = (remove_usb ctrl id).0

  unfoldable pub after : List Event → Controller → Controller
  after [] ctrl = ctrl
  after (e ∷ earlier) ctrl = handle e (after earlier ctrl)

  -- The event is of a device of that identifier whose signature verifies.
  abbrev pub Presents : HybridPubKeys → Text → Event → Type 0
  Presents keys id (plugged d (some sig)) =
      (d.device_id ≡ id) × (validate_usb_signature c lossy keys d sig ≡ ok true)
  Presents keys id _ = ⊥

  abbrev pub Signed : HybridPubKeys → Text → List Event → Type 0
  Signed keys id [] = ⊥
  Signed keys id (e ∷ earlier) = Presents keys id e ⊎ Signed keys id earlier

  -- The policy lets the user override blocks, or the device was signed, or the start recovered it.
  abbrev pub Entitled : Startup → SecurityPolicy → HybridPubKeys → List Event → Text → Type 0
  Entitled start policy keys events id =
      (policy.allow_user_usb_authorization ≡ true)
      ⊎ (Signed keys id events ⊎ Recovered c lossy start id)

  -- What an authorisation rests on.
  abbrev pub Justified :
      Startup → SecurityPolicy → HybridPubKeys → List Event → Text → UsbAuthorization → Type 0
  Justified start policy keys events id allow_all = policy.disable_unsigned_usb ≡ true
  Justified start policy keys events id allow_rw =
      (policy.allow_user_file_write ≡ true) × Entitled start policy keys events id
  Justified start policy keys events id allow_read =
      (policy.allow_user_file_write ≡ false) × Entitled start policy keys events id
  Justified start policy keys events id _ = Unit {0}

  -- Every authorisation in the tables is justified, and the policy and the keys are the given ones.
  pub record IsJustified (start : Startup) (policy : SecurityPolicy) (keys : HybridPubKeys)
      (events : List Event) (ctrl : Controller) : Type 0 where
    pub same_policy : ctrl.policy ≡ policy
    pub same_keys : ctrl.usb_ca_pub ≡ keys
    pub unmounted : AllEntries (Justified start policy keys events) ctrl.unmounted_usb
    pub mounted : AllEntries (Justified start policy keys events) ctrl.mounted_usb
