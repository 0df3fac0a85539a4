-- ===== src/Firewall/Start.antt =====
-- controller.rs: the start of the controller, with the recovery of devices that were mounted before.
use keysas.Base.{◌≡◌, Bool, true, Option, none, some, List, Text, Some}
use keysas.Signing.{Crypto}
use keysas.Firewall.{SecurityPolicy, HybridPubKeys, new_controller}
use keysas.Firewall.Queries.{Recovery, device_path, find_mount_point, recover_mounted_devices}

-- What the start meets: the paths that exist, the lines of `/proc/mounts`, and the names of the sentinels;
-- none where these cannot be read.
pub record Startup : Type 0 where
  pub exists : Text → Bool
  pub mounts : Option (List Text)
  pub entries : Option (List Text)

module _ (c : Crypto) (lossy : Text → Text) where
  -- `init`, once the policy and the certificates are loaded and the interfaces are started.
  unfoldable pub init : Startup → SecurityPolicy → HybridPubKeys → Recovery
  unfolding recover_mounted_devices new_controller
  init start policy usb_ca_pub =
      recover_mounted_devices c lossy start.exists start.mounts start.entries
        (new_controller policy usb_ca_pub)

  -- The sentinel names the device, which is there and mounted.
  abbrev pub Names : (Text → Bool) → Option (List Text) → Text → Text → Type 0
  Names exists mounts id dev_name =
      (id ≡ device_path c lossy dev_name)
      × (exists id ≡ true)
      × ((mnt : Text) × (find_mount_point c lossy mounts id ≡ some mnt))

  -- One of the sentinels that can be read names the device.
  abbrev pub NamedIn : (Text → Bool) → Option (List Text) → Option (List Text) → Text → Type 0
  NamedIn exists mounts none id = ⊥
  NamedIn exists mounts (some entries) id = Some (Names exists mounts id) entries

  abbrev pub Recovered : Startup → Text → Type 0
  Recovered start id = NamedIn start.exists start.mounts start.entries id
