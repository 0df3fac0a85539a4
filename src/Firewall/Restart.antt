-- ===== src/Firewall/Restart.antt =====
-- controller.rs: what the recovery of mounted devices lets in.
use keysas.Base.{
  ◌≡◌, refl, sym, inl, inr, Bool, Option, none, some, List, [], ◌∷◌, Text, Some, Bool-cases,
}
use mathlib.Core.Path.{subst}
use keysas.Signing.{Crypto}
use keysas.Firewall.{SecurityPolicy, HybridPubKeys, new_controller, trusted_auth}
use keysas.Firewall.Start.{Startup, init, Names, NamedIn, Recovered}
use keysas.Firewall.Entries.{Property, AllEntries, AllEntries-insert}
use keysas.Firewall.Queries.{
  Recovery, device_path, find_mount_point, recovered_policy, restore, recover_one, recover_all,
  recover_mounted_devices,
}

module _ (c : Crypto) (lossy : Text → Text) (exists : Text → Bool)
    (mounts : Option (List Text)) where
  module _ (policy : SecurityPolicy) (keys : HybridPubKeys) (P : Property) where
    -- The table of mounted devices has the property; the rest is as the start made it.
    abbrev pub Holds : Recovery → Type 0
    Holds r =
        AllEntries P r.controller.mounted_usb
        × (r.controller.policy ≡ policy)
        × (r.controller.usb_ca_pub ≡ keys)
        × (r.controller.unmounted_usb ≡ [])

    restore-Holds :
        (id : Text) (o : Option Text) (r : Recovery)
        → ((mnt : Text) → o ≡ some mnt → P id (trusted_auth c lossy policy))
        → Holds r
        → Holds (restore c lossy id o r)
    unfolding restore recovered_policy
    restore-Holds id none r f h = h
    restore-Holds id (some mnt) r f (all, same, keys_same, empty) = (
      AllEntries-insert P id (recovered_policy c lossy r.controller id mnt) r.controller.mounted_usb
          (subst (λ q. P id (trusted_auth c lossy q)) (sym same) (f mnt refl)) all,
      same,
      keys_same,
      empty,
    )

    recover_one-Holds :
        (dev_name : Text) (r : Recovery)
        → ((id : Text)
            → Names c lossy exists mounts id dev_name
            → P id (trusted_auth c lossy policy))
        → Holds r
        → Holds (recover_one c lossy exists mounts dev_name r)
    unfolding recover_one
    recover_one-Holds dev_name r f h =
        let id = device_path c lossy dev_name in
        elim (Bool-cases (exists id)) [
          | inl e ↦
              rw (e, recover_one)
                (restore-Holds id (find_mount_point c lossy mounts id) r
                  (λ mnt m. f id (refl, e, (mnt, m))) h)
          | inr e ↦ rw (e, recover_one) h
        ]

    recover_all-Holds :
        (entries : List Text) (r : Recovery)
        → ((id : Text)
            → Some (Names c lossy exists mounts id) entries
            → P id (trusted_auth c lossy policy))
        → Holds r
        → Holds (recover_all c lossy exists mounts entries r)
    unfolding recover_all
    recover_all-Holds [] r f h = h
    recover_all-Holds (n ∷ entries) r f h =
        recover_all-Holds entries (recover_one c lossy exists mounts n r) (λ id s. f id (inr s))
          (recover_one-Holds n r (λ id s. f id (inl s)) h)

module _ (c : Crypto) (lossy : Text → Text) where
  -- What a recovered entry rests on.
  abbrev pub Attested : SecurityPolicy → Startup → Property
  Attested policy start id auth = Recovered c lossy start id × (auth ≡ trusted_auth c lossy policy)

  recovered-Holds :
      (start : Startup) (policy : SecurityPolicy) (keys : HybridPubKeys)
      (entries : Option (List Text))
      → start.entries ≡ entries
      → Holds c lossy start.exists start.mounts policy keys
          (λ id auth.
            NamedIn c lossy start.exists start.mounts entries id
            × (auth ≡ trusted_auth c lossy policy))
          (recover_mounted_devices c lossy start.exists start.mounts entries
            (new_controller policy keys))
  unfolding recover_mounted_devices new_controller
  recovered-Holds start policy keys none e = (tt, refl, refl, refl)
  recovered-Holds start policy keys (some entries) e =
      recover_all-Holds c lossy start.exists start.mounts policy keys _ entries _
        (λ id s. (s, refl)) (tt, refl, refl, refl)

  pub init-Holds :
      (start : Startup) (policy : SecurityPolicy) (keys : HybridPubKeys)
      → Holds c lossy start.exists start.mounts policy keys
          (Attested policy start)
          (init c lossy start policy keys)
  unfolding init
  init-Holds start policy keys = recovered-Holds start policy keys start.entries refl

  -- After the start of the daemon, each device in the table of mounted ones has a sentinel of its name, is
  -- there and mounted, and has the access of a device whose signature was verified.
  pub recovered-Attested :
      (start : Startup) (policy : SecurityPolicy) (keys : HybridPubKeys)
      → AllEntries (Attested policy start) (init c lossy start policy keys).controller.mounted_usb
  recovered-Attested start policy keys = (init-Holds start policy keys).0
