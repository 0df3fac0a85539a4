-- ===== src/Firewall/Moves.antt =====
-- controller.rs: the tables of devices when a device is mounted or removed.
use keysas.Base.{inl, inr, List, Text, Option-cases}
use keysas.Signing.{Crypto}
use keysas.Firewall.{
  UsbAuthorization, block, SecurityPolicy, HybridPubKeys, UsbDevice, Controller, get,
}
use keysas.Firewall.Devices.{refuse, update_usb, remove_unmounted, remove_usb}
use keysas.Firewall.Start.{Startup}
use keysas.Firewall.Entries.{AllEntries-remove, AllEntries-insert, AllEntries-get}
use keysas.Firewall.Events.{Event, Justified}
use keysas.Firewall.Grants.{Tables}

module _ (c : Crypto) (lossy : Text → Text) (start : Startup) (policy : SecurityPolicy)
    (keys : HybridPubKeys) where
  pub Tables-update_usb :
      (events : List Event) (ctrl : Controller) (d : UsbDevice)
      → Tables c lossy start policy keys events ctrl
      → Tables c lossy start policy keys events (update_usb c lossy ctrl d).controller
  unfolding update_usb refuse
  Tables-update_usb events ctrl d (u, m) =
      elim (Option-cases (get d.device_id ctrl.unmounted_usb)) [
        | inl absent ↦ rw (absent, update_usb) (u, m)
        | inr (p, known) ↦
            let P = Justified c lossy start policy keys events in
            rw (known, update_usb)
              (
                AllEntries-remove P d.device_id ctrl.unmounted_usb u,
                AllEntries-insert P d.device_id _ ctrl.mounted_usb
                    (AllEntries-get P d.device_id p ctrl.unmounted_usb u known) m,
              )
      ]

  Tables-remove_unmounted :
      (events : List Event) (ctrl : Controller) (id : Text) (a : UsbAuthorization)
      → Tables c lossy start policy keys events ctrl
      → Tables c lossy start policy keys events (remove_unmounted ctrl id a)
  unfolding remove_unmounted
  Tables-remove_unmounted events ctrl id block t = t
  Tables-remove_unmounted events ctrl id _ (u, m) =
      (AllEntries-remove (Justified c lossy start policy keys events) id ctrl.unmounted_usb u, m)

  pub Tables-remove_usb :
      (events : List Event) (ctrl : Controller) (id : Text)
      → Tables c lossy start policy keys events ctrl
      → Tables c lossy start policy keys events (remove_usb ctrl id).0
  unfolding remove_usb
  Tables-remove_usb events ctrl id (u, m) = elim (Option-cases (get id ctrl.mounted_usb)) [
    | inr (p, known) ↦
        rw (known, remove_usb)
          (u, AllEntries-remove (Justified c lossy start policy keys events) id ctrl.mounted_usb m)
    | inl absent ↦ elim (Option-cases (get id ctrl.unmounted_usb)) [
      | inl gone ↦ rw (absent, gone, remove_usb) (u, m)
      | inr (p, known) ↦
          rw (absent, known, remove_usb) (Tables-remove_unmounted events ctrl id p.auth (u, m))
    ]
  ]
