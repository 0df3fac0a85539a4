-- ===== src/Firewall/Deauthorize.antt =====
-- What the monitor does to the system for a device that it may not open.
use keysas.Base.{
  ◌≡◌, refl, inl, inr, Bool, true, false, Option, none, some, [], ◌∷◌, Text, Bytes, Some,
  if◌then◌else◌, Result, ok, err,
}
use keysas.Signing.{Crypto}
use keysas.Firewall.{UsbDevice, Controller, Reply, authorize_usb}
use keysas.Firewall.Monitor.{extract_usb_info}
use keysas.Firewall.Mount.{
  System, Act, wrote_sentinel, removed_sentinel, triggered, asked_udisks, called_mount,
  deauthorized,
}
use keysas.Firewall.Watch.{
  UdevEvent, EventKind, usb_removed, partition_removed, partition_added, other, kind_of,
  deauthorize, refused, after_authorize, add_device, remove_partition, handle_kind, handle_event,
}

-- What lets a device be mounted: its sentinel, and the two ways of mounting it.
abbrev pub Opens : Act → Type 0
Opens (wrote_sentinel path) = Unit
Opens (removed_sentinel path) = ⊥
Opens (triggered path) = ⊥
Opens (asked_udisks username devnode) = Unit
Opens (called_mount devnode mnt_point) = Unit
Opens (deauthorized path) = ⊥

closed-deauthorize : (syspath : Option Text) → ¬ Some Opens (deauthorize syspath)
unfolding deauthorize
closed-deauthorize none s = s
closed-deauthorize (some syspath) (inl s) = s
closed-deauthorize (some syspath) (inr s) = s

module _ (c : Crypto) (lossy : Text → Text) (sys : System) (read : Text → Option Bytes)
    (ctrl : Controller) (e : UdevEvent) where
  -- The event is that of a partition that is added, of which the device and the signature can be read, and
  -- the controller authorises it.
  abbrev pub Authorized : Type 0
  Authorized =
      (kind_of e ≡ partition_added)
      × (d : UsbDevice) × (signature : Option Text) × (extract_usb_info sys.from_utf8 read e.device
          ≡ ok (d, signature))
      × ((authorize_usb c lossy ctrl d signature).result ≡ ok true)

  after_authorize-opens :
      (d : UsbDevice) (reply : Reply Bool) (r : Result Bool)
      → Some Opens (after_authorize c lossy sys d reply r).acts
      → r ≡ ok true
  unfolding after_authorize refused
  after_authorize-opens d reply (err x) s = absurd (closed-deauthorize d.usb_syspath s)
  after_authorize-opens d reply (ok false) s = absurd (closed-deauthorize d.usb_syspath s)
  after_authorize-opens d reply (ok true) s = refl

  add_device-opens :
      (r : Result (UsbDevice × Option Text))
      → extract_usb_info sys.from_utf8 read e.device ≡ r
      → Some Opens (add_device c lossy sys ctrl r).acts
      → (d : UsbDevice) × (signature : Option Text) × (extract_usb_info sys.from_utf8 read e.device
          ≡ ok (d, signature))
        × ((authorize_usb c lossy ctrl d signature).result ≡ ok true)
  unfolding add_device
  add_device-opens (err x) same s = absurd s
  add_device-opens (ok (d, signature)) same s =
      let reply = authorize_usb c lossy ctrl d signature in
      (d, signature, same, after_authorize-opens d reply reply.result s)

  closed-remove_partition : ¬ Some Opens (remove_partition c lossy sys ctrl e).acts
  unfolding remove_partition
  closed-remove_partition = closed _ _
    where
      closed :
          (there : Bool) (path : Text)
          → ¬ Some Opens (if there then removed_sentinel path ∷ [] else [])
      closed true path (inl s) = s
      closed true path (inr s) = s
      closed false path s = s

  handle_kind-opens :
      (k : EventKind)
      → kind_of e ≡ k
      → Some Opens (handle_kind c lossy sys read ctrl e k).acts
      → Authorized
  unfolding handle_kind
  handle_kind-opens usb_removed same s = absurd s
  handle_kind-opens partition_removed same s = absurd (closed-remove_partition s)
  handle_kind-opens partition_added same s =
      let (d, signature, found, granted) =
        add_device-opens (extract_usb_info sys.from_utf8 read e.device) refl s in
      (same, d, signature, found, granted)
  handle_kind-opens other same s = absurd s

  -- In a turn of the loop a sentinel is written or a device is mounted only for a partition that is added,
  -- whose device and signature could be read, and which the controller, as it is then, authorises.
  pub handle_event-Authorized : Some Opens (handle_event c lossy sys read ctrl e).acts → Authorized
  unfolding handle_event
  handle_event-Authorized s = handle_kind-opens (kind_of e) refl s
