-- ===== src/Firewall/Reach.antt =====
-- What the tables hold after any sequence of events.
use keysas.Base.{
  clash, ◌≡◌, inl, inr, refl, sym, ap, ◌∙◌, ◌⊎◌, Bool, true, false, Option, some, List, [], ◌∷◌,
  Text, Result, ok, err, Option-cases, arith,
}
use mathlib.Core.Path.{subst}
use keysas.Signing.{Crypto}
use keysas.Firewall.{
  UsbAuthorization, pending, block, allow_read, allow_rw, allow_all, SecurityPolicy, HybridPubKeys,
  UsbDevice, UsbDevicePolicy, Table, Controller, get, is_access, settle, register, authorize_known,
  authorize_usb, evaluate,
}
use keysas.Firewall.Devices.{
  refuse, promote, override_at, override_known, override_found, override_blocked_usb, update_usb,
  force_remove_usb, remove_unmounted, remove_usb,
}
use keysas.Firewall.Start.{Startup, init, Recovered}
use keysas.Firewall.Restart.{Attested, init-Holds}
use keysas.Firewall.Entries.{Property, AllEntries, AllEntries-remove, AllEntries-get}
use keysas.Firewall.Events.{
  Event, plugged, overridden, mounted, unplugged, removed, handle, after, Signed, Justified,
  IsJustified,
}
use keysas.Firewall.Evaluate.{AllEntries-weaken, Justified-trusted_auth}
use keysas.Firewall.Grants.{Tables, Tables-authorize_usb, Tables-override_blocked_usb}
use keysas.Firewall.Moves.{Tables-update_usb, Tables-remove_usb}

-- The policy and the keys.
abbrev settings : Controller → SecurityPolicy × HybridPubKeys
settings ctrl = (ctrl.policy, ctrl.usb_ca_pub)

module _ (c : Crypto) (lossy : Text → Text) where
  settings-settle :
      (ctrl : Controller) (d : UsbDevice) (r : Result UsbAuthorization)
      → settings (settle c lossy ctrl d r).controller ≡ settings ctrl
  unfolding settle
  settings-settle ctrl d (ok a) = refl
  settings-settle ctrl d (err e) = refl

  settings-register :
      (ctrl : Controller) (d : UsbDevice) (signature : Option Text)
      → settings (register c lossy ctrl d signature).controller ≡ settings ctrl
  unfolding register
  settings-register ctrl d signature =
      settings-settle _ d (evaluate c lossy ctrl.policy ctrl.usb_ca_pub d signature)

  settings-authorize_known :
      (ctrl : Controller) (d : UsbDevice) (signature : Option Text) (a : UsbAuthorization)
      → settings (authorize_known c lossy ctrl d signature a).controller ≡ settings ctrl
  unfolding authorize_known
  settings-authorize_known ctrl d signature pending = refl
  settings-authorize_known ctrl d signature block = settings-register _ d signature
  settings-authorize_known ctrl d signature allow_read = refl
  settings-authorize_known ctrl d signature allow_rw = refl
  settings-authorize_known ctrl d signature allow_all = refl

  settings-authorize_usb :
      (ctrl : Controller) (d : UsbDevice) (signature : Option Text)
      → settings (authorize_usb c lossy ctrl d signature).controller ≡ settings ctrl
  unfolding authorize_usb
  settings-authorize_usb ctrl d signature =
      elim (Option-cases (get d.device_id ctrl.unmounted_usb)) [
        | inl absent ↦ rw (absent, authorize_usb) (settings-register ctrl d signature)
        | inr (existing, known) ↦
            rw (known, authorize_usb) (settings-authorize_known ctrl d signature existing.auth)
      ]

  settings-override_blocked_usb :
      (ctrl : Controller) (id : Text) (written : Bool)
      → settings (override_blocked_usb ctrl id written).controller ≡ settings ctrl
  unfolding override_blocked_usb override_found override_known override_at promote refuse
  settings-override_blocked_usb ctrl id written = ground arith

  settings-update_usb :
      (ctrl : Controller) (d : UsbDevice)
      → settings (update_usb c lossy ctrl d).controller ≡ settings ctrl
  unfolding update_usb refuse
  settings-update_usb ctrl d = ground arith

  settings-remove_usb :
      (ctrl : Controller) (id : Text) → settings (remove_usb ctrl id).0 ≡ settings ctrl
  unfolding remove_usb remove_unmounted
  settings-remove_usb ctrl id = ground arith

  settings-handle :
      (e : Event) (ctrl : Controller) → settings (handle c lossy e ctrl) ≡ settings ctrl
  unfolding handle force_remove_usb
  settings-handle (plugged d signature) ctrl = settings-authorize_usb ctrl d signature
  settings-handle (overridden id written) ctrl = settings-override_blocked_usb ctrl id written
  settings-handle (mounted d) ctrl = settings-update_usb ctrl d
  settings-handle (unplugged id) ctrl = refl
  settings-handle (removed id) ctrl = settings-remove_usb ctrl id

  module _ (start : Startup) (policy : SecurityPolicy) (keys : HybridPubKeys) where
    Tables-handle :
        (e : Event) (events : List Event) (ctrl : Controller)
        → ctrl.policy ≡ policy
        → ctrl.usb_ca_pub ≡ keys
        → Tables c lossy start policy keys (e ∷ events) ctrl
        → Tables c lossy start policy keys (e ∷ events) (handle c lossy e ctrl)
    unfolding handle force_remove_usb
    Tables-handle (plugged d signature) events ctrl ep ek t =
        Tables-authorize_usb c lossy start policy keys events ctrl d signature ep ek t
    Tables-handle (overridden id written) events ctrl ep ek t =
        Tables-override_blocked_usb c lossy start policy keys (overridden id written ∷ events) ctrl
          id written ep t
    Tables-handle (mounted d) events ctrl ep ek t =
        Tables-update_usb c lossy start policy keys (mounted d ∷ events) ctrl d t
    Tables-handle (unplugged id) events ctrl ep ek (u, m) = (
      AllEntries-remove (Justified c lossy start policy keys (unplugged id ∷ events)) id
          ctrl.unmounted_usb u,
      m,
    )
    Tables-handle (removed id) events ctrl ep ek t =
        Tables-remove_usb c lossy start policy keys (removed id ∷ events) ctrl id t

    AllEntries-map :
        (P Q : Property) (table : Table)
        → ((id : Text) (a : UsbAuthorization) → P id a → Q id a)
        → AllEntries P table
        → AllEntries Q table
    AllEntries-map P Q [] f h = tt
    AllEntries-map P Q (e ∷ table) f (h, hs) = (f e.0 e.1.auth h, AllEntries-map P Q table f hs)

    init-IsJustified :
        IsJustified c lossy start policy keys [] (init c lossy start policy keys).controller
    init-IsJustified =
        let J = Justified c lossy start policy keys [] in
        let (all, same_policy, same_keys, empty) = init-Holds c lossy start policy keys in
        record {
          same_policy = same_policy;
          same_keys = same_keys;
          unmounted = subst (AllEntries J) (sym empty) tt;
          mounted =
              AllEntries-map (Attested c lossy policy start) J _
                (λ id a h.
                  subst (J id) (sym h.1)
                    (Justified-trusted_auth c lossy start policy keys [] id (inr (inr h.0))))
                all;
        }

    -- After any events from the start, its recovery of mounted devices included, the policy and the keys
    -- are those of the start, and each authorisation in the tables rests on them: full access on the
    -- policy's letting unsigned devices in; read or read-write access on a signature of a device of that
    -- identifier that verified, on the policy's letting the user override blocks, or on a sentinel of that
    -- name from which the start recovered the device, and which of the two on the policy for writing.
    pub after-IsJustified :
        (events : List Event)
        → IsJustified c lossy start policy keys events
            (after c lossy events (init c lossy start policy keys).controller)
    unfolding after
    after-IsJustified [] = init-IsJustified
    after-IsJustified (e ∷ events) =
        let ctrl = after c lossy events (init c lossy start policy keys).controller in
        let j = after-IsJustified events in
        let kept = settings-handle e ctrl in
        let (u, m) = Tables-handle e events ctrl j.same_policy j.same_keys (
          AllEntries-weaken c lossy start policy keys e events ctrl.unmounted_usb j.unmounted,
          AllEntries-weaken c lossy start policy keys e events ctrl.mounted_usb j.mounted,
        ) in
        record {
          same_policy = ap (λ s. s.0) kept ∙ j.same_policy;
          same_keys = ap (λ s. s.1) kept ∙ j.same_keys;
          unmounted = u;
          mounted = m;
        }

    Signed-access :
        (events : List Event) (id : Text) (a : UsbAuthorization)
        → policy.disable_unsigned_usb ≡ false
        → policy.allow_user_usb_authorization ≡ false
        → is_access c lossy a ≡ true
        → Justified c lossy start policy keys events id a
        → Signed c lossy keys id events ⊎ Recovered c lossy start id
    unfolding is_access
    Signed-access events id pending d u h j = absurd cc
    Signed-access events id block d u h j = absurd cc
    Signed-access events id allow_read d u h (w, inl on) = absurd (clash u on)
    Signed-access events id allow_read d u h (w, inr s) = s
    Signed-access events id allow_rw d u h (w, inl on) = absurd (clash u on)
    Signed-access events id allow_rw d u h (w, inr s) = s
    Signed-access events id allow_all d u h j = absurd (clash d j)

    -- Where the policy neither lets unsigned devices in nor lets the user override a block: after any
    -- events from the start, a mounted device with any access has an identifier under which a device has
    -- been plugged in whose signature verified, or which the start recovered from a sentinel of that name,
    -- the device being there and mounted.
    pub mounted-Signed :
        (events : List Event) (id : Text) (p : UsbDevicePolicy)
        → policy.disable_unsigned_usb ≡ false
        → policy.allow_user_usb_authorization ≡ false
        → get id (after c lossy events (init c lossy start policy keys).controller).mounted_usb
          ≡ some p
        → is_access c lossy p.auth ≡ true
        → Signed c lossy keys id events ⊎ Recovered c lossy start id
    mounted-Signed events id p d u known h =
        let ctrl = after c lossy events (init c lossy start policy keys).controller in
        Signed-access events id p.auth d u h (
          AllEntries-get (Justified c lossy start policy keys events) id p ctrl.mounted_usb
            (after-IsJustified events).mounted known)
