-- ===== src/Firewall/Grants.antt =====
-- controller.rs: the tables of devices when a device is plugged in or a block overridden.
use keysas.Base.{
  ◌≡◌, inl, inr, refl, sym, ap, ◌∙◌, Bool, true, Option, none, some, List, ◌∷◌, Text, Result, ok,
  err, Option-cases, Bool-cases,
}
use mathlib.Core.Path.{subst}
use keysas.Signing.{Crypto}
use keysas.Firewall.{
  UsbAuthorization, pending, block, allow_read, allow_rw, allow_all, SecurityPolicy, HybridPubKeys,
  UsbDevice, UsbDevicePolicy, Controller, get, remove, trusted_auth, evaluate, settle, register,
  authorize_known, authorize_usb,
}
use keysas.Firewall.Devices.{
  refuse, promote, override_at, override_known, override_found, override_blocked_usb,
}
use keysas.Firewall.Start.{Startup}
use keysas.Firewall.Entries.{AllEntries, AllEntries-remove, AllEntries-insert, AllEntries-set_auth}
use keysas.Firewall.Events.{Event, plugged, Justified}
use keysas.Firewall.Evaluate.{Justified-trusted_auth, Justified-evaluate}

module _ (c : Crypto) (lossy : Text → Text) (start : Startup) (policy : SecurityPolicy)
    (keys : HybridPubKeys) where
  -- Every entry of both tables is justified.
  abbrev pub Tables : List Event → Controller → Type 0
  Tables events ctrl =
      AllEntries (Justified c lossy start policy keys events) ctrl.unmounted_usb
      × AllEntries (Justified c lossy start policy keys events) ctrl.mounted_usb

  Tables-settle :
      (events : List Event) (ctrl : Controller) (d : UsbDevice) (r : Result UsbAuthorization)
      → ((a : UsbAuthorization)
          → r ≡ ok a
          → Justified c lossy start policy keys events d.device_id a)
      → Tables events ctrl
      → Tables events (settle c lossy ctrl d r).controller
  unfolding settle
  Tables-settle events ctrl d (ok a) j (u, m) = (
    AllEntries-set_auth (Justified c lossy start policy keys events) d.device_id a
        ctrl.unmounted_usb (j a refl) u,
    m,
  )
  Tables-settle events ctrl d (err e) j (u, m) = (
    AllEntries-set_auth (Justified c lossy start policy keys events) d.device_id block
        ctrl.unmounted_usb tt u,
    m,
  )

  Tables-register :
      (events : List Event) (ctrl : Controller) (d : UsbDevice) (signature : Option Text)
      → ctrl.policy ≡ policy
      → ctrl.usb_ca_pub ≡ keys
      → Tables (plugged d signature ∷ events) ctrl
      → Tables (plugged d signature ∷ events) (register c lossy ctrl d signature).controller
  unfolding register
  Tables-register events ctrl d signature ep ek (u, m) =
      let log = plugged d signature ∷ events in
      Tables-settle log _ d (evaluate c lossy ctrl.policy ctrl.usb_ca_pub d signature)
        (λ a h. Justified-evaluate c lossy start policy keys d signature events a (cc (ep, ek, h)))
        (
          AllEntries-insert (Justified c lossy start policy keys log) d.device_id _
              ctrl.unmounted_usb tt u,
          m,
        )

  Tables-authorize_known :
      (events : List Event) (ctrl : Controller) (d : UsbDevice) (signature : Option Text)
      (a : UsbAuthorization)
      → ctrl.policy ≡ policy
      → ctrl.usb_ca_pub ≡ keys
      → Tables (plugged d signature ∷ events) ctrl
      → Tables
          (plugged d signature ∷ events)
          (authorize_known c lossy ctrl d signature a).controller
  unfolding authorize_known
  Tables-authorize_known events ctrl d signature pending ep ek t = t
  Tables-authorize_known events ctrl d signature block ep ek (u, m) =
      Tables-register events (record ctrl { unmounted_usb = remove d.device_id ctrl.unmounted_usb })
        d signature ep ek
        (
          AllEntries-remove (Justified c lossy start policy keys (plugged d signature ∷ events))
              d.device_id ctrl.unmounted_usb u,
          m,
        )
  Tables-authorize_known events ctrl d signature allow_read ep ek t = t
  Tables-authorize_known events ctrl d signature allow_rw ep ek t = t
  Tables-authorize_known events ctrl d signature allow_all ep ek t = t

  pub Tables-authorize_usb :
      (events : List Event) (ctrl : Controller) (d : UsbDevice) (signature : Option Text)
      → ctrl.policy ≡ policy
      → ctrl.usb_ca_pub ≡ keys
      → Tables (plugged d signature ∷ events) ctrl
      → Tables (plugged d signature ∷ events) (authorize_usb c lossy ctrl d signature).controller
  unfolding authorize_usb
  Tables-authorize_usb events ctrl d signature ep ek t =
      elim (Option-cases (get d.device_id ctrl.unmounted_usb)) [
        | inl absent ↦ rw (absent, authorize_usb) (Tables-register events ctrl d signature ep ek t)
        | inr (existing, known) ↦
            rw (known, authorize_usb)
              (Tables-authorize_known events ctrl d signature existing.auth ep ek t)
      ]

  Tables-promote :
      (events : List Event) (ctrl : Controller) (id : Text) (written : Bool) (syspath : Text)
      → ctrl.policy ≡ policy
      → ctrl.policy.allow_user_usb_authorization ≡ true
      → Tables events ctrl
      → Tables events (promote ctrl id written syspath).controller
  unfolding promote trusted_auth
  Tables-promote events ctrl id written syspath ep on (u, m) =
      let P = Justified c lossy start policy keys events in
      let user : policy.allow_user_usb_authorization ≡ true =
        ap (λ q. q.allow_user_usb_authorization) (sym ep) ∙ on in
      let j : P id (trusted_auth c lossy ctrl.policy) =
        subst (λ q. P id (trusted_auth c lossy q)) (sym ep)
          (Justified-trusted_auth c lossy start policy keys events id (inl user)) in
      (AllEntries-set_auth P id (trusted_auth c lossy ctrl.policy) ctrl.unmounted_usb j u, m)

  Tables-override_known :
      (events : List Event) (ctrl : Controller) (id : Text) (written : Bool) (syspath : Option Text)
      (a : UsbAuthorization)
      → ctrl.policy ≡ policy
      → ctrl.policy.allow_user_usb_authorization ≡ true
      → Tables events ctrl
      → Tables events (override_known ctrl id written syspath a).controller
  unfolding override_known override_at refuse
  Tables-override_known events ctrl id written none block ep on t = t
  Tables-override_known events ctrl id written (some syspath) block ep on t =
      Tables-promote events ctrl id written syspath ep on t
  Tables-override_known events ctrl id written syspath pending ep on t = t
  Tables-override_known events ctrl id written syspath allow_read ep on t = t
  Tables-override_known events ctrl id written syspath allow_rw ep on t = t
  Tables-override_known events ctrl id written syspath allow_all ep on t = t

  Tables-override_found :
      (events : List Event) (ctrl : Controller) (id : Text) (written : Bool)
      (found : Option UsbDevicePolicy)
      → ctrl.policy ≡ policy
      → ctrl.policy.allow_user_usb_authorization ≡ true
      → Tables events ctrl
      → Tables events (override_found ctrl id written found).controller
  unfolding override_found refuse
  Tables-override_found events ctrl id written none ep on t = t
  Tables-override_found events ctrl id written (some p) ep on t =
      Tables-override_known events ctrl id written p.device.usb_syspath p.auth ep on t

  pub Tables-override_blocked_usb :
      (events : List Event) (ctrl : Controller) (id : Text) (written : Bool)
      → ctrl.policy ≡ policy
      → Tables events ctrl
      → Tables events (override_blocked_usb ctrl id written).controller
  unfolding override_blocked_usb refuse
  Tables-override_blocked_usb events ctrl id written ep t =
      elim (Bool-cases ctrl.policy.allow_user_usb_authorization) [
        | inl on ↦
            let e1 : override_blocked_usb ctrl id written
                ≡ override_found ctrl id written (get id ctrl.unmounted_usb) =
              rw (on, override_blocked_usb) refl in
            subst (λ r. Tables events r.controller) (sym e1)
              (Tables-override_found events ctrl id written (get id ctrl.unmounted_usb) ep on t)
        | inr off ↦
            let e1 : (override_blocked_usb ctrl id written).controller ≡ ctrl =
              rw (off, override_blocked_usb) refl in
            subst (λ r. Tables events r) (sym e1) t
      ]
