-- ===== src/Firewall/Evaluate.antt =====
-- What the evaluation of a device's signature justifies.
use keysas.Base.{
  if_true, if_false, ◌≡◌, inl, inr, refl, sym, ap, ◌∙◌, Option, none, some, List, [], ◌∷◌, Text,
  if◌then◌else◌, ok, Bool-cases, >>=-eq-ok,
}
use mathlib.Core.Path.{subst}
use keysas.Signing.{Crypto}
use keysas.Firewall.{
  UsbAuthorization, pending, block, allow_read, allow_rw, allow_all, SecurityPolicy, HybridPubKeys,
  UsbDevice, Table, validate_usb_signature, unsigned_auth, trusted_auth, evaluate,
}
use keysas.Firewall.Start.{Startup}
use keysas.Firewall.Entries.{AllEntries}
use keysas.Firewall.Events.{Event, plugged, Entitled, Justified}

module _ (c : Crypto) (lossy : Text → Text) (start : Startup) (policy : SecurityPolicy)
    (keys : HybridPubKeys) where
  Justified-weaken :
      (e : Event) (events : List Event) (id : Text) (a : UsbAuthorization)
      → Justified c lossy start policy keys events id a
      → Justified c lossy start policy keys (e ∷ events) id a
  Justified-weaken e events id pending h = tt
  Justified-weaken e events id block h = tt
  Justified-weaken e events id allow_read (w, inl u) = (w, inl u)
  Justified-weaken e events id allow_read (w, inr (inl s)) = (w, inr (inl (inr s)))
  Justified-weaken e events id allow_read (w, inr (inr s)) = (w, inr (inr s))
  Justified-weaken e events id allow_rw (w, inl u) = (w, inl u)
  Justified-weaken e events id allow_rw (w, inr (inl s)) = (w, inr (inl (inr s)))
  Justified-weaken e events id allow_rw (w, inr (inr s)) = (w, inr (inr s))
  Justified-weaken e events id allow_all h = h

  pub AllEntries-weaken :
      (e : Event) (events : List Event) (table : Table)
      → AllEntries (Justified c lossy start policy keys events) table
      → AllEntries (Justified c lossy start policy keys (e ∷ events)) table
  AllEntries-weaken e events [] h = tt
  AllEntries-weaken e events (entry ∷ table) h =
      (Justified-weaken e events entry.0 entry.1.auth h.0, AllEntries-weaken e events table h.1)

  pub Justified-unsigned_auth :
      (events : List Event) (id : Text)
      → Justified c lossy start policy keys events id (unsigned_auth c lossy policy)
  unfolding unsigned_auth
  Justified-unsigned_auth events id = elim (Bool-cases policy.disable_unsigned_usb) [
    | inl on ↦
        let e : unsigned_auth c lossy policy ≡ allow_all = rw on refl in
        subst (λ a. Justified c lossy start policy keys events id a) (sym e) on
    | inr off ↦
        let e : unsigned_auth c lossy policy ≡ block = rw off refl in
        subst (λ a. Justified c lossy start policy keys events id a) (sym e) tt
  ]

  pub Justified-trusted_auth :
      (events : List Event) (id : Text)
      → Entitled c lossy start policy keys events id
      → Justified c lossy start policy keys events id (trusted_auth c lossy policy)
  unfolding trusted_auth
  Justified-trusted_auth events id h = elim (Bool-cases policy.allow_user_file_write) [
    | inl on ↦
        let e : trusted_auth c lossy policy ≡ allow_rw = rw on refl in
        subst (λ a. Justified c lossy start policy keys events id a) (sym e) (on, h)
    | inr off ↦
        let e : trusted_auth c lossy policy ≡ allow_read = rw off refl in
        subst (λ a. Justified c lossy start policy keys events id a) (sym e) (off, h)
  ]

  pub Justified-evaluate :
      (d : UsbDevice) (signature : Option Text) (events : List Event) (a : UsbAuthorization)
      → evaluate c lossy policy keys d signature ≡ ok a
      → Justified c lossy start policy keys (plugged d signature ∷ events) d.device_id a
  unfolding evaluate
  Justified-evaluate d none events a h =
      subst (λ a. Justified c lossy start policy keys (plugged d none ∷ events) d.device_id a)
        (cc h) (Justified-unsigned_auth (plugged d none ∷ events) d.device_id)
  Justified-evaluate d (some sig) events a h =
      let log = plugged d (some sig) ∷ events in
      let (valid, hv, h1) = >>=-eq-ok (validate_usb_signature c lossy keys d sig) _ h in
      let chosen : (if valid then trusted_auth c lossy policy else unsigned_auth c lossy policy)
          ≡ a =
        cc h1 in
      elim (Bool-cases valid) [
        | inl passes ↦
            subst (λ a. Justified c lossy start policy keys log d.device_id a)
              (if_true valid _ _ chosen passes)
              (Justified-trusted_auth log d.device_id (inr (inl (inl (refl, hv ∙ ap ok passes)))))
        | inr no_match ↦
            subst (λ a. Justified c lossy start policy keys log d.device_id a)
              (if_false valid _ _ chosen no_match) (Justified-unsigned_auth log d.device_id)
      ]
