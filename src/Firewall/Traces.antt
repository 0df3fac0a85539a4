-- ===== src/Firewall/Traces.antt =====
-- The monitor drives the controller only by events that udev and the disks gave it.
use keysas.Base.{
  ◌≡◌, refl, sym, ◌⊎◌, inl, inr, ap, ◌∙◌, Bool, true, false, Option, none, some, List, [], ◌∷◌,
  ◌++◌, Text, Bytes, All, All-append, Some, Result, ok, err,
}
use keysas.Signing.{Crypto}
use keysas.Firewall.{
  SecurityPolicy, HybridPubKeys, UsbDevice, UsbDevicePolicy, Controller, get, is_access,
  authorize_usb, validate_usb_signature,
}
use keysas.Firewall.Devices.{force_remove_usb}
use keysas.Firewall.Queries.{unmounted_usb_ids_with_syspath_prefix}
use keysas.Firewall.Events.{
  Event, plugged, overridden, mounted, unplugged, removed, handle, after, Signed,
}
use keysas.Firewall.Start.{Startup, init, Recovered}
use keysas.Firewall.Reach.{mounted-Signed}
use keysas.Firewall.Monitor.{extract_usb_info}
use keysas.Firewall.Mount.{System, Act}
use keysas.Firewall.Watch.{
  UdevEvent, force_remove_all, after_mount, refused, after_authorize, add_device, remove_partition,
  EventKind, usb_removed, partition_removed, partition_added, other, kind_of, handle_kind,
  handle_event, Round, stopped, poll_failed, idle, event, watch,
}

module _ (c : Crypto) (lossy : Text → Text) where
  after-append :
      (later earlier : List Event) (ctrl : Controller)
      → after c lossy (later ++ earlier) ctrl ≡ after c lossy later (after c lossy earlier ctrl)
  unfolding after
  after-append [] earlier ctrl = refl
  after-append (e ∷ later) earlier ctrl = ap (handle c lossy e) (after-append later earlier ctrl)

  -- The event was read by a round of the monitor; a user's override is none.
  abbrev ReadBy : UsbDevice → Option Text → Round → Type 0
  ReadBy d signature (event sys read e) =
      extract_usb_info sys.from_utf8 read e.device ≡ ok (d, signature)
  ReadBy d signature _ = ⊥

  abbrev Known : List Round → Event → Type 0
  Known rounds (plugged d signature) = Some (ReadBy d signature) rounds
  Known rounds (overridden id written) = ⊥
  Known rounds _ = Unit {0}

  -- The controller's events, latest first, that lead from one state to another.
  abbrev Leads : List Round → Controller → Controller → Type 0
  Leads rounds ctrl ctrl' =
      (events : List Event) × (ctrl' ≡ after c lossy events ctrl) × All (Known rounds) events

  Known-more : (r : Round) (rounds : List Round) (e : Event) → Known rounds e → Known (r ∷ rounds) e
  Known-more r rounds (plugged d signature) k = inr k
  Known-more r rounds (overridden id written) k = k
  Known-more r rounds (mounted d) k = k
  Known-more r rounds (unplugged id) k = k
  Known-more r rounds (removed id) k = k

  Known-one :
      (r : Round) (rounds : List Round) (e : Event) → Known (r ∷ []) e → Known (r ∷ rounds) e
  Known-one r rounds (plugged d signature) (inl k) = inl k
  Known-one r rounds (plugged d signature) (inr k) = absurd k
  Known-one r rounds (overridden id written) k = k
  Known-one r rounds (mounted d) k = k
  Known-one r rounds (unplugged id) k = k
  Known-one r rounds (removed id) k = k

  All-weaken :
      (P Q : Event → Type 0) (events : List Event)
      → ((e : Event) → P e → Q e)
      → All P events
      → All Q events
  All-weaken P Q [] h hs = tt
  All-weaken P Q (e ∷ events) h (p, hs) = (h e p, All-weaken P Q events h hs)

  Leads-same : (rounds : List Round) (ctrl : Controller) → Leads rounds ctrl ctrl
  unfolding after
  Leads-same rounds ctrl = ([], refl, tt)

  Leads-trans :
      (r : Round) (rounds : List Round) (a b d : Controller)
      → Leads (r ∷ []) a b
      → Leads rounds b d
      → Leads (r ∷ rounds) a d
  Leads-trans r rounds a b d (first, e, k) (later, e', k') = (
    later ++ first,
    e' ∙ (ap (after c lossy later) e ∙ sym (after-append later first a)),
    All-append (Known (r ∷ rounds)) later first
        (All-weaken (Known rounds) (Known (r ∷ rounds)) later (Known-more r rounds) k')
        (All-weaken (Known (r ∷ [])) (Known (r ∷ rounds)) first (Known-one r rounds) k),
  )

  force_remove_all-Leads :
      (r : Round) (ids : List Text) (ctrl : Controller)
      → (events : List Event) × (force_remove_all ctrl ids ≡ after c lossy events ctrl)
        × All (Known (r ∷ [])) events
  unfolding force_remove_all after handle
  force_remove_all-Leads r [] ctrl = ([], refl, tt)
  force_remove_all-Leads r (id ∷ ids) ctrl =
      let (events, e, k) = force_remove_all-Leads r ids (force_remove_usb ctrl id) in
      (
        events ++ unplugged id ∷ [],
        e ∙ sym (after-append events (unplugged id ∷ []) ctrl),
        All-append (Known (r ∷ [])) events (unplugged id ∷ []) k (tt, tt),
      )

  module _ (sys : System) (read : Text → Option Bytes) (ctrl : Controller) (e : UdevEvent) where
    abbrev round : Round
    round = event sys read e

    mounted-Leads :
        (d : UsbDevice) (signature : Option Text) (m : List Act × Result Text)
        → Some (ReadBy d signature) (round ∷ [])
        → Leads
            (round ∷ [])
            ctrl
            (after_mount c lossy d (authorize_usb c lossy ctrl d signature) m).controller
    unfolding after_mount after handle
    mounted-Leads d signature (acts, err x) k = (plugged d signature ∷ [], refl, (k, tt))
    mounted-Leads d signature (acts, ok mnt) k = (
      mounted (record d { mnt_point = some mnt }) ∷ plugged d signature ∷ [],
      refl,
      (tt, (k, tt)),
    )

    refused-Leads :
        (d : UsbDevice) (signature : Option Text)
        → Some (ReadBy d signature) (round ∷ [])
        → Leads
            (round ∷ [])
            ctrl
            (refused c lossy d (authorize_usb c lossy ctrl d signature)).controller
    unfolding refused after handle
    refused-Leads d signature k = (plugged d signature ∷ [], refl, (k, tt))

    after_authorize-Leads :
        (d : UsbDevice) (signature : Option Text) (r : Result Bool)
        → Some (ReadBy d signature) (round ∷ [])
        → Leads
            (round ∷ [])
            ctrl
            (after_authorize c lossy sys d (authorize_usb c lossy ctrl d signature) r).controller
    unfolding after_authorize
    after_authorize-Leads d signature (err x) k = refused-Leads d signature k
    after_authorize-Leads d signature (ok false) k = refused-Leads d signature k
    after_authorize-Leads d signature (ok true) k = mounted-Leads d signature _ k

    add_device-Leads :
        (r : Result (UsbDevice × Option Text))
        → extract_usb_info sys.from_utf8 read e.device ≡ r
        → Leads (round ∷ []) ctrl (add_device c lossy sys ctrl r).controller
    unfolding add_device
    add_device-Leads (err x) same = Leads-same (round ∷ []) ctrl
    add_device-Leads (ok (d, signature)) same =
        after_authorize-Leads d signature (authorize_usb c lossy ctrl d signature).result (inl same)

    remove_partition-Leads :
        Leads (round ∷ []) ctrl (remove_partition c lossy sys ctrl e).controller
    unfolding remove_partition after handle
    remove_partition-Leads = (removed _ ∷ [], refl, (tt, tt))

    handle_kind-Leads :
        (k : EventKind) → Leads (round ∷ []) ctrl (handle_kind c lossy sys read ctrl e k).controller
    unfolding handle_kind
    handle_kind-Leads usb_removed =
        force_remove_all-Leads round (unmounted_usb_ids_with_syspath_prefix ctrl e.syspath) ctrl
    handle_kind-Leads partition_removed = remove_partition-Leads
    handle_kind-Leads partition_added = add_device-Leads _ refl
    handle_kind-Leads other = Leads-same (round ∷ []) ctrl

    handle_event-Leads : Leads (round ∷ []) ctrl (handle_event c lossy sys read ctrl e).controller
    unfolding handle_event
    handle_event-Leads = handle_kind-Leads (kind_of e)

  -- Whatever rounds the monitor makes, the controller ends as after some events of its own, none of which
  -- is a user's override, and each device that was plugged in, with its signature, was read by a round.
  pub watch-Leads :
      (rounds : List Round) (ctrl : Controller)
      → (events : List Event) × (watch c lossy rounds ctrl ≡ after c lossy events ctrl)
        × All (Known rounds) events
  unfolding watch
  watch-Leads [] ctrl = Leads-same [] ctrl
  watch-Leads (stopped ∷ rounds) ctrl = Leads-same (stopped ∷ rounds) ctrl
  watch-Leads (poll_failed ∷ rounds) ctrl = Leads-same (poll_failed ∷ rounds) ctrl
  watch-Leads (idle ∷ rounds) ctrl =
      Leads-trans idle rounds ctrl ctrl _ (Leads-same (idle ∷ []) ctrl) (watch-Leads rounds ctrl)
  watch-Leads (event sys read e ∷ rounds) ctrl =
      Leads-trans (event sys read e) rounds ctrl _ _ (handle_event-Leads sys read ctrl e)
        (watch-Leads rounds (handle_event c lossy sys read ctrl e).controller)

  -- A round read a device of that identifier with a signature that the controller accepts.
  abbrev pub SignedIn : HybridPubKeys → Text → Round → Type 0
  SignedIn keys id (event sys read e) =
      (d : UsbDevice) × (sig : Text) × (extract_usb_info sys.from_utf8 read e.device
        ≡ ok (d, some sig))
      × (d.device_id ≡ id)
      × (validate_usb_signature c lossy keys d sig ≡ ok true)
  SignedIn keys id _ = ⊥

  signed_round :
      (keys : HybridPubKeys) (id : Text) (d : UsbDevice) (sig : Text) (rounds : List Round)
      → d.device_id ≡ id
      → validate_usb_signature c lossy keys d sig ≡ ok true
      → Some (ReadBy d (some sig)) rounds
      → Some (SignedIn keys id) rounds
  signed_round keys id d sig [] same valid s = absurd s
  signed_round keys id d sig (event sys read e ∷ rounds) same valid (inl k) =
      inl (d, sig, k, same, valid)
  signed_round keys id d sig (stopped ∷ rounds) same valid (inl k) = absurd k
  signed_round keys id d sig (poll_failed ∷ rounds) same valid (inl k) = absurd k
  signed_round keys id d sig (idle ∷ rounds) same valid (inl k) = absurd k
  signed_round keys id d sig (r ∷ rounds) same valid (inr k) =
      inr (signed_round keys id d sig rounds same valid k)

  Signed-rounds :
      (keys : HybridPubKeys) (id : Text) (rounds : List Round) (events : List Event)
      → All (Known rounds) events
      → Signed c lossy keys id events
      → Some (SignedIn keys id) rounds
  Signed-rounds keys id rounds [] k s = absurd s
  Signed-rounds keys id rounds (plugged d (some sig) ∷ events) (k, ks) (inl (same, valid)) =
      signed_round keys id d sig rounds same valid k
  Signed-rounds keys id rounds (plugged d none ∷ events) (k, ks) (inl s) = absurd s
  Signed-rounds keys id rounds (overridden i w ∷ events) (k, ks) (inl s) = absurd s
  Signed-rounds keys id rounds (mounted d ∷ events) (k, ks) (inl s) = absurd s
  Signed-rounds keys id rounds (unplugged i ∷ events) (k, ks) (inl s) = absurd s
  Signed-rounds keys id rounds (removed i ∷ events) (k, ks) (inl s) = absurd s
  Signed-rounds keys id rounds (e ∷ events) (k, ks) (inr s) =
      Signed-rounds keys id rounds events ks s

  -- Under a policy that neither lets unsigned devices in nor lets the user override: after any rounds of
  -- the monitor from the start, a mounted device with any access has an identifier under which a round
  -- read, from the disk, a signature that the controller accepts for the device, or which the start
  -- recovered from a sentinel of that name.
  pub watch-SignedIn :
      (start : Startup) (policy : SecurityPolicy) (keys : HybridPubKeys) (rounds : List Round)
      (id : Text) (p : UsbDevicePolicy)
      → policy.disable_unsigned_usb ≡ false
      → policy.allow_user_usb_authorization ≡ false
      → get id (watch c lossy rounds (init c lossy start policy keys).controller).mounted_usb
        ≡ some p
      → is_access c lossy p.auth ≡ true
      → Some (SignedIn keys id) rounds ⊎ Recovered c lossy start id
  watch-SignedIn start policy keys rounds id p strict no_override there access =
      let (events, same, known) = watch-Leads rounds (init c lossy start policy keys).controller in
      elim (mounted-Signed c lossy start policy keys events id p strict no_override
        (ap (λ ctrl. get id ctrl.mounted_usb) (sym same) ∙ there) access) [
          | inl signed ↦ inl (Signed-rounds keys id rounds events known signed)
          | inr recovered ↦ inr recovered
        ]
