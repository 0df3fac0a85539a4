-- ===== src/Io/Challenge.antt =====
-- keysas-io/src/main.rs: which events of unsigned devices are copied in when the challenge is on.
use keysas.Base.{Bool, true, false, Option, none, some, List, [], Text, text_eq, any}
use keysas.Io.Station.{Effect, copied_in, Station, Probe}

abbrev is_copy : Text → Effect → Bool
is_copy device (copied_in d) = text_eq d device
is_copy device _ = false

-- One of the effects is the copying in of the device.
abbrev pub copies_in : Text → List Effect → Bool
copies_in device effects = any (is_copy device) effects

-- The same station, before it does anything.
abbrev pub quiet : Station → Station
quiet s = record s { effects = [] }

module _ (p : Probe) (device : Text) where
  abbrev pub is_some {ℓ} : {A : Type ℓ} → Option A → Bool
  is_some none = false
  is_some (some _) = true
