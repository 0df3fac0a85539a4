-- ===== src/Base/Daemon.antt =====
-- What the three daemons share: a process that may exit, and messages that carry file descriptors.
pub mod Process
use Prim.Native.Nat.{ℕ, zero, suc}
use mathlib.Core.Path.{◌≡◌, refl}
use mathlib.Core.Bool.{Bool, true, false}
use mathlib.Core.Option.{Option, none, some}
use mathlib.Core.List.{List, [], ◌∷◌, ◌++◌}
use keysas.Base.Lists.{take, filter_map}
use keysas.Base.Utf8.{Bytes}

-- `process::exit(1)`, or a result.
pub data Live {ℓ} (A : Type ℓ) : Type ℓ where
  exited : Live A
  live : A → Live A

-- A control message: the descriptors of `ScmRights`, or credentials.
pub data AncillaryData : Type 0 where
  scm_rights : List ℕ → AncillaryData
  scm_credentials : AncillaryData

abbrev rights : AncillaryData → Option (List ℕ)
rights (scm_rights fds) = some fds
rights scm_credentials = none

abbrev flatten : List (List ℕ) → List ℕ
flatten [] = []
flatten (fds ∷ rest) = fds ++ flatten rest

-- The descriptors of the messages that arrived whole (`none` is an error), in order.
unfoldable pub received_fds : List (Option AncillaryData) → List ℕ
received_fds messages = flatten (filter_map rights (filter_map (λ m. m) messages))

abbrev zeros : ℕ → Bytes
zeros zero = []
zeros (suc n) = 0 ∷ zeros n

-- A buffer of `size` zero bytes after `bytes` have been read into it.
unfoldable pub buffer : ℕ → Bytes → Bytes
buffer size bytes = take size (bytes ++ zeros size)
