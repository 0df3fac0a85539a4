-- ===== src/Firewall/Responses.antt =====
-- The answers of the file filter, the end of its loop over a buffer, and what a block does to its marks.
use keysas.Base.{
  ℕ, zero, suc, ◌+◌, ◌<◌, ◌≡◌, ◌↔◌, ◌⊎◌, refl, inl, inr, ap, Bool, true, false, some, Text, ◌==◌,
  ==_iff, if◌then◌else◌, Result, ok, err, arith,
}
use keysas.Firewall.{UsbAuthorization, UsbDevice, Effect}
use keysas.Firewall
use keysas.Firewall.Files.{authorize_file}
use keysas.Firewall.Access.{Grounds, authorize_file-iff_Grounds}
use keysas.Firewall.FileFilter.{FanEvent, Daemon, or_denied, allows, handle_buffer}

or_denied_iff : (r : Result Bool) → (or_denied r ≡ true) ↔ (r ≡ ok true)
unfolding or_denied
or_denied_iff (ok allow) = ((λ h. ap ok h), (λ h. cc h))
or_denied_iff (err e) = ((λ h. absurd (ground arith)), (λ h. absurd (cc h)))

-- The daemon itself opens the file, or the controller can be asked and there are grounds.
abbrev pub Allowed : Daemon → FanEvent → Text → Type 0
Allowed d e path =
    (e.pid ≡ d.pid) ⊎ ((d.lock_ok ≡ true) × Grounds d.lossy d.files d.request_file_auth path)

split_on :
    (own lock answer : Bool) (P G : Type 0)
    → ((own ≡ true) ↔ P)
    → ((answer ≡ true) ↔ G)
    → ((if own then true else if lock then answer else false) ≡ true) ↔ (P ⊎ ((lock ≡ true) × G))
split_on true lock answer P G f g = ((λ _. inl (f.0 refl)), (λ _. refl))
split_on false true answer P G f g = (
  (λ h. inr (refl, g.0 h)),
  (λ s. elim s [ inl p ↦ absurd (ground (arith, f.1 p)) | inr (_, x) ↦ g.1 x ]),
)
split_on false false answer P G f g = (
  (λ h. absurd (ground arith)),
  (λ s. elim s [ inl p ↦ absurd (ground (arith, f.1 p)) | inr (l, x) ↦ absurd (ground arith) ]),
)

-- The opening of a file whose path can be read is let through just when the daemon itself opens it, or the
-- lock of the controller can be taken and there are grounds to authorise it. Every failure on the way denies
-- it.
pub allows-iff_Allowed :
    (d : Daemon) (e : FanEvent) (path : Text)
    → e.path ≡ some path
    → (allows d e ≡ true) ↔ Allowed d e path
unfolding allows
allows-iff_Allowed d e path h =
    let decided = authorize_file-iff_Grounds d.lossy d.files d.request_file_auth path in
    let answer = or_denied_iff (authorize_file d.lossy d.files d.request_file_auth (some path)).0 in
    rw h (
      split_on (e.pid == d.pid) d.lock_ok _ (e.pid ≡ d.pid)
        (Grounds d.lossy d.files d.request_file_auth path) (==_iff e.pid d.pid)
        ((λ t. decided.0 (answer.0 t)), (λ g. answer.1 (decided.1 g))))

module _ (event_size : ℕ) (read_at : ℕ → FanEvent) (d : Daemon) (bytes_read : ℕ)
    (sized : 0 < event_size) where
  -- Any two fuels above the number of bytes that are left give the same answers, since an event that the
  -- loop goes past takes its header at least.
  pub handle_buffer-fuel :
      (f g offset : ℕ)
      → bytes_read < f + offset
      → bytes_read < g + offset
      → handle_buffer event_size read_at d bytes_read f offset
        ≡ handle_buffer event_size read_at d bytes_read g offset
  unfolding handle_buffer
  handle_buffer-fuel zero zero offset h k = refl
  handle_buffer-fuel zero (suc g) offset h k = ground arith
  handle_buffer-fuel (suc f) zero offset h k = ground arith
  handle_buffer-fuel (suc f) (suc g) offset h k =
      ground (arith, handle_buffer-fuel f g (offset + (read_at offset).event_len))
