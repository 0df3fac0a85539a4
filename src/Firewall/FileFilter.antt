-- ===== src/Firewall/FileFilter.antt =====
-- keysas-firewall/daemon/src/linux/file_filter_if.rs: the file filter over fanotify.
use keysas.Base.{
  ℕ, zero, suc, ◌+◌, Bool, true, false, not, ◌&&◌, Option, none, some, List, [], ◌∷◌, ◌++◌, Text,
  codes, any, mem_text, text_eq, retain, leb, ◌==◌, if◌then◌else◌, Result, ok, err, message,
}
use keysas.Firewall.{UsbAuthorization, allow_read, allow_rw, allow_all, UsbDevicePolicy}
use keysas.Firewall.Files.{Files, FileUpdateMessage, authorize_file}

-- What is read of an event: its length, whether it asks for the permission to open, its descriptor (none
-- if it is negative), its process, and the path that the link of the descriptor leads to.
pub record FanEvent : Type 0 where
  pub event_len : ℕ
  pub open_perm : Bool
  pub fd : Option ℕ
  pub pid : ℕ
  pub path : Option Text

-- What is done: the answer to an event, and the closing of its descriptor.
pub data FanAct : Type 0 where
  responded : ℕ → Bool → FanAct
  closed : ℕ → FanAct

-- The daemon: its process, whether the lock of the controller can be taken and the instance is open when
-- the answer is written, and what `authorize_file` asks.
pub record Daemon : Type 0 where
  pub pid : ℕ
  pub lock_ok : Bool
  pub open_now : Bool
  pub lossy : Text → Text
  pub files : Files
  pub request_file_auth : FileUpdateMessage → Result Bool

-- `.unwrap_or(false)`
unfoldable pub or_denied : Result Bool → Bool
or_denied (ok allow) = allow
or_denied (err e) = false

unfoldable pub allows : Daemon → FanEvent → Bool
unfolding or_denied
allows d e =
    if e.pid == d.pid
    then true
    else if d.lock_ok
    then or_denied (authorize_file d.lossy d.files d.request_file_auth e.path).0
    else false

abbrev response : Daemon → ℕ → Bool → List FanAct
response d fd allow = if d.open_now then responded fd allow ∷ [] else []

unfoldable pub handle_fd : Daemon → FanEvent → Option ℕ → List FanAct
unfolding allows
handle_fd d e none = []
handle_fd d e (some fd) =
    if e.open_perm then response d fd (allows d e) ++ closed fd ∷ [] else closed fd ∷ []

-- The events in a buffer of `bytes_read` bytes, each read at its offset; an event that claims to be
-- shorter than its header ends the loop. A round more than the bytes is fuel enough.
module _ (event_size : ℕ) (read_at : ℕ → FanEvent) (d : Daemon) (bytes_read : ℕ) where
  unfoldable pub handle_buffer : ℕ → ℕ → List FanAct
  unfolding handle_fd
  handle_buffer zero offset = []
  handle_buffer (suc fuel) offset =
      let e = read_at offset in
      let rest = handle_buffer fuel (offset + e.event_len) in
      if leb (offset + event_size) bytes_read && leb event_size e.event_len
      then handle_fd d e e.fd ++ rest
      else []

-- What a mark of fanotify gives back: success, that there is no such mark, or another error.
pub data MarkReturn : Type 0 where
  done no_entry failed : MarkReturn

unfoldable pub adds_mark : UsbAuthorization → Bool
adds_mark allow_read = true
adds_mark allow_rw = true
adds_mark allow_all = true
adds_mark _ = false

-- The mount points that are marked.
abbrev pub Marks : Type 0
Marks = List Text

unfoldable pub marked : Bool → Text → Marks → Marks
unfolding text_eq mem_text
marked true mnt marks = if mem_text mnt marks then marks else mnt ∷ marks
marked false mnt marks = retain (λ m. not (text_eq m mnt)) marks

unfoldable pub mark_result : Bool → Text → MarkReturn → Marks → Result (Unit {0}) × Marks
unfolding marked
mark_result add_mark mnt done marks = (ok tt, marked add_mark mnt marks)
mark_result true mnt no_entry marks = (err (message (codes "fanotify_mark ADD on : ")), marks)
mark_result false mnt no_entry marks = (ok tt, marks)
mark_result add_mark mnt failed marks = (err (message (codes "fanotify_mark  on : ")), marks)

abbrev has_nul : Text → Bool
has_nul path = any (λ c. c == 0) path

unfoldable pub update_usb_auth :
    Bool → (Text → MarkReturn) → UsbDevicePolicy → Marks → Result (Unit {0}) × Marks
unfolding mark_result adds_mark
update_usb_auth fd_open fanotify_mark update marks = elim update.device.mnt_point [
  | none ↦ (err (message (codes "USB device has no mount point")), marks)
  | some mnt_point ↦
      if not fd_open
      then (err (message (codes "fanotify fd is not open")), marks)
      else if has_nul mnt_point
      then (err (message (codes "Invalid mount point path: ")), marks)
      else mark_result (adds_mark update.auth) mnt_point (fanotify_mark mnt_point) marks
]
