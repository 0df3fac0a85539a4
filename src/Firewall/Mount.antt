-- ===== src/Firewall/Mount.antt =====
-- keysas-firewall/daemon/src/linux/usb_monitor.rs: the mounting of an authorised device, by udisks for the
-- user who is logged in, or else directly.
use keysas.Base.{
  ℕ, Bool, true, false, not, ◌||◌, Option, none, some, List, [], ◌∷◌, ◌++◌, Text, Bytes, codes,
  is_empty, text_eq, starts_with, drop, ◌==◌, if◌then◌else◌, Result, ok, err, message, or_err,
}

-- What of the system is asked: the names in `/run/user` (none where it cannot be read) and what exists,
-- what succeeds of creating a directory and of writing a file, and the commands. A command that cannot be
-- run is none; of one that fails nothing is used, of one that succeeds what it prints, or nothing.
pub record System : Type 0 where
  pub run_user : Option (List Text)
  pub exists : Text → Bool
  pub create_dir_all : Text → Bool
  pub write : Text → Bool
  pub id_un : Text → Option (Option Bytes)
  pub udisksctl : Text → Text → Option (Option Bytes)
  pub mount : Text → Text → Option Bool
  -- `str::from_utf8`, `String::from_utf8_lossy` and `char::is_whitespace`
  pub from_utf8 : Bytes → Option Text
  pub from_utf8_lossy : Bytes → Text
  pub is_whitespace : ℕ → Bool

unfoldable pub trim_start : (ℕ → Bool) → Text → Text
trim_start white [] = []
trim_start white (c ∷ s) = let rest = trim_start white s in if white c then rest else c ∷ s

-- All characters of the kind at the end are cut off.
unfoldable pub cut_after : Bool → ℕ → Text → Text
cut_after true c [] = []
cut_after true c (d ∷ s) = c ∷ d ∷ s
cut_after false c s = c ∷ s

unfoldable pub trim_end : (ℕ → Bool) → Text → Text
unfolding cut_after
trim_end white [] = []
trim_end white (c ∷ s) = cut_after (white c) c (trim_end white s)

-- What stands behind the first place where the text has " at ".
unfoldable pub after_at : Text → Option Text
unfolding starts_with
after_at [] = none
after_at (c ∷ s) =
    let later = after_at s in
    if starts_with (c ∷ s) (codes " at ") then some (drop 4 (c ∷ s)) else later

abbrev pub is_dot : ℕ → Bool
is_dot c = c == b'.'

unfoldable pub non_empty : Text → Option Text
non_empty t = if is_empty t then none else some t

unfoldable pub mount_point_of : (ℕ → Bool) → Text → Option Text
unfolding after_at trim_start trim_end non_empty
mount_point_of white s = elim (after_at s) [
  | none ↦ none
  | some rest ↦ non_empty (trim_end is_dot (trim_start white (trim_end white rest)))
]

unfoldable pub parse_udisksctl_output : System → Bytes → Option Text
unfolding mount_point_of
parse_udisksctl_output sys stdout = elim (sys.from_utf8 stdout) [
  | none ↦ none
  | some s ↦ mount_point_of sys.is_whitespace s
]

-- The name that `id` prints; a command that cannot be run ends the search.
unfoldable pub user_name : System → Bytes → Option Text
unfolding trim_start trim_end non_empty
user_name sys stdout =
    non_empty
      (trim_start sys.is_whitespace (trim_end sys.is_whitespace (sys.from_utf8_lossy stdout)))

name_or : Option Text → Option Text → Option Text
name_or (some name) later = some name
name_or none later = later

identified : System → Option (Option Bytes) → Option Text → Option Text
unfolding user_name name_or
identified sys none later = none
identified sys (some none) later = later
identified sys (some (some stdout)) later = name_or (user_name sys stdout) later

unfoldable pub first_user : System → List Text → Option Text
unfolding identified text_eq
first_user sys [] = none
first_user sys (uid ∷ uids) =
    let later = first_user sys uids in
    if text_eq uid (codes "0") || not (sys.exists (codes "/run/user/" ++ uid ++ codes "/bus"))
    then later
    else identified sys (sys.id_un uid) later

unfoldable pub get_logged_in_username : System → Option Text
unfolding first_user
get_logged_in_username sys = elim sys.run_user [ none ↦ none | some uids ↦ first_user sys uids ]

-- What is done to the system, in order.
pub data Act : Type 0 where
  wrote_sentinel removed_sentinel : Text → Act
  triggered : Text → Act
  asked_udisks : Text → Text → Act
  called_mount : Text → Text → Act
  deauthorized : Text → Act

unfoldable pub sentinel_of : Text → Text
sentinel_of dev_name = codes "/run/keysas/certified/" ++ dev_name

mounted_by : System → Option (Option Bytes) → Result Text
unfolding parse_udisksctl_output
mounted_by sys none = err (message (codes "runuser/udisksctl exec failed: "))
mounted_by sys (some none) = err (message (codes "udisksctl mount failed (exit ): "))
mounted_by sys (some (some stdout)) =
    or_err (parse_udisksctl_output sys stdout)
      (message (codes "Cannot parse mount point from udisksctl output"))

mount_as : System → Text → Option Text → List Act × Result Text
unfolding mounted_by
mount_as sys devnode none = ([], err (message (codes "No active user session found")))
mount_as sys devnode (some username) =
    (asked_udisks username devnode ∷ [], mounted_by sys (sys.udisksctl username devnode))

-- `devnode` is given as `to_string_lossy` gives it.
unfoldable pub mount_certified_via_udisks : System → Text → Text → List Act × Result Text
unfolding sentinel_of get_logged_in_username mount_as
mount_certified_via_udisks sys devnode dev_name =
    if not (sys.create_dir_all (codes "/run/keysas/certified"))
    then ([], err (message (codes "Cannot create : ")))
    else if not (sys.write (sentinel_of dev_name))
    then ([], err (message (codes "Cannot write sentinel : ")))
    else let (acts, result) = mount_as sys devnode (get_logged_in_username sys) in
      (
        wrote_sentinel (sentinel_of dev_name)
            ∷ triggered (codes "/sys/class/block/" ++ dev_name)
            ∷ acts,
        result,
      )

mount_status : Text → Option Bool → Result Text
mount_status mnt_point none = err (message (codes "mount exec failed: "))
mount_status mnt_point (some false) = err (message (codes "mount failed for  (exit )"))
mount_status mnt_point (some true) = ok mnt_point

unfoldable pub mount_certified_headless : System → Text → Text → List Act × Result Text
unfolding mount_status
mount_certified_headless sys devnode dev_name =
    let mnt_point = codes "/run/keysas/media/" ++ dev_name in
    if sys.create_dir_all mnt_point
    then (called_mount devnode mnt_point ∷ [], mount_status mnt_point (sys.mount devnode mnt_point))
    else ([], err (message (codes "Cannot create : ")))

-- The direct mount where the one by udisks failed.
or_headless : System → Text → Text → List Act × Result Text → List Act × Result Text
unfolding mount_certified_headless
or_headless sys devnode dev_name (acts, ok mnt) = (acts, ok mnt)
or_headless sys devnode dev_name (acts, err e) =
    let (more, result) = mount_certified_headless sys devnode dev_name in (acts ++ more, result)

unfoldable pub mount_certified : System → Text → Text → List Act × Result Text
unfolding mount_certified_via_udisks or_headless
mount_certified sys devnode dev_name =
    or_headless sys devnode dev_name (mount_certified_via_udisks sys devnode dev_name)
