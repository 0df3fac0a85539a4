-- ===== src/Io/Files.antt =====
-- The copying of files in and the moving of files out.
use keysas.Base.{
  Bool, true, false, not, Option, none, some, List, [], ◌∷◌, ◌++◌, map, Text, text_eq, retain, ◌==◌,
  if◌then◌else◌, Result, ok, err, library,
}

-- What the system answers for an entry of the outgoing directory: the entry's name, none where it cannot
-- be read; whether it is a directory, none on an error; whether it is copied, whether a copy that fails
-- leaves part of the file, whether the file is removed; and whether the device can be unmounted.
pub record OutEntry : Type 0 where
  pub name : Option Text
  pub is_dir : Option Bool
  pub copies : Bool
  pub leaves_part : Bool
  pub unmounts : Bool
  pub removes : Bool

-- The names in the outgoing directory, and what is written on the device: names, with whether it is the
-- whole file.
pub record Outgoing : Type 0 where
  pub sas_out : List Text
  pub device : List (Text × Bool)
  pub unmounted : Bool

module _ (remove_diacritics : Text → Text) where
  -- What is written once the device is unmounted goes to the temporary directory that it was mounted on.
  unfoldable pub write_on : Text → Bool → Outgoing → Outgoing
  write_on name whole s =
      if s.unmounted
      then s
      else record s { device = s.device ++ (remove_diacritics name, whole) ∷ [] }

  abbrev unmount : Bool → Outgoing → Outgoing
  unmount unmounts s = if unmounts then record s { unmounted = true } else s

  -- A failed copy, of which part may be written, unmounts the device, and the loop goes on.
  unfoldable pub copy_out : Text → Bool → Bool → Bool → Outgoing → Outgoing
  unfolding write_on
  copy_out name true leaves_part unmounts s = write_on name true s
  copy_out name false true unmounts s = unmount unmounts (write_on name false s)
  copy_out name false false unmounts s = unmount unmounts s

  unfoldable pub remove_out : Text → Bool → Outgoing → Result (Unit {0}) × Outgoing
  unfolding text_eq
  remove_out name removes s =
      if removes
      then (ok tt, record s { sas_out = retain (λ x. not (text_eq x name)) s.sas_out })
      else (err library, s)

  unfoldable pub move_entry :
      OutEntry → Option Text → Option Bool → Outgoing → Result (Unit {0}) × Outgoing
  unfolding copy_out remove_out
  move_entry e none is_dir s = (err library, s)
  move_entry e (some name) none s = (err library, s)
  move_entry e (some name) (some true) s = (ok tt, s)
  move_entry e (some name) (some false) s =
      remove_out name e.removes (copy_out name e.copies e.leaves_part e.unmounts s)

  unfoldable pub go_on :
      Result (Unit {0}) × Outgoing
      → (Outgoing → Result (Unit {0}) × Outgoing)
      → Result (Unit {0}) × Outgoing
  go_on (err e, s) next = (err e, s)
  go_on (ok _, s) next = next s

  unfoldable pub move_entries : List OutEntry → Outgoing → Result (Unit {0}) × Outgoing
  unfolding go_on move_entry
  move_entries [] s = (ok tt, s)
  move_entries (e ∷ entries) s = go_on (move_entry e e.name e.is_dir s) (move_entries entries)

  -- `listed` is none where the directory cannot be read.
  unfoldable pub move_files_out : Option (List OutEntry) → Outgoing → Result (Unit {0}) × Outgoing
  unfolding move_entries
  move_files_out none s = (err library, s)
  move_files_out (some entries) s = move_entries entries s

  -- The name under which a file of the device is taken in.
  unfoldable pub clean_name : Text → Text
  clean_name entry = remove_diacritics (map (λ c. if c == b'?' then b'-' else c) entry)

-- `busy_in` and the like, over the existence of the directory and of the two files that keysas-backend
-- watches. `io` is whether the one call that is made succeeds.
pub record Locks : Type 0 where
  pub directory : Bool
  pub working_in : Bool
  pub working_out : Bool

abbrev attempt : Bool → Locks → Locks → Result (Unit {0}) × Locks
attempt io before after = if io then (ok tt, after) else (err library, before)

unfoldable pub busy_in : Bool → Locks → Result (Unit {0}) × Locks
busy_in io s =
    if not s.directory
    then attempt io s (record s { directory = true })
    else if s.working_out
    then attempt io s (record s { working_out = false })
    else if not s.working_in
    then attempt io s (record s { working_in = true })
    else (ok tt, s)

unfoldable pub busy_out : Bool → Locks → Result (Unit {0}) × Locks
busy_out io s =
    if not s.directory
    then attempt io s (record s { directory = true })
    else if s.working_in
    then attempt io s (record s { working_in = false })
    else if not s.working_out
    then attempt io s (record s { working_out = true })
    else (ok tt, s)

unfoldable pub ready_in : Bool → Locks → Result (Unit {0}) × Locks
ready_in io s = if s.working_in then attempt io s (record s { working_in = false }) else (ok tt, s)

unfoldable pub ready_out : Bool → Locks → Result (Unit {0}) × Locks
ready_out io s =
    if s.working_out then attempt io s (record s { working_out = false }) else (ok tt, s)
