-- ===== src/Io/Loss.antt =====
-- What a failed copy to a signed device does to the outgoing files.
use keysas.Base.{
  ◌≡◌, sym, ◌∙◌, ◌++◌, if◌then◌else◌, refl, Bool, true, false, not, some, List, [], ◌∷◌, map, Text,
  text_eq, text_eq_iff, mem_text, retain, All, Result, ok, arith,
}
use mathlib.Core.List.{append-nil}
use keysas.Io.Files.{
  OutEntry, Outgoing, write_on, copy_out, remove_out, move_entry, go_on, move_entries,
  move_files_out,
}

abbrev drop_name : Text → List Text → List Text
drop_name name xs = retain (λ x. not (text_eq x name)) xs

dropped : (f : Text) (xs : List Text) → mem_text f (drop_name f xs) ≡ false
unfolding mem_text
dropped f [] = refl
dropped f (y ∷ xs) = ground (arith, text_eq_iff f y, text_eq_iff y f, dropped f xs)

stays_dropped :
    (f g : Text) (xs : List Text) → mem_text f xs ≡ false → mem_text f (drop_name g xs) ≡ false
unfolding mem_text
stays_dropped f g [] h = h
stays_dropped f g (y ∷ xs) h = ground (arith, stays_dropped f g xs)

-- A regular file, whether it is copied, and whether a failed copy leaves a part; the device can be unmounted
-- and the file is removed in the end.
abbrev pub regular : Text × Bool × Bool → OutEntry
regular (name, copies, leaves_part) = record {
  name = some name;
  is_dir = some false;
  copies = copies;
  leaves_part = leaves_part;
  unmounts = true;
  removes = true;
}

module _ (remove_diacritics : Text → Text) where
  -- The loop once the device has been unmounted.
  abbrev gone : List Text → List (Text × Bool) → Outgoing
  gone xs device = record { sas_out = xs; device = device; unmounted = true }

  abbrev Lost :
      List (Text × Bool × Bool)
      → List Text
      → List (Text × Bool)
      → Result (Unit {0}) × Outgoing
      → Type 0
  Lost files xs device r =
      (r.0 ≡ ok tt)
      × (r.1.device ≡ device)
      × ((f : Text) → mem_text f xs ≡ false → mem_text f r.1.sas_out ≡ false)
      × All (λ p. mem_text p.0 r.1.sas_out ≡ false) files

  Lost-next :
      (name : Text) (copies part : Bool) (files : List (Text × Bool × Bool)) (xs : List Text)
      (device : List (Text × Bool)) (r : Result (Unit {0}) × Outgoing)
      → Lost files (drop_name name xs) device r
      → Lost ((name, copies, part) ∷ files) xs device r
  Lost-next name copies part files xs device r (done, same, stay, all) =
      (done, same, (λ f h. stay f (stays_dropped f name xs h)), (stay name (dropped name xs), all))

  move_entries-Lost :
      (files : List (Text × Bool × Bool)) (xs : List Text) (device : List (Text × Bool))
      → Lost files xs device (move_entries remove_diacritics (map regular files) (gone xs device))
  unfolding move_entries go_on move_entry remove_out copy_out write_on
  move_entries-Lost [] xs device = (refl, refl, (λ f h. h), tt)
  move_entries-Lost ((name, true, part) ∷ files) xs device =
      Lost-next name true part files xs device
        (move_entries remove_diacritics (map regular files) (gone (drop_name name xs) device))
        (move_entries-Lost files (drop_name name xs) device)
  move_entries-Lost ((name, false, true) ∷ files) xs device =
      Lost-next name false true files xs device
        (move_entries remove_diacritics (map regular files) (gone (drop_name name xs) device))
        (move_entries-Lost files (drop_name name xs) device)
  move_entries-Lost ((name, false, false) ∷ files) xs device =
      Lost-next name false false files xs device
        (move_entries remove_diacritics (map regular files) (gone (drop_name name xs) device))
        (move_entries-Lost files (drop_name name xs) device)

  -- What the failed copy leaves on the device.
  abbrev pub part_of : Text → Bool → List (Text × Bool)
  part_of name leaves_part = if leaves_part then (remove_diacritics name, false) ∷ [] else []

  -- All entries are regular files, each of which is removed when its removal is asked for, and the device can
  -- be unmounted. Where then the first copy to the signed device fails, no whole file is written on the
  -- device, whether or not its own copy succeeds, but at most the part that the failed copy left; yet the
  -- moving is reported as done, and every file is gone from the outgoing directory.
  pub move_files_out-loses :
      (name : Text) (leaves_part : Bool) (files : List (Text × Bool × Bool)) (xs : List Text)
      (device : List (Text × Bool))
      → let s : Outgoing = record { sas_out = xs; device = device; unmounted = false } in
        let all_files = (name, false, leaves_part) ∷ files in
        let r = move_files_out remove_diacritics (some (map regular all_files)) s in
        (r.0 ≡ ok tt)
        × (r.1.device ≡ device ++ part_of name leaves_part)
        × All (λ p. mem_text p.0 r.1.sas_out ≡ false) all_files
  unfolding move_files_out move_entries go_on move_entry remove_out copy_out write_on
  move_files_out-loses name true files xs device =
      let device' = device ++ part_of name true in
      let (done, same, stay, all) =
        Lost-next name false true files xs device'
          (move_entries remove_diacritics (map regular files) (gone (drop_name name xs) device'))
          (move_entries-Lost files (drop_name name xs) device') in
      (done, same, all)
  move_files_out-loses name false files xs device =
      let (done, same, stay, all) =
        Lost-next name false false files xs device
          (move_entries remove_diacritics (map regular files) (gone (drop_name name xs) device))
          (move_entries-Lost files (drop_name name xs) device) in
      (done, same ∙ sym (append-nil device), all)
