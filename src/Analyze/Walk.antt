-- ===== src/Analyze/Walk.antt =====
-- The walk of iso.rs through a directory ends, and what its verdict depends on.
use keysas.Base.{
  ℕ, zero, suc, ◌+◌, ◌*◌, ◌/◌, ◌≤◌, ◌<◌, ◌≡◌, ◌↔◌, ◌⊎◌, refl, ap, ◌∙◌, Bool, true, false, not, ltb,
  leb, ◌==◌, ◌||◌, Option, Option-cases, Bool-cases, some, inl, inr, List, [], ◌∷◌, ◌++◌, Text,
  Bytes, any, Some, any-Some, mem_text, length, drop, is_empty, Unicode, if◌then◌else◌, arith,
}
use mathlib.Core.Path.{subst}
use keysas.Analyze.Verdicts.{false_iff, iff_trans, or_iff}
use keysas.Analyze.Iso.{
  Place, stop, skip, record_at, place, byte_at, slice, sector_size, Entry, nothing, file, directory,
  read_record, walk_records, max_files, max_depth, read_u32_le, dir_data, walk_dir, walked, Sorted,
  sort_file, sort_files, findings_of, executable_exts, script_exts, installer_exts, path_extension,
  list_iso, is_iso_image,
}
use keysas.Analyze.Iso

-- The place after `p` is further on and, where the loop goes on, still within the directory's bytes.
abbrev Further : ℕ → ℕ → Place → Type 0
Further pos size stop = Unit
Further pos size (skip next) = (pos < next) × (next ≤ size)
Further pos size (record_at next bytes) = (pos < next) × (next ≤ size)

chosen :
    (inside empty last short : Bool) (pos size next after : ℕ) (bytes : Bytes)
    → (last ≡ false → (pos < next) × (next ≤ size))
    → (short ≡ false → (pos < after) × (after ≤ size))
    → Further pos size (
        if not inside
        then stop
        else if empty
        then (if last then stop else skip next)
        else if short
        then stop
        else record_at after bytes)
chosen false empty last short pos size next after bytes f g = tt
chosen true true true short pos size next after bytes f g = tt
chosen true true false short pos size next after bytes f g = f refl
chosen true false last true pos size next after bytes f g = tt
chosen true false last false pos size next after bytes f g = g refl

place-Further : (d : Bytes) (pos : ℕ) → Further pos (length d) (place d pos)
unfolding place
place-Further d pos =
    let len = byte_at d pos in
    let next = (pos / 2048 + 1) * 2048 in
    let m : pos < next = omega arith in
    chosen (ltb pos (length d)) (len == 0) (leb (length d) next)
      (ltb (length d) (pos + len) || ltb len 34) pos (length d) next (pos + len)
      (slice d pos (pos + len)) (λ e. (m, ground arith)) (λ e. (ground arith, ground arith))

skip_further :
    (d : Bytes) (pos next : ℕ) → place d pos ≡ skip next → (pos < next) × (next ≤ length d)
skip_further d pos next e = subst (Further pos (length d)) e (place-Further d pos)

record_further :
    (d : Bytes) (pos next : ℕ) (bytes : Bytes)
    → place d pos ≡ record_at next bytes
    → (pos < next) × (next ≤ length d)
record_further d pos next bytes e = subst (Further pos (length d)) e (place-Further d pos)

place-cases :
    (p : Place)
    → (p ≡ stop)
      ⊎ ((next : ℕ) × (p ≡ skip next))
      ⊎ ((next : ℕ) × (bytes : Bytes) × (p ≡ record_at next bytes))
place-cases stop = inl refl
place-cases (skip next) = inr (inl (next, refl))
place-cases (record_at next bytes) = inr (inr (next, bytes, refl))

entry-cases :
    (e : Entry)
    → (e ≡ nothing)
      ⊎ ((path : Text) × (e ≡ file path))
      ⊎ ((path : Text) × (lba : ℕ) × (size : ℕ) × (e ≡ directory path lba size))
entry-cases nothing = inl refl
entry-cases (file path) = inr (inl (path, refl))
entry-cases (directory path lba size) = inr (inr (path, lba, size, refl))

-- The walk has an end, with some files.
abbrev pub Ends : Option (List Text) → Type 0
Ends walked = (files : List Text) × (walked ≡ some files)

module _ (child : ℕ → ℕ → Text → List Text → Option (List Text)) (lossy : Bytes → Text)
    (u : Unicode) (prefix : Text) where
  walk_records-Ends :
      ((lba size : ℕ) (path : Text) (files : List Text) → Ends (child lba size path files))
      → (fuel : ℕ) (d : Bytes) (pos : ℕ) (files : List Text) → pos ≤ length d
      → length d < fuel + pos
      → Ends (walk_records child lossy u prefix d fuel pos files)
  unfolding walk_records
  walk_records-Ends children zero d pos files p enough = absurd (omega arith)
  walk_records-Ends children (suc fuel) d pos files p enough = elim (place-cases (place d pos)) [
    | inl e ↦ rw (e, walk_records) (files, refl)
    | inr (inl (next, e)) ↦
        let (on, within) = skip_further d pos next e in
        rw (e, walk_records) (walk_records-Ends children fuel d next files within (omega arith))
    | inr (inr (next, bytes, e)) ↦
        let (on, within) = record_further d pos next bytes e in
        let go : (fs : List Text) → Ends (walk_records child lossy u prefix d fuel next fs) =
          λ fs. walk_records-Ends children fuel d next fs within (omega arith) in
        elim (entry-cases (read_record lossy u prefix bytes)) [
          | inl r ↦ rw (e, walk_records, r) (go files)
          | inr (inl (path, r)) ↦ rw (e, walk_records, r) (go (files ++ path ∷ []))
          | inr (inr (path, lba, size, r)) ↦
              let (more, c) = children lba size path files in rw (e, walk_records, r, c) (go more)
        ]
  ]

walk_dir-Ends :
    (lossy : Bytes → Text) (u : Unicode) (buf : Bytes) (levels lba size : ℕ) (prefix : Text)
    (files : List Text)
    → Ends (walk_dir lossy u buf levels lba size prefix files)
unfolding walk_dir
walk_dir-Ends lossy u buf zero lba size prefix files = (files, refl)
walk_dir-Ends lossy u buf (suc levels) lba size prefix files =
    elim (Bool-cases (leb max_files (length files))) [
      | inl full ↦ rw (full, walk_dir) (files, refl)
      | inr room ↦ elim (Option-cases (dir_data buf lba size)) [
        | inl past ↦ rw (room, walk_dir, past) (files, refl)
        | inr (bytes, there) ↦
            rw (room, walk_dir, there)
              (walk_records-Ends (walk_dir lossy u buf levels) lossy u prefix
                (λ lba size path files. walk_dir-Ends lossy u buf levels lba size path files)
                (suc (length bytes)) bytes 0 files (omega arith) (omega arith))
      ]
    ]

-- The walk through any bytes ends, whatever their records and extents say: in each directory within one
-- round more than it has bytes, since every round that does not end the loop moves on.
pub list_iso-Ends : (lossy : Bytes → Text) (u : Unicode) (buf : Bytes) → Ends (list_iso lossy u buf)
unfolding list_iso
list_iso-Ends lossy u buf =
    let pvd = drop (16 * sector_size) buf in
    walk_dir-Ends lossy u buf (suc max_depth) (read_u32_le pvd 158) (read_u32_le pvd 166) [] []

-- The extension of the path, in lower case, is one of an executable or of a script.
abbrev pub IsDangerous : Unicode → Text → Type 0
IsDangerous u f =
    (mem_text (path_extension u f) executable_exts ≡ true)
    ⊎ (mem_text (path_extension u f) script_exts ≡ true)

abbrev dangerous : Unicode → Text → Bool
dangerous u f =
    mem_text (path_extension u f) executable_exts || mem_text (path_extension u f) script_exts

abbrev has_danger : Sorted → Bool
has_danger s = not (is_empty s.executables) || not (is_empty s.scripts)

is_empty-append : (xs : List Text) (y : Text) → is_empty (xs ++ y ∷ []) ≡ false
is_empty-append [] y = refl
is_empty-append (x ∷ xs) y = refl

has_danger-sort_file :
    (f ext : Text) (s : Sorted)
    → has_danger (sort_file f ext s)
      ≡ (has_danger s || (mem_text ext executable_exts || mem_text ext script_exts))
unfolding sort_file
has_danger-sort_file f ext s =
    let a = is_empty-append s.executables f in let b = is_empty-append s.scripts f in ground arith

has_danger-sort_files :
    (u : Unicode) (files : List Text) (s : Sorted)
    → has_danger (sort_files u files s) ≡ (has_danger s || any (dangerous u) files)
unfolding sort_files
has_danger-sort_files u [] s = ground arith
has_danger-sort_files u (f ∷ files) s =
    let a = has_danger-sort_files u files (sort_file f (path_extension u f) s) in
    let b = has_danger-sort_file f (path_extension u f) s in ground arith

findings_of-danger : (total : ℕ) (s : Sorted) → (findings_of total s).passed ≡ not (has_danger s)
unfolding findings_of
findings_of-danger total s = ground arith

dangerous-IsDangerous : (u : Unicode) (f : Text) → (dangerous u f ≡ true) ↔ IsDangerous u f
dangerous-IsDangerous u f = or_iff _ _ ((λ e. e), (λ e. e)) ((λ e. e), (λ e. e))

-- The walk of an ISO image finds some files, and the image is failed just when one of them has the extension
-- of an executable or of a script.
pub image-verdict :
    (lossy : Bytes → Text) (u : Unicode) (buf : Bytes)
    → ltb (length buf) (16 * sector_size + 190) ≡ false
    → is_iso_image buf ≡ true
    → (files : List Text) × (list_iso lossy u buf ≡ some files)
      × (((Iso.analyze lossy u (some buf)).0 ≡ false) ↔ Some (IsDangerous u) files)
unfolding Iso.analyze walked
image-verdict lossy u buf large image =
    let (files, found) = list_iso-Ends lossy u buf in
    let start : Sorted = record { executables = []; scripts = []; installers = [] } in
    (
      files,
      found,
      iff_trans
          (false_iff _ (any (dangerous u) files) (
            rw (large, image, found)
              (findings_of-danger (length files) (sort_files u files start)
                ∙ ap not (has_danger-sort_files u files start))))
          (any-Some (dangerous u) (IsDangerous u) (dangerous-IsDangerous u) files),
    )
