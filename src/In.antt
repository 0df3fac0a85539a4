-- ===== src/In.antt =====
-- keysas-core/src/keysas-in/main.rs: the daemon that takes files from the incoming directory. Every path is
-- that of a name in this directory, and is modelled by the name.
pub mod Stages
pub mod Send
pub mod Reports
mod Examples
use keysas.Base.{
  ℕ, Bool, true, false, not, ◌&&◌, Option, none, some, List, [], ◌∷◌, ◌++◌, Text, Bytes, codes,
  text_eq, mem_text, retain, filter_map, is_empty, starts_with, file_name, extension, file_stem,
  append_ext, if◌then◌else◌,
}
use keysas.Base.Daemon.{Live, exited, live}
use keysas.Progress.{
  Call, AnalysisStep, add_files, start_file, update_step, complete_file, hashing, checking_size,
  verifying_signature,
}

pub record FileMetadata : Type 0 where
  pub filename : Text
  pub digest : Text
  pub timestamp : Text
  pub is_corrupted : Bool

-- `path.exists() && path.is_file()`, where `dir` has the names of the regular files.
abbrev pub is_file : List Text → Text → Bool
is_file dir name = mem_text name dir

-- What `remove_file` and `unlinkat` leave.
unfoldable pub unlink : Text → List Text → List Text
unfolding text_eq
unlink name dir = retain (λ x. not (text_eq x name)) dir

unfoldable pub report_of : Text → Text
unfolding append_ext
report_of name = append_ext (codes "ioerror") name

-- The file that a report is about is there.
subject_exists : List Text → Option Text → Bool
unfolding mem_text
subject_exists dir none = false
subject_exists dir (some corrupted_filename) = is_file dir corrupted_filename

corrupted_by : List Text → Text → Option Text → Bool
unfolding subject_exists report_of mem_text text_eq file_stem
corrupted_by dir file none = is_file dir (report_of file)
corrupted_by dir file (some ext) =
    if text_eq ext (codes "ioerror")
    then subject_exists dir (file_stem file)
    else is_file dir (report_of file)

unfoldable pub is_corrupted : List Text → Text → Bool
unfolding corrupted_by extension mem_text
is_corrupted dir file = if is_file dir file then corrupted_by dir file (extension file) else true

-- What the system answers while a file is handled: the clock for the tracker, the descriptor, the digest,
-- the clock for the metadata, and whether the report is removed, the message sent and the file unlinked.
pub record Probe : Type 0 where
  pub started : Text
  pub hashed : Text
  pub sized : Text
  pub verified : Text
  pub opened : Option ℕ
  pub digest : Option Text
  pub timestamp : Text
  pub removes : Bool
  pub sends : Bool
  pub unlinks : Bool

-- A message: the metadata with its encoding and the descriptor, or an empty one.
pub data Message : Type 0 where
  empty : Message
  carried : FileMetadata → Bytes → ℕ → Message

pub record In : Type 0 where
  pub dir : List Text
  pub calls : List Call
  pub messages : List Message

abbrev pub note_call : Call → In → In
note_call c s = record s { calls = s.calls ++ c ∷ [] }

-- What the closure of `filter_map` makes of a file: none, or the data and the descriptor.
abbrev pub Taken : Type 0
Taken = Option (FileMetadata × Bytes × ℕ)

-- The regular expression `^\.`
unfoldable pub is_hidden : Text → Bool
unfolding starts_with
is_hidden name = starts_with name (codes ".")

module _ (encode : FileMetadata → Option Bytes) where
  unfoldable pub serialize : FileMetadata → ℕ → Option Bytes → Taken
  serialize m fd none = none
  serialize m fd (some data_bytes) = some (m, data_bytes, fd)

  unfoldable pub remove_report : Text → Bool → In → In
  unfolding unlink report_of
  remove_report f removes s = if removes then record s { dir = unlink (report_of f) s.dir } else s

  unfoldable pub hash_file : Probe → Text → Text → ℕ → Option Text → In → Taken × In
  unfolding serialize remove_report is_corrupted
  hash_file p f filename fd none s = (none, note_call (complete_file false) s)
  hash_file p f filename fd (some digest) s =
      let m : FileMetadata = record {
        filename = filename;
        digest = digest;
        timestamp = p.timestamp;
        is_corrupted = is_corrupted s.dir f;
      } in
      (
        serialize m fd (encode m),
        remove_report f (m.is_corrupted && p.removes)
            (note_call (update_step p.verified verifying_signature) s),
      )

  unfoldable pub open_file : Probe → Text → Text → Option ℕ → In → Taken × In
  unfolding hash_file
  open_file p f filename none s = (none, note_call (complete_file false) s)
  open_file p f filename (some fd) s =
      hash_file p f filename fd p.digest (note_call (update_step p.sized checking_size) s)

  unfoldable pub start : Probe → Text → Option Text → In → Taken × In
  unfolding open_file
  start p f none s = (none, s)
  start p f (some filename) s =
      open_file p f filename p.opened
        (note_call (update_step p.hashed hashing) (note_call (start_file p.started filename) s))

  unfoldable pub prepare : Probe → Text → In → Taken × In
  unfolding start file_name
  prepare p f s = start p f (file_name f) s

  unfoldable pub message : Taken → Message
  message none = empty
  message (some (m, data_bytes, fd)) = carried m data_bytes fd

  -- After the message: the file is counted, and unlinked.
  unfoldable pub finish : Probe → Text → Taken → In → In
  unfolding unlink
  finish p f none s = s
  finish p f (some t) s =
      let done = note_call (complete_file true) s in
      if p.unlinks then record done { dir = unlink f done.dir } else done

  -- `sends` is whether the message is sent.
  unfoldable pub deliver : Probe → Text → Taken → Bool → In → Bool × In
  unfolding message finish
  deliver p f taken sends s =
      if sends
      then (true, finish p f taken (record s { messages = s.messages ++ message taken ∷ [] }))
      else (false, s)

  -- A batch has one file. The flag is whether the message was sent.
  unfoldable pub send_batch : Probe → Text → In → Bool × In
  unfolding prepare deliver
  send_batch p f s = let (taken, s') = prepare p f s in deliver p f taken p.sends s'

  unfoldable pub send_all : (Text → Probe) → List Text → In → Bool × In
  unfolding send_batch
  send_all probe [] s = (true, s)
  send_all probe (f ∷ files) s =
      let (sent, s') = send_batch (probe f) f s in
      let rest = send_all probe files s' in if sent then rest else (false, s')

  unfoldable pub send_files : (Text → Probe) → List Text → In → Bool × In
  unfolding send_all is_hidden
  send_files probe files s = send_all probe (retain (λ x. not (is_hidden x)) files) s

-- An entry of the directory that can be read: whether it is a regular file, and its name if it is UTF-8.
pub record DirEntry : Type 0 where
  pub is_regular : Bool
  pub name : Option Text

name_of : Option DirEntry → Option Text
name_of none = none
name_of (some e) = if e.is_regular then e.name else none

-- `list_files` of keysas_lib/src/lib.rs: `^\.([a-z])*` matches a name that begins with a dot.
unfoldable pub list_files : Option (List (Option DirEntry)) → Option (List Text)
unfolding name_of is_hidden
list_files none = none
list_files (some entries) = some (retain (λ x. not (is_hidden x)) (filter_map name_of entries))

-- A round of the inner loop, which ends where the flag is false.
unfoldable pub round :
    (FileMetadata → Option Bytes)
    → (Text → Probe)
    → Option (List (Option DirEntry))
    → In
    → Live (Bool × In)
unfolding list_files send_files
round encode probe listing s = elim (list_files listing) [
  | none ↦ exited
  | some files ↦
      live (
        send_files encode probe files (if is_empty files then s else note_call (add_files files) s))
]
