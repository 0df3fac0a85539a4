-- ===== src/Out.antt =====
-- keysas-core/src/keysas-out/main.rs: the daemon that writes the accepted files and the reports to the
-- output directory.
pub mod Write
pub mod Release
mod Examples
use keysas.Base.{
  ℕ, Bool, true, false, not, ◌&&◌, ◌||◌, Option, none, some, List, [], ◌∷◌, ◌++◌, Text, Bytes,
  codes, utf8, text_eq, push, append_ext, to_lowercase, Unicode, if◌then◌else◌, Result, Error, ok,
  err, library, map,
}
use keysas.Base.Daemon.{Live, exited, live, AncillaryData, received_fds, buffer}
use keysas.Base.Daemon.Process.{◌>>=◌}
use keysas.Signing.{Crypto}
use keysas.Report.{
  FileMetadata, MetaData, Report, Json, HybridKeyPair, ClockParts, generate_report_metadata,
  bind_and_sign,
}

pub record FileData : Type 0 where
  pub fd : ℕ  -- i32
  pub md : FileMetadata

pub data KrpMode : Type 0 where
  always never pass_only fail_only : KrpMode

unfoldable pub from_str : Unicode → Text → KrpMode
unfolding to_lowercase text_eq
from_str u s =
    let l = to_lowercase u s in
    if text_eq l (codes "never")
    then never
    else if text_eq l (codes "pass_only")
    then pass_only
    else if text_eq l (codes "fail_only")
    then fail_only
    else always

unfoldable pub should_write : KrpMode → Bool → Bool
should_write always is_valid = true
should_write never is_valid = false
should_write pass_only is_valid = is_valid
should_write fail_only is_valid = not is_valid

pub record Configuration : Type 0 where
  pub sas_out : Text
  pub yara_clean : Bool
  pub krp_mode : KrpMode

-- One message gives one metadata for all its descriptors; a message that does not decode ends the
-- process, if it came with a descriptor.
file_data_all : Option FileMetadata → List ℕ → Live (List FileData)
file_data_all decoded [] = live []
file_data_all none (fd ∷ fds) = exited
file_data_all (some md) (fd ∷ fds) = live (map (λ d. record { fd = d; md = md }) (fd ∷ fds))

unfoldable pub parse_messages :
    (Bytes → Option FileMetadata) → List (Option AncillaryData) → Bytes → Live (List FileData)
unfolding file_data_all received_fds
parse_messages decode messages buffer = file_data_all (decode buffer) (received_fds messages)

-- The contents of the files of the output directory, by path.
abbrev pub Sas : Type 0
Sas = Text → Option Bytes

unfoldable pub store : Text → Bytes → Sas → Sas
store path content fs p = if text_eq p path then some content else fs p

-- How a write to an opened, truncated file ends: everything lands, or only a part does and the caller
-- is told, or only a part does and nobody is told (the flush of a dropped `BufWriter`).
pub data Landing : Type 0 where
  whole : Landing
  failed lost : Bytes → Landing

-- What the system answers while one file is written out. `content` is what the descriptor reads from
-- its beginning.
pub record Probes : Type 0 where
  pub rewinds : Bool
  pub digest : Option Text
  pub date : ClockParts
  pub report_opens : Bool
  pub report_lands : Landing
  pub output_opens : Bool
  pub output_rewinds : Bool
  pub content : Bytes
  pub output_lands : Landing

-- An action on the output directory that may fail; what it wrote before stays.
abbrev pub Io : Type 0 → Type 0
Io A = Sas → Result A × Sas

abbrev land : Landing → Text → Bytes → Io (Unit {0})
land whole path content fs = (ok tt, store path content fs)
land (failed part) path content fs = (err library, store path part fs)
land (lost part) path content fs = (ok tt, store path part fs)

-- The report of a file, `.name.krp`, and the file's own path.
unfoldable pub report_path : Text → Text → Text
unfolding push append_ext
report_path sas_out filename = append_ext (codes "krp") (push sas_out (b'.' ∷ filename))

unfoldable pub output_path : Text → Text → Text
unfolding push
output_path sas_out filename = push sas_out filename

-- The file is there from the moment it is opened; `writeln!` adds a line feed.
write_report : Probes → Text → Text → Io (Unit {0})
write_report e path json fs =
    if e.report_opens
    then land e.report_lands path (utf8 (json ++ 10 ∷ [])) fs
    else (err library, fs)

write_output : Probes → Text → Io (Unit {0})
write_output e path fs =
    if e.output_opens
    then (if e.output_rewinds
        then land e.output_lands path e.content fs
        else (err library, store path [] fs))
    else (err library, fs)

unfoldable pub is_accepted : Configuration → FileMetadata → Bool
is_accepted conf md =
    md.is_digest_ok
    && (not md.is_toobig
        && (md.is_type_allowed
            && (md.av_pass
                && (not md.is_corrupted
                    && ((md.yara_pass || not conf.yara_clean)
                        && (md.specialized_pass && md.vt_pass))))))

-- The digest is computed again; a mismatch clears the flag.
unfoldable pub recheck : Text → FileMetadata → FileMetadata
recheck digest md =
    if not (text_eq digest md.digest) then record md { is_digest_ok = false } else md

and_then : Result (Unit {0}) × Sas → Io (Unit {0}) → Result (Unit {0}) × Sas
and_then (ok _, fs) k = k fs
and_then (err e, fs) k = (err e, fs)

-- Once the report is made: it is written where the mode asks for it, and then the file is where it is
-- accepted.
first_report : Configuration → Probes → FileMetadata → Bool → Text → Io (Unit {0})
first_report conf e md is_valid json fs =
    if should_write conf.krp_mode is_valid
    then write_report e (report_path conf.sas_out md.filename) json fs
    else (ok tt, fs)

then_output :
    Configuration → Probes → FileMetadata → Result (Unit {0}) × Sas → Result (Unit {0}) × Sas
then_output conf e md (err x, fs) = (err x, fs)
then_output conf e md (ok _, fs) =
    if is_accepted conf md
    then write_output e (output_path conf.sas_out md.filename) fs
    else (ok tt, fs)

write_both : Configuration → Probes → FileMetadata → Bool → Text → Io (Unit {0})
write_both conf e md is_valid json fs =
    then_output conf e md (first_report conf e md is_valid json fs)

-- The body of the loop of `output_files`, with every `?`.
module _ (c : Crypto) (j : Json) (conf : Configuration) (keys : Option HybridKeyPair)
    (cert : Text) where
  write_signed : Probes → FileMetadata → Bool → Result Report → Io (Unit {0})
  write_signed e md is_valid (err x) fs = (err x, fs)
  write_signed e md is_valid (ok report) fs = elim (j.report_to_string_pretty report) [
    | none ↦ (err library, fs)
    | some json ↦ write_both conf e md is_valid json fs
  ]

  write_checked : Probes → FileMetadata → Io (Unit {0})
  write_checked e md fs =
      let report_meta = generate_report_metadata e.date md in
      write_signed e md report_meta.is_valid (bind_and_sign c j md report_meta keys cert) fs

  unfoldable pub output_file : Probes → FileData → Io (Unit {0})
  unfolding write_checked write_signed write_both first_report then_output write_report write_output
  output_file e f fs =
      if e.rewinds
      then elim e.digest [
        | none ↦ (err library, fs)
        | some digest ↦ write_checked e (recheck digest f.md) fs
      ]
      else (err library, fs)

  -- An error ends the batch: the files after it are dropped.
  unfoldable pub output_files : (ℕ → Probes) → ℕ → List FileData → Io (Unit {0})
  unfolding and_then
  output_files env i [] fs = (ok tt, fs)
  output_files env i (f ∷ files) fs =
      and_then (output_file (env i) f fs) (output_files env (ℕ.suc i) files)
