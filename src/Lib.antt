-- ===== src/Lib.antt =====
-- A verification library for Keysas, a decontamination station for files from removable media.
--
-- The station is a pipeline of daemons. keysas-io copies files from unsigned USB devices into an incoming
-- directory, and moves accepted files to signed ones. keysas-in sends each file's descriptor with its
-- name, digest and timestamp over a socket to keysas-transit, which checks the file (digest, size,
-- antivirus, YARA rules, type) and asks two optional daemons, keysas-analyze and keysas-virustotal.
-- keysas-transit sends the descriptor on with the findings to keysas-out, which computes the digest again,
-- makes and signs a report, and writes the file to the output directory if it is accepted. keysas-backend
-- shows both directories and the reports on the station's screen. The library keysas_lib holds the report,
-- the validation of certificates and the progress tracker. An administrator signs and revokes devices with
-- keysas-admin. On a workstation, keysas-firewall decides which USB devices may be mounted, by a signature
-- of the station's authority and by a policy, and asks about the files that are opened on them.
--
-- Which file models which part:
--   Base       shared names: Boolean tests, lists, text, std's paths, results, UTF-8, and in Base.Daemon what
--              the daemons share (a process that may exit, descriptors in control messages).
--   Progress   keysas_lib/src/progress.rs: the state of the tracker and its calls. Proofs in
--              Progress.Account (counters) and Progress.Steps.
--   Signing    keysas_lib/src/lib.rs (the loop of sha256_digest), keysas_lib/src/certificate_field.rs
--              (validate_signing_certificate) and the OIDs of keysas_lib/src/pki.rs.
--   Pki        keysas_lib/src/certificate_field.rs (from_fields here; generate_dn and
--              construct_tbs_certificate in Tbs), keysas_key.rs (requests, certificates and message
--              signatures in Keys, storage in Store, public keys in Pubkeys), and pki.rs and
--              keysas_hybrid_keypair.rs in Issue. Proofs in Bounds, Issued, Possession, Chain, Root, Hybrid, Written and Reload.
--   Report     keysas_lib/src/file_report.rs: generate_report_metadata, bind_and_sign, parse_report.
--   Transit    keysas-core/src/keysas-transit/main.rs: Metadata (messages, configuration, parse_messages),
--              Peers (the two calls of optional daemons), FileType (is_likely_text,
--              check_is_extension_allowed, get_extension), Check (check_files, one function per check),
--              Relay (send_files and a turn of the inner loop). Proofs in Stages, Verdict, Loop, FailOpen
--              and Sample.
--   Io         keysas-io/src/main.rs: the signature of a device here, move_files_out and the lock files in
--              Files, the events of block devices in Station. Proofs in Sides, Challenge, Loss and
--              Agreement (with the firewall's check).
--   In         keysas-core/src/keysas-in/main.rs: is_corrupted, send_files, a round of the inner loop, and
--              list_files of keysas_lib/src/lib.rs. Proofs in Stages, Send and Reports.
--   Out        keysas-core/src/keysas-out/main.rs: KrpMode, parse_messages, output_files. Proofs in Write and
--              Release.
--   VirusTotal keysas-core/src/keysas-virustotal: the client and its cache (virustotal.rs), a turn of the
--              daemon's loop (main.rs). Proofs in Cache and Truth.
--   Firewall   keysas-firewall/daemon/src/controller.rs: the tables of USB devices, authorize_usb and
--              validate_usb_signature here, the operations on known devices in Devices, the authorisation
--              of files in Files, the look-ups, the lists and the recovery of mounted devices in Queries,
--              the start with that recovery in Start. Events holds the events and what an authorisation may rest on; Entries, Evaluate, Grants, Moves,
--              Reach, Access and Restart the proofs.
--              keysas-firewall/daemon/src/linux/usb_monitor.rs: what is read of a new device in Monitor, the
--              mounting in Mount, the loop over the events in Watch. Proofs in Traces, Deauthorize and
--              MountPoint. linux/file_filter_if.rs beside it: FileFilter, with proofs in Responses;
--              linux/gui_interface.rs: Gui, with proofs in Dialog.
--   Admin      keysas-admin/src-tauri/src/usb_sign.rs: watch_new_usb, sign_usb and revoke_device, with sign_key
--              and revoke_usb of lib.rs beside it. Disk says where the block lies that is written; proofs in
--              Signature and Revocation.
--   Backend    keysas-backend/src/main.rs: parse_krp in Krp, the lists of files and the state that is sent in
--              Listing. Json holds the values of serde_json and those of a report. Proofs in Reasons and
--              Present.
--   Analyze    keysas-core/src/keysas-analyze: Category and Daemon model main.rs (detect_category, dispatch,
--              a turn of the loop); Script, Pdf, Lnk, Archive, Iso, Pe and Office one analyzer each, with the
--              loops and the summary that they share in Findings. Proofs in Verdicts (text searches),
--              Keywords (counting in a PDF), Walk (directories of an image), Scan (archives), Answers (the
--              dispatch) and Replies.
--   Pipeline   the metadata of keysas-transit as keysas-out reads it, and the two decisions together.
-- The Examples modules, and Firewall.Rounds and Firewall.Questions, hold concrete inputs.
--
-- How state and failure are modelled. The metadata of a file is a record that each check returns changed,
-- as the code changes it in place. What the system and the services answer is a record of answers
-- (`Probes`, `Peer`) in which each call can fail; the theorems hold for all answers unless they say so. A
-- process that exits is a value of `Live`, an error passed on with `?` one of `Result`; the texts of errors
-- of other crates are not kept. The output directory is a function from paths to contents, and a write may
-- land whole, fail part-way, or be lost unnoticed. Text is the list of its code points, bytes are numbers.
-- Machine integers are natural numbers; where the code adds or multiplies, the wrap at 64, 32 or 8 bits
-- is written out. Loops are over lists, save four that run on fuel: the printing of a number in decimal,
-- with one more step than the number, which has no more digits than that; the counting of a keyword in a
-- PDF (Analyze.Pdf.count_from), the walk over the records of a directory (Analyze.Iso.walk_records) and the
-- loop over a buffer of events of fanotify (Firewall.FileFilter.handle_buffer), each with one more round than
-- there are bytes, of which every round takes one at least. The walk
-- over records gives `none` where it runs out of fuel, so that a loop without end cannot pass for its end. The nesting of directories is bounded by the
-- code itself, at depth 8.
--
-- Parameters, since their code is not in the repository: SHA-256, base64, X.509 parsing, Ed25519 and
-- ML-DSA-87 (record `Crypto`), serde_json (record `Json`), bincode (encoders and decoders), the recognition
-- of magic numbers by the crate infer, the HTTP API of VirusTotal, the Unicode tables of to_lowercase, clamd
-- and YARA, floating point, what the crates zip, tar, flate2, bzip2, xz2, cfb and goblin read of a file,
-- what der, x509-cert and spki encode (record `Encoding`), signing (record `Signer`), pkcs8 (record `Pkcs8`),
-- mbrman, the private keys of the administrator (record `KeyStore`), and what the system answers to the
-- firewall (records `System`, `Daemon` and `Startup`): files, commands, signals of D-Bus and events of udev and fanotify.
--
-- Not modelled: command lines, logging, the accept loops, sandboxes, the loading of the firewall's policy
-- and certificates and the starting of its interfaces,
-- the versions of the firewall's interfaces for Windows, the kernel filters, the rest of the administration
-- tools and the front ends. Concurrency of the tracker's mutex, and of the controller's lock, is a sequence
-- of whole calls.
pub mod Base
pub mod Progress
pub mod Signing
pub mod Report
pub mod Transit
pub mod Out
pub mod VirusTotal
pub mod Firewall
pub mod Pipeline
pub mod Analyze
pub mod In
pub mod Io
pub mod Pki
pub mod Admin
pub mod Backend
