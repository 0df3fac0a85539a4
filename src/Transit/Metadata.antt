-- ===== src/Transit/Metadata.antt =====
-- The messages of keysas-transit, its configuration, and how a message from keysas-in is read.
use keysas.Base.{ℕ, Bool, true, false, Option, none, some, List, [], Text, Bytes, codes, filter_map}
use keysas.Base.Daemon.{AncillaryData, received_fds}

pub record AnalyzeRequest : Type 0 where
  pub filename : Text
  pub file_type : Text

pub record AnalyzeResponse : Type 0 where
  pub performed : Bool
  pub passed : Bool
  pub analyzer : Text
  pub summary : Text

pub record VtRequest : Type 0 where
  pub sha256 : Text

pub record VtResponse : Type 0 where
  pub pass : Bool
  pub detections : ℕ  -- u32
  pub summary : Text

pub record InputMetadata : Type 0 where
  pub filename : Text
  pub digest : Text
  pub timestamp : Text
  pub is_corrupted : Bool

pub record FileMetadata : Type 0 where
  pub filename : Text
  pub digest : Text
  pub is_digest_ok : Bool
  pub is_toobig : Bool
  pub size : ℕ  -- u64
  pub is_type_allowed : Bool
  pub av_pass : Bool
  pub av_report : List Text
  pub yara_pass : Bool
  pub yara_report : Text
  pub timestamp : Text
  pub is_corrupted : Bool
  pub file_type : Text
  pub specialized_pass : Bool
  pub specialized_analyzer : Text
  pub specialized_summary : Text
  pub vt_pass : Bool
  pub vt_detections : ℕ  -- u32
  pub vt_summary : Text

pub record FileData : Type 0 where
  pub fd : ℕ  -- i32
  pub md : FileMetadata

-- What the checks read of the configuration. Of the YARA rules only their presence is: the compiled
-- rules are the yara crate's.
pub record Configuration : Type 0 where
  pub socket_analyze : Option Text
  pub socket_vt : Option Text
  pub max_size : ℕ  -- u64
  pub magic_list : List Text
  pub yara_rules : Bool
  pub type_off : Bool

-- The metadata that `parse_messages` starts from.
initial_metadata : InputMetadata → FileMetadata
initial_metadata meta = record {
  filename = meta.filename;
  digest = meta.digest;
  is_digest_ok = false;
  is_toobig = true;
  size = 0;
  is_type_allowed = false;
  av_pass = false;
  av_report = [];
  yara_pass = false;
  yara_report = [];
  timestamp = meta.timestamp;
  is_corrupted = meta.is_corrupted;
  file_type = codes "Unknown";
  specialized_pass = true;
  specialized_analyzer = [];
  specialized_summary = [];
  vt_pass = true;
  vt_detections = 0;
  vt_summary = [];
}

file_data : Option InputMetadata → ℕ → Option FileData
file_data none fd = none
file_data (some meta) fd = some (record { fd = fd; md = initial_metadata meta })

-- `decode` is bincode's, with the limit of 4128 bytes; every descriptor gets the one buffer's metadata.
unfoldable pub parse_messages :
    (Bytes → Option InputMetadata) → List (Option AncillaryData) → Bytes → List FileData
unfolding initial_metadata file_data received_fds
parse_messages decode messages buffer =
    filter_map (file_data (decode buffer)) (received_fds messages)
