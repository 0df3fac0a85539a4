-- ===== src/Backend/Listing.antt =====
-- keysas-backend/src/main.rs: the files of the incoming and of the outgoing directory as they are shown,
-- and the state that the daemon sends.
use keysas.Base.{
  ◌-◌, Bool, true, false, not, ◌&&◌, ◌||◌, Option, none, some, List, ◌∷◌, ◌++◌, map, Text, codes,
  is_empty, length, drop, take, ltb, any, ◌==◌, mem_text, starts_with, ends_with, retain,
  filter_map, if◌then◌else◌, Result, ok, library, or_err, ◌>>=◌,
}
use keysas.Backend.Json.{Value, index, as_bool}
use keysas.Backend.Krp.{Krp}

pub record FileStatus : Type 0 where
  pub filename : Text
  pub is_valid : Bool
  pub reason : Option Text
  pub detail : Option Text
  pub checks : Option (List (Text × Bool))
  pub check_details : Option (List (Text × Text))

-- The names of a directory: none where it cannot be read, and none for an entry that is an error or whose
-- name is not UTF-8.
abbrev pub Directory : Type 0
Directory = Option (List (Option Text))

abbrev pub names : List (Option Text) → List Text
names = filter_map (λ o. o)

-- The regular expression `^\.`
unfoldable pub is_dotted : Text → Bool
unfolding starts_with
is_dotted name = starts_with name (codes ".")

-- `^\..+\.krp$`, in which the middle holds no line feed.
unfoldable pub is_hidden_krp : Text → Bool
unfolding is_dotted ends_with
is_hidden_krp name =
    let rest = drop 1 name in
    is_dotted name
    && (ends_with rest (codes ".krp")
        && (ltb 4 (length rest) && not (any (λ c. c == 10) (take (length rest - 4) rest))))

-- A damaged file is reported by a file beside it.
unfoldable pub status_in : Text → FileStatus
unfolding ends_with
status_in name =
    if ends_with name (codes ".ioerror")
    then record {
      filename = take (length name - 8) name;
      is_valid = false;
      reason = some (codes "ioerror");
      detail = none;
      checks = none;
      check_details = none;
    }
    else record {
      filename = name;
      is_valid = true;
      reason = none;
      detail = none;
      checks = none;
      check_details = none;
    }

unfoldable pub list_files_in : Directory → Result (List FileStatus)
unfolding is_dotted status_in
list_files_in directory = do
  entries ← or_err directory library
  ok (map status_in (retain (λ name. not (is_dotted name)) (names entries)))

-- The names that `list_files_out` looks at.
unfoldable pub is_listed : Text → Bool
unfolding is_dotted is_hidden_krp ends_with
is_listed name =
    not (is_dotted name && not (is_hidden_krp name)) && not (ends_with name (codes ".sha256"))

abbrev pub is_krp : Text → Bool
is_krp name = ends_with name (codes ".krp")

unfoldable pub data_files : List Text → List Text
unfolding is_listed ends_with
data_files = retain (λ name. is_listed name && not (is_krp name))

unfoldable pub krp_files : List Text → List Text
unfolding is_listed ends_with
krp_files = retain (λ name. is_listed name && is_krp name)

unfoldable pub passed_file : Text → FileStatus
passed_file name = record {
  filename = name;
  is_valid = true;
  reason = none;
  detail = none;
  checks = none;
  check_details = none;
}

unfoldable pub reported_file : Text → Krp → FileStatus
reported_file name k = record {
  filename = name;
  is_valid = k.is_valid;
  reason = k.reason;
  detail = k.detail;
  checks = k.checks;
  check_details = k.check_details;
}

-- The name without the dot in front and the extension behind.
unfoldable pub original_name : Text → Text
unfolding starts_with
original_name krp_name =
    let without_dot = if starts_with krp_name (codes ".") then drop 1 krp_name else krp_name in
    take (length without_dot - 4) without_dot

or_unknown : Option Text → Option Text
or_unknown none = some (codes "unknown")
or_unknown (some reason) = some reason

unfoldable pub blocked_file : Text → Krp → FileStatus
unfolding or_unknown
blocked_file original k = record {
  filename = original;
  is_valid = false;
  reason = or_unknown k.reason;
  detail = k.detail;
  checks = k.checks;
  check_details = k.check_details;
}

-- The file system: `exists`, and a report read and parsed.
module _ (exists : Text → Bool) (parse : Text → Krp) (directory : Text) where
  unfoldable pub status_of_data : Text → FileStatus
  unfolding reported_file passed_file
  status_of_data name =
      let krp_path = directory ++ codes "/." ++ name ++ codes ".krp" in
      if exists krp_path then reported_file name (parse krp_path) else passed_file name

  unfoldable pub status_of_krp : List Text → Text → Option FileStatus
  unfolding mem_text original_name blocked_file
  status_of_krp data_set krp_name =
      if mem_text (original_name krp_name) data_set
      then none
      else some (blocked_file (original_name krp_name) (parse (directory ++ b'/' ∷ krp_name)))

  unfoldable pub list_files_out : Directory → Result (List FileStatus)
  unfolding status_of_data status_of_krp data_files krp_files
  list_files_out content = do
    entries ← or_err content library
    let data_set = data_files (names entries)
    ok (
        map status_of_data data_set
        ++ filter_map (status_of_krp data_set) (krp_files (names entries)))

-- One round of the loop of main: the part of the state that is computed. A progress file counts only
-- while it says that its daemon is working.
is_processing : Option Value → Bool
is_processing none = false
is_processing (some v) = elim (as_bool (index (codes "is_processing") v)) [
  | none ↦ false
  | some b ↦ b
]

unfoldable pub working : Option Value → Option Value
unfolding is_processing index as_bool
working progress = if is_processing progress then progress else none

abbrev is_some {ℓ} : {A : Type ℓ} → Option A → Bool
is_some none = false
is_some (some a) = true

pub record GuichetState : Type 0 where
  pub name : Text
  pub analysing : Bool
  pub files : List FileStatus

pub record GlobalStatus : Type 0 where
  pub guichetin : GuichetState
  pub guichettransit : Bool
  pub guichetout : GuichetState
  pub has_signed_once : Bool
  pub keypair_generated : Bool
  pub progress_in : Option Value
  pub progress_transit : Option Value

-- What is looked at: the directories, the progress files, and the paths that exist.
pub record Looks : Type 0 where
  pub sas_in : Directory
  pub sas_out : Directory
  pub progress_in : Option Value
  pub progress_transit : Option Value
  pub exists : Text → Bool
  pub parse : Text → Krp

abbrev no_entry : List (Option Text) → Bool
no_entry = is_empty

unfoldable pub global_status : Looks → Result GlobalStatus
unfolding list_files_in list_files_out working
global_status l = do
  entries ← or_err l.sas_in library
  files_in ← list_files_in l.sas_in
  files_out ← list_files_out l.exists l.parse (codes "/var/local/out") l.sas_out
  let progress_in = working l.progress_in
  let progress_transit = working l.progress_transit
  ok (record {
    guichetin = record {
      name = codes "GUICHET-IN";
      analysing = is_some progress_in || not (no_entry entries);
      files = files_in;
    };
    guichettransit = is_some progress_transit;
    guichetout = record {
      name = codes "GUICHET-OUT";
      analysing = l.exists (codes "/run/keysas-out");
      files = files_out;
    };
    has_signed_once = not (l.exists (codes "/usr/share/keysas/neversigned"));
    keypair_generated =
        l.exists (codes "/etc/keysas/file-sign-cl.p8")
        && l.exists (codes "/etc/keysas/file-sign-pq.p8");
    progress_in = progress_in;
    progress_transit = progress_transit;
  })
