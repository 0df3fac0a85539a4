-- ===== src/Progress.antt =====
-- keysas_lib/src/progress.rs: the progress that a daemon publishes. A method that mutates the record
-- returns the new one. The clock and its formatting are the `time` crate's: the formatted reading is
-- an argument of each method that reads the clock.
pub mod Account
pub mod Steps
mod Examples
use keysas.Base.{
  ℕ, ◌+◌, ◌*◌, ◌/◌, ◌%◌, ◌^◌, Bool, true, false, not, Option, none, some, List, [], ◌∷◌, ◌++◌, Text,
  codes, text_eq, length, is_empty, retain, ◌==◌, if◌then◌else◌,
}

pub data AnalysisStep : Type 0 where
  pending hashing checking_size checking_file_type antivirus_scan yara_scan : AnalysisStep
  specialized_analysis virus_total_scan verifying_signature complete : AnalysisStep
  failed : Text → AnalysisStep

pub record FileProgress : Type 0 where
  pub filename : Text
  pub step : AnalysisStep
  pub step_description : Text
  pub percentage : ℕ  -- u8
  pub start_time : Text
  pub current_time : Text

unfoldable pub description : AnalysisStep → Text
description pending = codes "progress.pending"
description hashing = codes "progress.hashing"
description checking_size = codes "progress.checking_size"
description checking_file_type = codes "progress.checking_file_type"
description antivirus_scan = codes "progress.antivirus_scan"
description yara_scan = codes "progress.yara_scan"
description specialized_analysis = codes "progress.specialized_analysis"
description virus_total_scan = codes "progress.virustotal_scan"
description verifying_signature = codes "progress.verifying_signature"
description complete = codes "progress.complete"
description (failed reason) = reason

unfoldable pub percentage : AnalysisStep → ℕ
percentage pending = 0
percentage hashing = 10
percentage checking_size = 20
percentage checking_file_type = 30
percentage antivirus_scan = 50
percentage yara_scan = 65
percentage specialized_analysis = 75
percentage virus_total_scan = 85
percentage verifying_signature = 93
percentage complete = 100
percentage (failed _) = 0

-- `FileProgress::new` and `FileProgress::update_step`
unfoldable pub new_file : Text → Text → FileProgress
new_file now filename = record {
  filename = filename;
  step = pending;
  step_description = codes "progress.pending";
  percentage = 0;
  start_time = now;
  current_time = now;
}

unfoldable pub update_file_step : Text → AnalysisStep → ℕ → FileProgress → FileProgress
unfolding description
update_file_step now step percent f = record f {
  step = step;
  percentage = percent;
  step_description = description step;
  current_time = now;
}

-- The counters are `usize`, of 64 bits.
pub record DaemonProgress : Type 0 where
  pub daemon_name : Text
  pub total_files : ℕ
  pub processed_files : ℕ
  pub failed_files : ℕ
  pub current_file : Option FileProgress
  pub queue : List Text
  pub completed : List Text
  pub is_processing : Bool

abbrev pub usize : ℕ → ℕ
usize n = n % 2 ^ 64

unfoldable pub new : Text → DaemonProgress
new daemon_name = record {
  daemon_name = daemon_name;
  total_files = 0;
  processed_files = 0;
  failed_files = 0;
  current_file = none;
  queue = [];
  completed = [];
  is_processing = false;
}

unfoldable pub add_files_to_queue : List Text → DaemonProgress → DaemonProgress
add_files_to_queue files p =
    let queue = p.queue ++ files in
    record p {
      queue = queue;
      total_files = usize (usize (length queue + p.processed_files) + p.failed_files);
    }

unfoldable pub start_next_file : Text → Text → DaemonProgress → DaemonProgress
unfolding new_file
start_next_file now filename p = record p {
  current_file = some (new_file now filename);
  queue = retain (λ f. not (text_eq f filename)) p.queue;
  is_processing = true;
}

unfoldable pub update_current_step : Text → AnalysisStep → DaemonProgress → DaemonProgress
unfolding percentage update_file_step
update_current_step now step p = elim p.current_file [
  | none ↦ p
  | some current ↦ record p {
    current_file = some (update_file_step now step (percentage step) current);
  }
]

-- The file has been taken out: count it, and stop processing once nothing is queued.
count_file : Bool → FileProgress → DaemonProgress → DaemonProgress
count_file true current p = record p {
  processed_files = usize (p.processed_files + 1);
  completed = p.completed ++ current.filename ∷ [];
}
count_file false current p = record p { failed_files = usize (p.failed_files + 1) }

settle : DaemonProgress → DaemonProgress
settle p = if is_empty p.queue then record p { is_processing = false } else p

unfoldable pub complete_current_file : Bool → DaemonProgress → DaemonProgress
unfolding count_file settle
complete_current_file success p = elim p.current_file [
  | none ↦ p
  | some current ↦ settle (count_file success current (record p { current_file = none }))
]

-- `as u8` keeps the low eight bits.
unfoldable pub get_overall_percentage : DaemonProgress → ℕ
get_overall_percentage p =
    if p.total_files == 0
    then 0
    else usize (usize (p.processed_files + p.failed_files) * 100) / p.total_files % 256

-- The calls of `ProgressTracker`, as a daemon makes them. Each runs to its end under the mutex.
pub data Call : Type 0 where
  add_files : List Text → Call
  start_file : Text → Text → Call
  update_step : Text → AnalysisStep → Call
  complete_file : Bool → Call

unfoldable pub apply : Call → DaemonProgress → DaemonProgress
unfolding add_files_to_queue start_next_file update_current_step complete_current_file
apply (add_files files) p = add_files_to_queue files p
apply (start_file now filename) p = start_next_file now filename p
apply (update_step now step) p = update_current_step now step p
apply (complete_file success) p = complete_current_file success p

unfoldable pub run : List Call → DaemonProgress → DaemonProgress
run [] p = p
run (c ∷ cs) p = run cs (apply c p)
