-- ===== src/Progress/Account.antt =====
-- progress.rs: the counters of the tracker against the files that were announced.
use keysas.Base.{
  ℕ, suc, ◌+◌, ◌*◌, ◌/◌, ◌^◌, ◌≤◌, ◌<◌, ◌≡◌, Bool, true, not, Option, none, some, List, [], ◌∷◌,
  Text, text_eq, mem_text, text_eq_iff, length, retain, length-retain, length-append, arith,
}
use keysas.Progress.{
  AnalysisStep, DaemonProgress, Call, FileProgress, new, add_files_to_queue, start_next_file,
  update_current_step, complete_current_file, get_overall_percentage, apply, run, add_files,
  start_file, update_step, complete_file,
}

-- The file in hand counts for one.
abbrev pub in_hand : Option FileProgress → ℕ
in_hand none = 0
in_hand (some _) = 1

-- The files that were announced cover those queued, in hand and counted, and the counters are small
-- enough for a percentage to be computed.
pub record IsAccounted (p : DaemonProgress) : Type 0 where
  pub covered :
      length p.queue + in_hand p.current_file + p.processed_files + p.failed_files ≤ p.total_files
  pub small : p.total_files < 2 ^ 57

-- How a daemon uses the tracker: it announces files between two files, no more than fit the counters,
-- and starts only files that it has queued.
abbrev pub IsFair : Call → DaemonProgress → Type 0
IsFair (add_files files) p =
    (p.current_file ≡ none)
    × (length p.queue + length files + p.processed_files + p.failed_files < 2 ^ 57)
IsFair (start_file now filename) p = mem_text filename p.queue ≡ true
IsFair (update_step now step) p = Unit
IsFair (complete_file ok) p = Unit

abbrev pub AllFair : List Call → DaemonProgress → Type 0
AllFair [] p = Unit
AllFair (c ∷ cs) p = IsFair c p × AllFair cs (apply c p)

pub IsAccounted-new : (name : Text) → IsAccounted (new name)
unfolding new
IsAccounted-new name = omega arith

-- Taking out every copy of a queued name shortens the queue.
length-retain_mem :
    (name : Text) (queue : List Text)
    → mem_text name queue ≡ true
    → suc (length (retain (λ f. not (text_eq f name)) queue)) ≤ length queue
unfolding mem_text
length-retain_mem name [] h = cc
length-retain_mem name (f ∷ queue) h = ground (
  arith,
  text_eq_iff f name,
  text_eq_iff name f,
  length-retain (λ f. not (text_eq f name)) queue,
  length-retain_mem name queue,
)

add_files-IsAccounted :
    (files : List Text) (p : DaemonProgress)
    → IsFair (add_files files) p
    → IsAccounted (add_files_to_queue files p)
unfolding add_files_to_queue
add_files-IsAccounted files p h = ground (arith, length-append p.queue files)

start_next_file-IsAccounted :
    (now name : Text) (p : DaemonProgress)
    → mem_text name p.queue ≡ true
    → IsAccounted p
    → IsAccounted (start_next_file now name p)
unfolding start_next_file
start_next_file-IsAccounted now name p m h = ground (arith, length-retain_mem name p.queue)

update_current_step-IsAccounted :
    (now : Text) (s : AnalysisStep) (p : DaemonProgress)
    → IsAccounted p
    → IsAccounted (update_current_step now s p)
unfolding update_current_step
update_current_step-IsAccounted now s p h = ground arith

complete_current_file-IsAccounted :
    (ok : Bool) (p : DaemonProgress) → IsAccounted p → IsAccounted (complete_current_file ok p)
unfolding complete_current_file
complete_current_file-IsAccounted ok p h = ground arith

apply-IsAccounted :
    (c : Call) (p : DaemonProgress) → IsFair c p → IsAccounted p → IsAccounted (apply c p)
unfolding apply
apply-IsAccounted (add_files files) p f h = add_files-IsAccounted files p f
apply-IsAccounted (start_file now name) p f h = start_next_file-IsAccounted now name p f h
apply-IsAccounted (update_step now step) p f h = update_current_step-IsAccounted now step p h
apply-IsAccounted (complete_file ok) p f h = complete_current_file-IsAccounted ok p h

pub run-IsAccounted :
    (cs : List Call) (p : DaemonProgress) → AllFair cs p → IsAccounted p → IsAccounted (run cs p)
unfolding run
run-IsAccounted [] p f h = h
run-IsAccounted (c ∷ cs) p f h = run-IsAccounted cs (apply c p) f.1 (apply-IsAccounted c p f.0 h)

quotient-le_hundred : (c t : ℕ) → 0 < t → c ≤ t → c * 100 / t ≤ 100
quotient-le_hundred c t h k = grind arith

percentage-le_hundred : (p : DaemonProgress) → IsAccounted p → get_overall_percentage p ≤ 100
unfolding get_overall_percentage
percentage-le_hundred p h =
    ground (arith, quotient-le_hundred (p.processed_files + p.failed_files) p.total_files)

-- From a new tracker, whatever calls a daemon makes that announces files between two files and
-- starts only queued files, with fewer than 2^57 files, the overall percentage is at most 100 and no
-- more files are counted than were announced.
pub run-percentage_le :
    (name : Text) (cs : List Call)
    → AllFair cs (new name)
    → (get_overall_percentage (run cs (new name)) ≤ 100)
      × ((run cs (new name)).processed_files + (run cs (new name)).failed_files
          ≤ (run cs (new name)).total_files)
run-percentage_le name cs f =
    let h = run-IsAccounted cs (new name) f (IsAccounted-new name) in
    (percentage-le_hundred (run cs (new name)) h, omega (arith, h.covered))
