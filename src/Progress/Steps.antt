-- ===== src/Progress/Steps.antt =====
-- What the step calls of the tracker show.
use keysas.Base.{◌≤◌, ◌≡◌, Bool, none, Text, arith}
use keysas.Progress.{
  AnalysisStep, DaemonProgress, percentage, update_current_step, complete_current_file,
}

pub percentage-le : (s : AnalysisStep) → percentage s ≤ 100
unfolding percentage
percentage-le AnalysisStep.pending = omega arith
percentage-le _ = omega arith

pub current_file-complete_current_file :
    (ok : Bool) (p : DaemonProgress) → (complete_current_file ok p).current_file ≡ none
unfolding complete_current_file
current_file-complete_current_file ok p = ground arith

pub update-none :
    (now : Text) (s : AnalysisStep) (p : DaemonProgress)
    → p.current_file ≡ none
    → update_current_step now s p ≡ p
unfolding update_current_step
update-none now s p h = ground arith

-- Once a file has been completed, no step is recorded any more: a call of `update_step` that follows
-- `complete_file` changes nothing, whatever the step.
pub update_current_step-complete_current_file :
    (now : Text) (s : AnalysisStep) (ok : Bool) (p : DaemonProgress)
    → update_current_step now s (complete_current_file ok p) ≡ complete_current_file ok p
update_current_step-complete_current_file now s ok p =
    update-none now s (complete_current_file ok p) (current_file-complete_current_file ok p)
