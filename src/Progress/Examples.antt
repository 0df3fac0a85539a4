-- ===== src/Progress/Examples.antt =====
-- Runs of the tracker.
use keysas.Base.{◌≤◌, ◌+◌, ◌≡◌, refl, true, text_eq, mem_text, List, [], ◌∷◌, codes, arith}
use keysas.Progress.{
  Call, add_files, start_file, update_step, complete_file, AnalysisStep, new, run,
  get_overall_percentage, apply,
}
use keysas.Progress.Account.{run-percentage_le}

abbrev half_way : List Call
half_way =
    add_files (codes "a" ∷ codes "b" ∷ [])
    ∷ start_file (codes "t0") (codes "a")
    ∷ update_step (codes "t1") AnalysisStep.hashing
    ∷ complete_file true
    ∷ []

half_way_percentage : get_overall_percentage (run half_way (new (codes "keysas-in"))) ≡ 50
unfolding run apply new get_overall_percentage text_eq
half_way_percentage = refl

run-percentage_le_example :
    (get_overall_percentage (run half_way (new (codes "keysas-in"))) ≤ 100)
    × ((run half_way (new (codes "keysas-in"))).processed_files
          + (run half_way (new (codes "keysas-in"))).failed_files
        ≤ (run half_way (new (codes "keysas-in"))).total_files)
unfolding run apply new text_eq mem_text
run-percentage_le_example =
    run-percentage_le (codes "keysas-in") half_way ((refl, omega arith), (refl, (tt, (tt, tt))))
