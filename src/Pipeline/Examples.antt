-- ===== src/Pipeline/Examples.antt =====
-- The clean file of keysas-transit's examples, seen by keysas-out.
use keysas.Base.{◌≡◌, ◌↔◌, refl, true, false, codes}
use keysas.Out.{Configuration, fail_only, is_accepted, recheck}
use keysas.Transit.Verdict.{IsClean}
use keysas.Transit.Examples.{e, conf, md, checked_md, no_kind, u, fresh, checks_run}
use keysas.Pipeline.{received, accepted-iff_IsClean}

abbrev strict : Configuration
strict = record { sas_out = codes "/sas"; yara_clean = true; krp_mode = fail_only }

accepted-iff_IsClean_example :
    (is_accepted strict (recheck (codes "d") (received checked_md)) ≡ true) ↔ (
      IsClean no_kind u e conf (codes "a.txt") (codes "d")
      × (codes "d" ≡ codes "d")
      × (false ≡ false))
accepted-iff_IsClean_example =
    accepted-iff_IsClean no_kind u e conf strict (codes "d") md checked_md fresh checks_run refl
