-- ===== src/VirusTotal/Examples.antt =====
-- A digest that three engines call malicious, and one that VirusTotal does not know.
use keysas.Base.{ℕ, ◌≡◌, refl, true, false, none, some, [], ◌∷◌, Text, codes, arith, text_eq}
use keysas.VirusTotal.{
  VtClient, Answer, found, not_found, limited, Stats, new, count, lookup, query, judge,
  insert_cache,
}
use keysas.VirusTotal.Cache.{kept_count, IsMissing, lookup-lookup}
use keysas.VirusTotal.Truth.{Request, IsBacked, look, serve, pass-IsBacked}

abbrev bad : Stats
bad = record { malicious = some 3; suspicious = none; harmless = some 60; undetected = some 2 }

abbrev knows : Text → Text → ℕ → Answer
knows url key timeout = found (some bad)

abbrev silent : Text → Text → ℕ → Answer
silent url key timeout = limited

abbrev unknown : Text → Text → ℕ → Answer
unknown url key timeout = not_found

abbrev client : ℕ → VtClient
client threshold = record {
  api_key = codes "k";
  api_url = codes "u";
  fail_open = false;
  block_threshold = threshold;
  timeout = 3000;
  cache_ttl = 10;
  cache = λ _. none;
}

missing : IsMissing 5 (codes "d") (client 3)
unfolding IsMissing
missing entry e = cc

lookup-lookup_example :
    lookup silent 9 (codes "d") (lookup knows 5 (codes "d") (client 3)).1
    ≡ lookup knows 5 (codes "d") (client 3)
unfolding count kept_count
lookup-lookup_example =
    lookup-lookup knows silent 5 9 (codes "d") (client 3) 3 missing refl (omega arith) (omega arith)

abbrev first : Request
first = record { now = 5; sha256 = codes "d"; answer = found (some bad) }

abbrev again : Request
again = record { now = 9; sha256 = codes "d"; answer = limited }

passes : (look again (serve (first ∷ []) (new [] [] false 4 3000 10))).0.pass ≡ true
unfolding serve new lookup query judge insert_cache count text_eq
passes = refl

pass-IsBacked_example : IsBacked (again ∷ first ∷ []) (codes "d") 4
pass-IsBacked_example = pass-IsBacked (first ∷ []) again [] [] 4 3000 10 passes
