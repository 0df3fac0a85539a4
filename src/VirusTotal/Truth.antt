-- ===== src/VirusTotal/Truth.antt =====
-- Where the verdicts of the daemon come from, over any sequence of lookups.
use keysas.Base.{
  clash, if_true, if_false, ℕ, ◌-◌, ◌%◌, ◌^◌, Some, ◌<◌, ◌≡◌, ◌⊎◌, inl, inr, refl, sym, ap, ◌∙◌,
  Bool, true, false, none, some, List, [], ◌∷◌, Text, text_eq, text_eq_iff, ltb, ltb→lt,
  Option-cases, Bool-cases,
}
use keysas.VirusTotal.{
  CacheEntry, VtClient, Stats, Answer, found, not_found, limited, failed, count, summary_of, new,
  insert_cache, remove_cache, Looked, judge, query, lookup,
}
use keysas.VirusTotal.Cache.{kept_count, lookup-hit}
use mathlib.Core.Path.{subst}

-- One lookup: when, of what, and what the API answers if it is asked.
pub record Request : Type 0 where
  pub now : ℕ
  pub sha256 : Text
  pub answer : Answer

abbrev pub look : Request → VtClient → Looked
look r c = lookup (λ url key timeout. r.answer) r.now r.sha256 c

-- The client after a sequence of lookups, the latest first.
unfoldable pub serve : List Request → VtClient → VtClient
serve [] c = c
serve (r ∷ earlier) c = (look r (serve earlier c)).1

-- For one of the answers about the digest the client keeps `n` detections.
abbrev pub Told : List Request → Text → ℕ → Type 0
Told [] sha256 n = ⊥
Told (r ∷ earlier) sha256 n =
    ((r.sha256 ≡ sha256) × (kept_count r.answer ≡ some n)) ⊎ Told earlier sha256 n

-- Every entry of the cache has been told.
pub record IsTruthful (log : List Request) (c : VtClient) : Type 0 where
  pub told :
      (sha256 : Text) (entry : CacheEntry)
      → c.cache sha256 ≡ some entry
      → Told log sha256 entry.detections

-- What of an answer lets a digest pass: a number of malicious verdicts whose low 32 bits are below the
-- threshold; a reply in which that number is missing, or no number, if the threshold is not 0; or that
-- VirusTotal does not know the digest.
abbrev pub Passing : ℕ → Answer → Type 0
Passing threshold (found (some s)) =
    ((n : ℕ) × (s.malicious ≡ some n) × (n % 2 ^ 32 < threshold))
    ⊎ ((s.malicious ≡ none) × (0 < threshold))
Passing threshold not_found = Unit {0}
Passing threshold _ = ⊥

-- One of the answers about the digest lets it pass.
abbrev pub IsBacked : List Request → Text → ℕ → Type 0
IsBacked log sha256 threshold = Some (λ r. (r.sha256 ≡ sha256) × Passing threshold r.answer) log

found-Passing :
    (threshold : ℕ) (s : Stats) → count s.malicious < threshold → Passing threshold (found (some s))
unfolding count
found-Passing threshold s small = elim (Option-cases s.malicious) [
  | inl missing ↦ inr (missing, subst (λ o. count o < threshold) missing small)
  | inr (n, given) ↦ inl (n, given, subst (λ o. count o < threshold) given small)
]

kept-Passing :
    (threshold n : ℕ) (a : Answer) → kept_count a ≡ some n → n < threshold → Passing threshold a
unfolding kept_count
kept-Passing threshold n (found (some s)) h small =
    let same : count s.malicious ≡ n = cc h in
    found-Passing threshold s (subst (λ k. k < threshold) (sym same) small)
kept-Passing threshold n not_found h small = tt
kept-Passing threshold n (found none) h small = absurd (cc h)
kept-Passing threshold n limited h small = absurd (cc h)
kept-Passing threshold n (failed e) h small = absurd (cc h)

Told-IsBacked :
    (log : List Request) (sha256 : Text) (n threshold : ℕ)
    → Told log sha256 n
    → n < threshold
    → IsBacked log sha256 threshold
Told-IsBacked [] sha256 n threshold h small = absurd h
Told-IsBacked (r ∷ log) sha256 n threshold (inl (same, kept)) small =
    inl (same, kept-Passing threshold n r.answer kept small)
Told-IsBacked (r ∷ log) sha256 n threshold (inr h) small =
    inr (Told-IsBacked log sha256 n threshold h small)

weaken :
    (r : Request) (log : List Request) (c : VtClient) → IsTruthful log c → IsTruthful (r ∷ log) c
weaken r log c t = record { told = λ sha256 entry e. inr (t.told sha256 entry e) }

told-insert :
    (r : Request) (log : List Request) (c : VtClient) (n : ℕ) (summary : Text)
    → IsTruthful log c
    → kept_count r.answer ≡ some n
    → IsTruthful (r ∷ log) (insert_cache r.sha256 n summary r.now c)
unfolding insert_cache
told-insert r log c n summary t h = record {
  told = λ sha256 entry e. elim (Bool-cases (text_eq sha256 r.sha256)) [
    | inl same ↦
        let new_entry : CacheEntry = record {
          detections = n;
          summary = summary;
          inserted = r.now;
        } in
        let e1 : some new_entry ≡ some entry = if_true (text_eq sha256 r.sha256) _ _ e same in
        let e2 : new_entry ≡ entry = cc e1 in
        inl (sym ((text_eq_iff sha256 r.sha256).0 same), h ∙ ap (λ k. some k.detections) e2)
    | inr other ↦ inr (t.told sha256 entry (if_false (text_eq sha256 r.sha256) _ _ e other))
  ];
}

told-remove :
    (sha256 : Text) (log : List Request) (c : VtClient)
    → IsTruthful log c
    → IsTruthful log (remove_cache sha256 c)
unfolding remove_cache
told-remove sha256 log c t = record {
  told = λ k entry e. elim (Bool-cases (text_eq k sha256)) [
    | inl same ↦
        let e1 : none ≡ some entry = if_true (text_eq k sha256) _ _ e same in absurd (cc e1)
    | inr other ↦ t.told k entry (if_false (text_eq k sha256) _ _ e other)
  ];
}

told-judge :
    (now : ℕ) (sha256 : Text) (a : Answer) (log : List Request) (c : VtClient)
    → IsTruthful log c
    → IsTruthful (record { now = now; sha256 = sha256; answer = a } ∷ log) (judge now sha256 c a).1
unfolding judge kept_count
told-judge now sha256 (found (some s)) log c t =
    told-insert (record { now = now; sha256 = sha256; answer = found (some s) }) log c
      (count s.malicious) (summary_of s) t refl
told-judge now sha256 (found none) log c t = weaken _ log c t
told-judge now sha256 not_found log c t =
    told-insert (record { now = now; sha256 = sha256; answer = not_found }) log c 0 _ t refl
told-judge now sha256 limited log c t = weaken _ log c t
told-judge now sha256 (failed e) log c t = weaken _ log c t

-- A lookup keeps the cache truthful.
look-IsTruthful :
    (r : Request) (log : List Request) (c : VtClient)
    → IsTruthful log c
    → IsTruthful (r ∷ log) (look r c).1
unfolding lookup query
look-IsTruthful r log c t = elim (Option-cases (c.cache r.sha256)) [
  | inl absent ↦ rw (absent, lookup) (told-judge r.now r.sha256 r.answer log c t)
  | inr (entry, cached) ↦ elim (Bool-cases (ltb (r.now - entry.inserted) c.cache_ttl)) [
    | inl valid ↦ rw (cached, lookup, valid) (weaken r log c t)
    | inr expired ↦
        rw (cached, lookup, expired)
          (told-judge r.now r.sha256 r.answer log (remove_cache r.sha256 c)
            (told-remove r.sha256 log c t))
  ]
]

IsBacked-judge :
    (now : ℕ) (sha256 : Text) (a : Answer) (log : List Request) (c : VtClient)
    → c.fail_open ≡ false
    → (judge now sha256 c a).0.pass ≡ true
    → IsBacked (record { now = now; sha256 = sha256; answer = a } ∷ log) sha256 c.block_threshold
unfolding judge kept_count
IsBacked-judge now sha256 (found (some s)) log c f p =
    inl (refl, found-Passing c.block_threshold s (ltb→lt _ _ p))
IsBacked-judge now sha256 (found none) log c f p = absurd (clash f p)
IsBacked-judge now sha256 not_found log c f p = inl (refl, tt)
IsBacked-judge now sha256 limited log c f p = absurd (clash f p)
IsBacked-judge now sha256 (failed e) log c f p = absurd (clash f p)

removed-fail_open : (sha256 : Text) (c : VtClient) → (remove_cache sha256 c).fail_open ≡ c.fail_open
unfolding remove_cache
removed-fail_open sha256 c = refl

IsBacked-look :
    (r : Request) (log : List Request) (c : VtClient)
    → IsTruthful log c
    → c.fail_open ≡ false
    → (look r c).0.pass ≡ true
    → IsBacked (r ∷ log) r.sha256 c.block_threshold
unfolding lookup query remove_cache
IsBacked-look r log c t f p = elim (Option-cases (c.cache r.sha256)) [
  | inl absent ↦
      let e : look r c ≡ judge r.now r.sha256 c r.answer = rw (absent, lookup) refl in
      IsBacked-judge r.now r.sha256 r.answer log c f (ap (λ l. l.0.pass) (sym e) ∙ p)
  | inr (entry, cached) ↦ elim (Bool-cases (ltb (r.now - entry.inserted) c.cache_ttl)) [
    | inl valid ↦
        let e = lookup-hit (λ url key timeout. r.answer) r.now r.sha256 c entry cached valid in
        inr (
          Told-IsBacked log r.sha256 entry.detections c.block_threshold
            (t.told r.sha256 entry cached) (ltb→lt _ _ (ap (λ l. l.0.pass) (sym e) ∙ p)))
    | inr expired ↦
        let c' = remove_cache r.sha256 c in
        let e : look r c ≡ judge r.now r.sha256 c' r.answer = rw (cached, lookup, expired) refl in
        IsBacked-judge r.now r.sha256 r.answer log c' (removed-fail_open r.sha256 c ∙ f)
          (ap (λ l. l.0.pass) (sym e) ∙ p)
  ]
]

-- The settings stay.
abbrev settings : VtClient → Bool × ℕ
settings c = (c.fail_open, c.block_threshold)

settings-judge :
    (now : ℕ) (sha256 : Text) (a : Answer) (c : VtClient)
    → settings (judge now sha256 c a).1 ≡ settings c
unfolding judge insert_cache
settings-judge now sha256 (found (some s)) c = refl
settings-judge now sha256 (found none) c = refl
settings-judge now sha256 not_found c = refl
settings-judge now sha256 limited c = refl
settings-judge now sha256 (failed e) c = refl

settings-look : (r : Request) (c : VtClient) → settings (look r c).1 ≡ settings c
unfolding lookup query remove_cache
settings-look r c = elim (Option-cases (c.cache r.sha256)) [
  | inl absent ↦ rw (absent, lookup) (settings-judge r.now r.sha256 r.answer c)
  | inr (entry, cached) ↦ elim (Bool-cases (ltb (r.now - entry.inserted) c.cache_ttl)) [
    | inl valid ↦ rw (cached, lookup, valid) refl
    | inr expired ↦
        rw (cached, lookup, expired)
          (settings-judge r.now r.sha256 r.answer (remove_cache r.sha256 c))
  ]
]

settings-serve : (log : List Request) (c : VtClient) → settings (serve log c) ≡ settings c
unfolding serve
settings-serve [] c = refl
settings-serve (r ∷ log) c = settings-look r (serve log c) ∙ settings-serve log c

serve-IsTruthful :
    (log : List Request) (api_key api_url : Text) (fail_open : Bool) (threshold timeout ttl : ℕ)
    → IsTruthful log (serve log (new api_key api_url fail_open threshold timeout ttl))
unfolding serve new
serve-IsTruthful [] k u o th ti ttl = record { told = λ sha256 entry e. absurd (cc e) }
serve-IsTruthful (r ∷ log) k u o th ti ttl =
    look-IsTruthful r log (serve log (new k u o th ti ttl)) (serve-IsTruthful log k u o th ti ttl)

-- A client started with `fail_open` off lets a digest pass, after any lookups, only where the API answered
-- about it, now or before, with a number of malicious verdicts whose low 32 bits are below the threshold,
-- that it does not know it, or, if the threshold is not 0, with a JSON reply in which that number is missing.
pub pass-IsBacked :
    (log : List Request) (r : Request) (api_key api_url : Text) (threshold timeout ttl : ℕ)
    → (look r (serve log (new api_key api_url false threshold timeout ttl))).0.pass ≡ true
    → IsBacked (r ∷ log) r.sha256 threshold
unfolding new
pass-IsBacked log r k u th ti ttl p =
    let c = serve log (new k u false th ti ttl) in
    let same = settings-serve log (new k u false th ti ttl) in
    subst (λ n. IsBacked (r ∷ log) r.sha256 n) (ap (λ s. s.1) same)
      (IsBacked-look r log c (serve-IsTruthful log k u false th ti ttl) (ap (λ s. s.0) same) p)
