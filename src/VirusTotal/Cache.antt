-- ===== src/VirusTotal/Cache.antt =====
-- What a second lookup of the same digest gives.
use keysas.Base.{
  codes, ℕ, ◌-◌, ◌<◌, ◌≡◌, refl, sym, ap, ◌∙◌, true, false, Option, none, some, Text, text_eq_refl,
  ltb, lt→ltb, Option-cases, inl, inr, ◌⊎◌, ◌++◌, ◌∷◌,
}
use keysas.VirusTotal.{
  CacheEntry, VtClient, Answer, found, not_found, limited, failed, count, insert_cache,
  remove_cache, judge, query, lookup,
}

-- The number of detections that the client keeps for an answer, 0 for a reply without that number and for
-- a digest that is not known; `none` where it keeps nothing.
unfoldable pub kept_count : Answer → Option ℕ
unfolding count
kept_count (found (some s)) = some (count s.malicious)
kept_count not_found = some 0
kept_count _ = none

-- Nothing usable is cached for the digest.
unfoldable pub IsMissing : ℕ → Text → VtClient → Type 0
IsMissing now sha256 c =
    (entry : CacheEntry)
    → c.cache sha256 ≡ some entry
    → ltb (now - entry.inserted) c.cache_ttl ≡ false

-- A usable entry answers the lookup.
pub lookup-hit :
    (call : Text → Text → ℕ → Answer) (now : ℕ) (sha256 : Text) (c : VtClient) (entry : CacheEntry)
    → c.cache sha256 ≡ some entry
    → ltb (now - entry.inserted) c.cache_ttl ≡ true
    → lookup call now sha256 c ≡ (
      record {
        pass = ltb entry.detections c.block_threshold;
        detections = entry.detections;
        summary = entry.summary;
      },
      c,
    )
unfolding lookup
lookup-hit call now sha256 c entry h f = rw (h, f, lookup) refl

-- The client after `judge` has the settings it had, and an entry with the verdict.
judge-cached :
    (call : Text → Text → ℕ → Answer) (now later : ℕ) (sha256 : Text) (c : VtClient) (a : Answer)
    (n : ℕ)
    → kept_count a ≡ some n
    → 0 < c.block_threshold
    → later - now < c.cache_ttl
    → lookup call later sha256 (judge now sha256 c a).1 ≡ judge now sha256 c a
unfolding judge insert_cache lookup kept_count
judge-cached call now later sha256 c (found (some s)) n r t h =
    rw (text_eq_refl sha256, lt→ltb _ _ h, lookup) refl
judge-cached call now later sha256 c (found none) n r t h = absurd cc
judge-cached call now later sha256 c not_found n r t h =
    rw (text_eq_refl sha256, lt→ltb _ _ h, lt→ltb _ _ t, lookup) refl
judge-cached call now later sha256 c limited n r t h = absurd cc
judge-cached call now later sha256 c (failed e) n r t h = absurd cc

-- Without a usable entry the API is asked, after an expired entry has been taken out.
lookup-IsMissing :
    (call : Text → Text → ℕ → Answer) (now : ℕ) (sha256 : Text) (c : VtClient)
    → IsMissing now sha256 c
    → (lookup call now sha256 c ≡ query call now sha256 c)
      ⊎ (lookup call now sha256 c ≡ query call now sha256 (remove_cache sha256 c))
unfolding IsMissing lookup
lookup-IsMissing call now sha256 c m = elim (Option-cases (c.cache sha256)) [
  | inl no_entry ↦ inl (rw (no_entry, lookup) refl)
  | inr (entry, cached) ↦ inr (rw (cached, m entry cached, lookup) refl)
]

query-cached :
    (call call' : Text → Text → ℕ → Answer) (now later : ℕ) (sha256 : Text) (c : VtClient) (n : ℕ)
    → kept_count (call (c.api_url ++ b'/' ∷ sha256) c.api_key c.timeout) ≡ some n
    → 0 < c.block_threshold
    → later - now < c.cache_ttl
    → lookup call' later sha256 (query call now sha256 c).1 ≡ query call now sha256 c
unfolding query
query-cached call call' now later sha256 c n r t h =
    judge-cached call' now later sha256 c (call (c.api_url ++ b'/' ∷ sha256) c.api_key c.timeout) n
      r t h

-- Once VirusTotal has reported on a digest that was not cached, a lookup of the digest within the
-- cache's time gives the same verdict and leaves the client as it is, whatever the API would answer
-- then; the threshold is at least 1.
pub lookup-lookup :
    (call call' : Text → Text → ℕ → Answer) (now later : ℕ) (sha256 : Text) (c : VtClient) (n : ℕ)
    → IsMissing now sha256 c
    → kept_count (call (c.api_url ++ b'/' ∷ sha256) c.api_key c.timeout) ≡ some n
    → 0 < c.block_threshold
    → later - now < c.cache_ttl
    → lookup call' later sha256 (lookup call now sha256 c).1 ≡ lookup call now sha256 c
unfolding remove_cache
lookup-lookup call call' now later sha256 c n m r t h =
    elim (lookup-IsMissing call now sha256 c m) [
      | inl e ↦
          ap (λ l. lookup call' later sha256 l.1) e
          ∙ query-cached call call' now later sha256 c n r t h
          ∙ sym e
      | inr e ↦
          ap (λ l. lookup call' later sha256 l.1) e
          ∙ query-cached call call' now later sha256 (remove_cache sha256 c) n r t h
          ∙ sym e
    ]

-- With a threshold of 0, a digest that VirusTotal does not know passes at the first lookup and is
-- blocked at the next one within the cache's time.
pub lookup-unknown_zero :
    (call call' : Text → Text → ℕ → Answer) (now later : ℕ) (sha256 : Text) (c : VtClient)
    → c.cache sha256 ≡ none
    → call (c.api_url ++ b'/' ∷ sha256) c.api_key c.timeout ≡ not_found
    → c.block_threshold ≡ 0
    → later - now < c.cache_ttl
    → ((lookup call now sha256 c).0.pass ≡ true)
      × ((lookup call' later sha256 (lookup call now sha256 c).1).0.pass ≡ false)
unfolding lookup query judge insert_cache
lookup-unknown_zero call call' now later sha256 c absent asked zero_threshold h =
    let summary = codes "unknown to VirusTotal" in
    let c' = insert_cache sha256 0 summary now c in
    let entry : CacheEntry = record { detections = 0; summary = summary; inserted = now } in
    let first : lookup call now sha256 c
        ≡ (record { pass = true; detections = 0; summary = summary }, c') =
      rw (absent, lookup, query, asked, judge) refl in
    let cached : c'.cache sha256 ≡ some entry = rw (text_eq_refl sha256) refl in
    let second = lookup-hit call' later sha256 c' entry cached (lt→ltb _ _ h) in
    (
      ap (λ l. l.0.pass) first,
      ap (λ l. (lookup call' later sha256 l.1).0.pass) first
          ∙ ap (λ l. l.0.pass) second
          ∙ ap (λ n. ltb 0 n) zero_threshold,
    )
