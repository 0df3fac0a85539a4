-- ===== src/VirusTotal.antt =====
-- keysas-core/src/keysas-virustotal: the client with its cache (virustotal.rs) and the daemon's loop
-- (main.rs). HTTP (ureq), JSON and bincode are parameters; instants count nanoseconds.
pub mod Cache
pub mod Truth
mod Examples
use keysas.Base.{
  ℕ, ◌+◌, ◌-◌, ◌*◌, ◌%◌, ◌^◌, Bool, true, false, Option, none, some, List, [], ◌∷◌, ◌++◌, Text,
  Bytes, codes, text_eq, ltb, is_empty, take, decimal, if◌then◌else◌,
}

pub record VtRequest : Type 0 where
  pub sha256 : Text

pub record VtResponse : Type 0 where
  pub pass : Bool
  pub detections : ℕ  -- u32
  pub summary : Text

pub record CacheEntry : Type 0 where
  pub detections : ℕ  -- u32
  pub summary : Text
  pub inserted : ℕ

abbrev pub Cache : Type 0
Cache = Text → Option CacheEntry

pub record VtClient : Type 0 where
  pub api_key : Text
  pub api_url : Text
  pub fail_open : Bool
  pub block_threshold : ℕ  -- u32
  pub timeout : ℕ
  pub cache_ttl : ℕ
  pub cache : Cache

unfoldable pub new : Text → Text → Bool → ℕ → ℕ → ℕ → VtClient
new api_key api_url fail_open block_threshold timeout_ms cache_ttl_secs = record {
  api_key = api_key;
  api_url = api_url;
  fail_open = fail_open;
  block_threshold = block_threshold;
  timeout = timeout_ms * 10 ^ 6;
  cache_ttl = cache_ttl_secs * 10 ^ 9;
  cache = λ _. none;
}

-- What `as_u64` gives of each count of the reply's statistics.
pub record Stats : Type 0 where
  pub malicious : Option ℕ  -- u64
  pub suspicious : Option ℕ  -- u64
  pub harmless : Option ℕ  -- u64
  pub undetected : Option ℕ  -- u64

-- How a call of the API ends: a reply (none where its body is not JSON), 404, 429, or another error
-- with its text.
pub data Answer : Type 0 where
  found : Option Stats → Answer
  not_found limited : Answer
  failed : Text → Answer

-- `unwrap_or(0) as u32`.
unfoldable pub count : Option ℕ → ℕ
count none = 0
count (some n) = n % 2 ^ 32

-- The sum of four `u32`, which wraps in a release build.
total_of : Stats → ℕ
unfolding count
total_of s =
    (((count s.malicious + count s.suspicious) % 2 ^ 32 + count s.harmless) % 2 ^ 32
      + count s.undetected)
    % 2 ^ 32

unfoldable pub summary_of : Stats → Text
unfolding total_of count
summary_of s =
    if ltb 0 (count s.malicious)
    then decimal (count s.malicious)
      ++ codes " malicious, "
      ++ decimal (count s.suspicious)
      ++ codes " suspicious / "
      ++ decimal (total_of s)
      ++ codes " engines"
    else if ltb 0 (count s.suspicious)
    then decimal (count s.suspicious)
      ++ codes " suspicious / "
      ++ decimal (total_of s)
      ++ codes " engines"
    else codes "clean (" ++ decimal (total_of s) ++ codes " engines)"

unfoldable pub insert_cache : Text → ℕ → Text → ℕ → VtClient → VtClient
insert_cache sha256 detections summary now c = record c {
  cache = λ k.
      if text_eq k sha256
      then some (record { detections = detections; summary = summary; inserted = now })
      else c.cache k;
}

unfoldable pub remove_cache : Text → VtClient → VtClient
remove_cache sha256 c = record c { cache = λ k. if text_eq k sha256 then none else c.cache k }

-- The three results of a lookup, and the client after it.
abbrev pub Looked : Type 0
Looked = VtResponse × VtClient

-- What the client makes of the answer of the API.
unfoldable pub judge : ℕ → Text → VtClient → Answer → Looked
judge now sha256 c (found (some s)) = (
  record {
    pass = ltb (count s.malicious) c.block_threshold;
    detections = count s.malicious;
    summary = summary_of s;
  },
  insert_cache sha256 (count s.malicious) (summary_of s) now c,
)
judge now sha256 c (found none) =
    (record { pass = c.fail_open; detections = 0; summary = codes "VT response parse error" }, c)
judge now sha256 c not_found = (
  record { pass = true; detections = 0; summary = codes "unknown to VirusTotal" },
  insert_cache sha256 0 (codes "unknown to VirusTotal") now c,
)
judge now sha256 c limited =
    (record { pass = c.fail_open; detections = 0; summary = codes "VT rate limit exceeded" }, c)
judge now sha256 c (failed e) =
    (record { pass = c.fail_open; detections = 0; summary = codes "VT unreachable: " ++ e }, c)

-- `call url key timeout` is the API. `duration_since` stops at 0.
unfoldable pub query : (Text → Text → ℕ → Answer) → ℕ → Text → VtClient → Looked
query call now sha256 c = judge now sha256 c (call (c.api_url ++ b'/' ∷ sha256) c.api_key c.timeout)

unfoldable pub lookup : (Text → Text → ℕ → Answer) → ℕ → Text → VtClient → Looked
lookup call now sha256 c = elim (c.cache sha256) [
  | none ↦ query call now sha256 c
  | some entry ↦
      if ltb (now - entry.inserted) c.cache_ttl
      then (
        record {
          pass = ltb entry.detections c.block_threshold;
          detections = entry.detections;
          summary = entry.summary;
        },
        c,
      )
      else query call now sha256 (remove_cache sha256 c)
]

-- One turn of the daemon's loop: whether a connection comes, the bytes read from it (none on an error),
-- the answers of the API and the clock.
pub record Turn : Type 0 where
  pub accepted : Bool
  pub received : Option Bytes
  pub call : Text → Text → ℕ → Answer
  pub now : ℕ

module _ (decode : Bytes → Option VtRequest) (encode : VtResponse → Option Bytes) where
  answer_request : Turn → Option VtRequest → VtClient → Option Bytes × VtClient
  answer_request t none c =
      (encode (record { pass = true; detections = 0; summary = codes "decode error" }), c)
  answer_request t (some req) c =
      let looked = lookup t.call t.now req.sha256 c in (encode looked.0, looked.1)

  -- What is written back, if anything, and the client. The buffer has 256 bytes.
  unfoldable pub turn : Turn → VtClient → Option Bytes × VtClient
  unfolding answer_request
  turn t c =
      if t.accepted
      then elim t.received [
        | none ↦ (none, c)
        | some bytes ↦
            if is_empty bytes then (none, c) else answer_request t (decode (take 256 bytes)) c
      ]
      else (none, c)
