-- ===== src/Backend/Krp.antt =====
-- keysas-backend/src/main.rs: what is shown of a file's report (parse_krp).
use keysas.Base.{
  ℕ, Bool, true, false, not, ◌&&◌, ◌||◌, Option, none, some, List, [], ◌∷◌, ◌++◌, Text, codes,
  is_empty, filter_map, join, take, ltb, decimal, if◌then◌else◌,
}
use keysas.Backend.Json.{Value, index, as_bool, as_str, as_u64, as_array}

-- The two maps have each key once.
pub record Krp : Type 0 where
  pub is_valid : Bool
  pub reason : Option Text
  pub detail : Option Text
  pub checks : Option (List (Text × Bool))
  pub check_details : Option (List (Text × Text))

abbrev unwrap_or {ℓ} : {A : Type ℓ} → A → Option A → A
unwrap_or default none = default
unwrap_or default (some a) = a

-- The fields of the report, with their defaults.
unfoldable pub bool_of : Bool → Text → Value → Bool
unfolding index as_bool
bool_of default key v = unwrap_or default (as_bool (index key v))

unfoldable pub str_of : Text → Value → Text
unfolding index as_str
str_of key v = unwrap_or [] (as_str (index key v))

unfoldable pub u64_of : Text → Value → ℕ
unfolding index as_u64
u64_of key v = unwrap_or 0 (as_u64 (index key v))

-- `v[key].as_bool() == Some(false)`
is_false : Option Bool → Bool
is_false (some false) = true
is_false _ = false

is_true : Option Bool → Bool
is_true (some true) = true
is_true _ = false

unfoldable pub says_false : Text → Value → Bool
unfolding index as_bool is_false
says_false key v = is_false (as_bool (index key v))

unfoldable pub says_true : Text → Value → Bool
unfolding index as_bool is_true
says_true key v = is_true (as_bool (index key v))

unfoldable pub av_list : Value → List Value
unfolding index as_array
av_list report = unwrap_or [] (as_array (index (codes "av") report))

unfoldable pub av_ok : Value → Bool
unfolding av_list
av_ok report = is_empty (av_list report)

abbrev detail_if : Bool → Text → Text → List (Text × Text)
detail_if shown key text = if shown then (key, text) ∷ [] else []

unfoldable pub av_details : Value → List (Text × Text)
unfolding av_ok join as_str
av_details report =
    detail_if (not (av_ok report)) (codes "av")
      (join (codes ", ") (filter_map as_str (av_list report)))

unfoldable pub type_details : Value → Value → List (Text × Text)
unfolding bool_of str_of
type_details meta report =
    detail_if (not (bool_of true (codes "type_allowed") report)) (codes "type")
      (codes "forbidden:" ++ str_of (codes "file_type") meta)

unfoldable pub size_details : Value → List (Text × Text)
unfolding bool_of u64_of decimal
size_details report =
    detail_if (bool_of false (codes "toobig") report) (codes "size")
      (codes "too_large:" ++ decimal (u64_of (codes "size") report))

unfoldable pub hash_details : Value → List (Text × Text)
unfolding bool_of
hash_details report =
    if bool_of false (codes "corrupted") report
    then (codes "hash", codes "corrupted") ∷ []
    else detail_if (not (bool_of true (codes "is_digest_ok") report)) (codes "hash")
        (codes "digest_mismatch")

-- A specialised analysis that was performed, or that failed.
unfoldable pub was_analysed : Value → Bool
unfolding str_of says_false
was_analysed report =
    not (is_empty (str_of (codes "specialized_analyzer") report))
    || says_false (codes "specialized_pass") report

unfoldable pub analysis_text : Text → Text → Text
analysis_text analyzer sp_summary =
    if is_empty analyzer
    then sp_summary
    else if is_empty sp_summary
    then analyzer
    else analyzer ++ codes ": " ++ sp_summary

unfoldable pub specialized_details : Value → List (Text × Text)
unfolding was_analysed analysis_text
specialized_details report = detail_if (was_analysed report) (codes "specialized") (
    analysis_text (str_of (codes "specialized_analyzer") report)
      (str_of (codes "specialized_summary") report))

unfoldable pub vt_text : ℕ → Text → Text
unfolding decimal
vt_text vt_detections vt_summary =
    if ltb 0 vt_detections
    then decimal vt_detections ++ codes " détection(s) — " ++ vt_summary
    else vt_summary

unfoldable pub vt_details : Value → List (Text × Text)
unfolding str_of u64_of vt_text
vt_details report =
    let vt_summary = str_of (codes "vt_summary") report in
    detail_if (not (is_empty vt_summary)) (codes "vt")
      (vt_text (u64_of (codes "vt_detections") report) vt_summary)

abbrev check_if : Bool → Text → Bool → List (Text × Bool)
check_if shown key passed = if shown then (key, passed) ∷ [] else []

unfoldable pub checks_of : Value → List (Text × Bool)
unfolding av_ok str_of bool_of was_analysed
checks_of report =
    (codes "av", av_ok report)
    ∷ (codes "yara", is_empty (str_of (codes "yara") report))
    ∷ (codes "type", bool_of true (codes "type_allowed") report)
    ∷ (codes "size", not (bool_of false (codes "toobig") report))
    ∷ (
      codes "hash",
      bool_of true (codes "is_digest_ok") report && not (bool_of false (codes "corrupted") report),
    )
    ∷ (check_if (was_analysed report) (codes "specialized")
          (bool_of true (codes "specialized_pass") report)
        ++ check_if (not (is_empty (str_of (codes "vt_summary") report))) (codes "vt")
            (bool_of true (codes "vt_pass") report))

unfoldable pub details_of : Value → Value → List (Text × Text)
unfolding av_details type_details size_details hash_details specialized_details vt_details
details_of meta report =
    av_details report
    ++ (detail_if (not (is_empty (str_of (codes "yara") report))) (codes "yara")
          (str_of (codes "yara") report)
        ++ (type_details meta report
            ++ (size_details report
                ++ (hash_details report ++ (specialized_details report ++ vt_details report)))))

-- `.as_str().filter(|s| !s.is_empty())`
unfoldable pub non_empty : Option Text → Option Text
non_empty none = none
non_empty (some t) = if is_empty t then none else some t

first_str : List Value → Option Text
unfolding as_str
first_str [] = none
first_str (v ∷ _) = as_str v

-- The primary reason of a failure, and its detail.
unfoldable pub failure : Value → Value → Text × Option Text
unfolding bool_of says_true says_false av_ok str_of non_empty first_str
failure meta report =
    if bool_of false (codes "corrupted") report
    then (codes "corrupted", none)
    else if says_true (codes "toobig") report
    then (codes "toobig", none)
    else if not (bool_of true (codes "is_digest_ok") report)
    then (codes "digest", none)
    else if says_false (codes "type_allowed") report
    then (codes "forbidden", non_empty (as_str (index (codes "file_type") meta)))
    else if not (av_ok report)
    then (codes "antivirus", first_str (av_list report))
    else if not (is_empty (str_of (codes "yara") report))
    then (codes "yara", some (take 80 (str_of (codes "yara") report)))
    else if says_false (codes "specialized_pass") report
    then (codes "specialized", non_empty (as_str (index (codes "specialized_summary") report)))
    else if says_false (codes "vt_pass") report
    then (codes "virustotal", non_empty (as_str (index (codes "vt_summary") report)))
    else (codes "digest", none)

unfoldable pub krp_of : Value → Krp
unfolding checks_of details_of failure
krp_of v =
    let meta = index (codes "metadata") v in
    let report = index (codes "report") meta in
    let is_valid = bool_of true (codes "is_valid") meta in
    let (reason, detail) = failure meta report in
    record {
      is_valid = is_valid;
      reason = if is_valid then none else some reason;
      detail = if is_valid then none else detail;
      checks = some (checks_of report);
      check_details = some (details_of meta report);
    }

-- A report that cannot be read says nothing against the file.
unfoldable pub unread : Krp
unread = record {
  is_valid = true;
  reason = none;
  detail = none;
  checks = none;
  check_details = none;
}

-- `read_to_string` and `from_str`, which may fail.
unfoldable pub parse_krp : (Text → Option Text) → (Text → Option Value) → Text → Krp
unfolding krp_of unread
parse_krp read_to_string from_str krp_path = elim (read_to_string krp_path) [
  | none ↦ unread
  | some content ↦ elim (from_str content) [ none ↦ unread | some v ↦ krp_of v ]
]
