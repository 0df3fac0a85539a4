-- ===== src/Firewall/Files.antt =====
-- controller.rs: the authorisation of a file, and the paths it looks at (on Unix).
use keysas.Base.{
  ℕ, Bool, true, false, not, ◌||◌, Option, none, some, List, [], ◌∷◌, ◌++◌, Text, codes, text_eq,
  retain, is_empty, starts_with, split, join, push, file_name, if◌then◌else◌, Result, ok, err,
  message, library,
}

pub data FileAuthorization : Type 0 where
  pending block allow_read allow_rw : FileAuthorization

unfoldable pub file_as_u8 : FileAuthorization → ℕ
file_as_u8 pending = 0
file_as_u8 block = 1
file_as_u8 allow_read = 2
file_as_u8 allow_rw = 3

pub record FileUpdateMessage : Type 0 where
  pub device : Text
  pub path : Text
  pub authorization : FileAuthorization

pub record FilePolicy : Type 0 where
  pub path : Option Text
  pub auth : FileAuthorization

-- The call of the file filter that `request_file_update` makes.
unfoldable pub request_file_update : FileUpdateMessage → FilePolicy
request_file_update update = record { path = some update.path; auth = update.authorization }

-- The components of a path below its root.
unfoldable pub components : Text → List Text
unfolding text_eq split
components path = retain (λ p. not (is_empty p || text_eq p (codes "."))) (split b'/' path)

without_last : List Text → List Text
without_last [] = []
without_last (p ∷ []) = []
without_last (p ∷ q ∷ ps) = p ∷ without_last (q ∷ ps)

first_component : List Text → Option Text
first_component [] = none
first_component (p ∷ _) = some p

abbrev is_absolute : Text → Bool
is_absolute path = starts_with path (codes "/")

-- `path.parent()` of a path that ends in a normal component, without repeated separators.
unfoldable pub parent : Text → Text
unfolding components without_last join starts_with
parent path =
    let inner = join (codes "/") (without_last (components path)) in
    if is_absolute path then b'/' ∷ inner else inner

-- The component after the root is the system directory of Windows; a relative path has no root.
is_system : Option Text → Bool
unfolding text_eq
is_system none = false
is_system (some c) = text_eq c (codes "System Volume Information")

unfoldable pub is_internal : Text → Bool
unfolding is_system first_component components starts_with
is_internal path = if is_absolute path then is_system (first_component (components path)) else false

-- `.<file name>.krp` beside the file; `lossy` is `to_string_lossy`.
unfoldable pub report_path : (Text → Text) → Text → Text
unfolding parent push file_name
report_path lossy path = elim (file_name path) [
  | none ↦ path
  | some fname ↦ push (parent path) (b'.' ∷ (lossy fname ++ codes ".krp"))
]

-- What the file system says: the metadata's `is_dir`, none on an error, and `is_file`.
pub record Files : Type 0 where
  pub is_dir : Text → Option Bool
  pub is_file : Text → Bool

-- The branch for a path that ends in `.krp` only looks for the file beside it; the calls of parse_report
-- are commented out in the source, and what was found is not used.
unfoldable pub validate_file : (Text → Text) → Files → Text → Result Bool
unfolding report_path
validate_file lossy fs path = if fs.is_file (report_path lossy path) then ok true else ok false

unfoldable pub file_request : (Text → Text) → Text → FileUpdateMessage
file_request lossy path = record { device = []; path = lossy path; authorization = allow_read }

-- The answer, and what the user was asked.
abbrev pub Answer : Type 0
Answer = Result Bool × List FileUpdateMessage

-- `request_file_auth` is the user interface's.
unfoldable pub user_authorize_file :
    (Text → Text) → (FileUpdateMessage → Result Bool) → Text → Answer
unfolding file_request
user_authorize_file lossy request_file_auth path =
    (request_file_auth (file_request lossy path), file_request lossy path ∷ [])

unfoldable pub after_validation : Result Bool → Answer → Answer
after_validation (ok true) asked = (ok true, [])
after_validation (ok false) asked = asked
after_validation (err e) asked = asked

unfoldable pub after_metadata : Option Bool → Answer → Answer
after_metadata none later = (err library, [])
after_metadata (some true) later = (ok true, [])
after_metadata (some false) later = later

unfoldable pub authorize_file :
    (Text → Text) → Files → (FileUpdateMessage → Result Bool) → Option Text → Answer
unfolding is_internal after_metadata after_validation validate_file user_authorize_file
authorize_file lossy fs request_file_auth none = (err (message (codes "Invalid file")), [])
authorize_file lossy fs request_file_auth (some path) =
    if is_internal path
    then (ok true, [])
    else after_metadata (fs.is_dir path) (
        after_validation (validate_file lossy fs path)
          (user_authorize_file lossy request_file_auth path))
