-- ===== src/Transit/FileType.antt =====
-- `is_likely_text`, `check_is_extension_allowed` and `get_extension`. The recognition of magic numbers is
-- the crate infer's: `get`.
use keysas.Base.{
  Bool, true, false, not, ◌&&◌, ◌||◌, Option, none, some, List, [], ◌∷◌, Text, Bytes, codes,
  text_eq, mem_text, starts_with, is_empty, any, take, is_utf8, extension, Unicode, to_lowercase,
  ◌==◌, if◌then◌else◌,
}
use keysas.Transit.Metadata.{Configuration}

-- What `infer::get` returns: `info.extension()`, and `info.to_string()`.
pub record Kind : Type 0 where
  pub extension : Text
  pub description : Text

-- The sample is the first 8192 bytes.
unfoldable pub is_likely_text : Bytes → Bool
unfolding is_utf8
is_likely_text buf =
    if is_empty buf
    then true
    else (let sample = take 8192 buf in not (any (λ b. b == 0) sample) && is_utf8 sample)

abbrev pub zip_based_extensions : List Text
zip_based_extensions =
    codes "jar"
    ∷ codes "war"
    ∷ codes "ear"
    ∷ codes "docx"
    ∷ codes "xlsx"
    ∷ codes "pptx"
    ∷ codes "odt"
    ∷ codes "ods"
    ∷ codes "odp"
    ∷ codes "epub"
    ∷ codes "apk"
    ∷ []

abbrev pub unwrap_or_empty : Option Text → Text
unwrap_or_empty none = []
unwrap_or_empty (some t) = t

unfoldable pub declared_extension : Unicode → Text → Text
unfolding extension to_lowercase
declared_extension u filename = to_lowercase u (unwrap_or_empty (extension filename))

is_kdbx : Text → Bytes → Configuration → Bool
is_kdbx declared_ext buf conf =
    text_eq declared_ext (codes "kdbx")
    && (mem_text (codes "kdbx") conf.magic_list
        && (starts_with buf (0x03 ∷ 0xd9 ∷ 0xa2 ∷ 0x9a ∷ [])
            || starts_with buf (0x03 ∷ 0xd9 ∷ 0xa2 ∷ 0x9b ∷ [])))

is_zip_based : Text → Text → Configuration → Bool
is_zip_based magic_ext declared_ext conf =
    text_eq magic_ext (codes "zip")
    && (mem_text declared_ext zip_based_extensions && mem_text declared_ext conf.magic_list)

unfoldable pub check_is_extension_allowed :
    (Bytes → Option Kind) → Unicode → Bytes → Text → Configuration → Bool
unfolding is_kdbx is_zip_based
check_is_extension_allowed get u buf filename conf =
    let declared_ext = declared_extension u filename in
    elim (get buf) [
      | some info ↦
          if mem_text info.extension conf.magic_list
          then true
          else if is_zip_based info.extension declared_ext conf
          then true
          else false
      | none ↦ if is_kdbx declared_ext buf conf then true else is_likely_text buf
    ]

unfoldable pub get_extension : (Bytes → Option Kind) → Bytes → Text
get_extension get buf = elim (get buf) [ some info ↦ info.description | none ↦ [] ]
