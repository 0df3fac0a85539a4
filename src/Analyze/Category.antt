-- ===== src/Analyze/Category.antt =====
-- `detect_category` of main.rs. The source names a category by a string literal.
use keysas.Base.{
  Bool, ◌||◌, Option, none, some, List, [], ◌∷◌, Text, codes, text_eq, mem_text, contains,
  extension, to_lowercase, Unicode, if◌then◌else◌,
}

pub data Category : Type 0 where
  lnk office pdf pe script archive iso unknown : Category

abbrev unwrap_or_empty : Option Text → Text
unwrap_or_empty none = []
unwrap_or_empty (some t) = t

-- The lowercase extension of a file name, as main.rs and the analyzers compute it.
unfoldable pub lower_extension : Unicode → Text → Text
unfolding extension to_lowercase
lower_extension u filename = to_lowercase u (unwrap_or_empty (extension filename))

abbrev pub office_extensions : List Text
office_extensions =
    codes "doc"
    ∷ codes "docx"
    ∷ codes "xls"
    ∷ codes "xlsx"
    ∷ codes "ppt"
    ∷ codes "pptx"
    ∷ codes "rtf"
    ∷ []

unfoldable pub is_office : Text → Text → Bool
unfolding mem_text contains
is_office ext ft =
    mem_text ext office_extensions
    || (contains ft (codes "msoffice")
        || (contains ft (codes "openxmlformats")
            || (contains ft (codes "ms-excel")
                || (contains ft (codes "ms-powerpoint")
                    || (contains ft (codes "msword") || contains ft (codes "rtf"))))))

is_pe : Text → Text → Bool
unfolding mem_text contains
is_pe ext ft =
    mem_text ext (codes "exe" ∷ codes "dll" ∷ codes "com" ∷ codes "efi" ∷ codes "msi" ∷ [])
    || (contains ft (codes "x-dosexec")
        || (contains ft (codes "x-msdos-program")
            || (contains ft (codes "x-msdownload") || contains ft (codes "x-executable"))))

abbrev pub script_extensions : List Text
script_extensions =
    codes "ps1"
    ∷ codes "vbs"
    ∷ codes "vbe"
    ∷ codes "bat"
    ∷ codes "sh"
    ∷ codes "py"
    ∷ codes "js"
    ∷ codes "hta"
    ∷ codes "jnlp"
    ∷ []

is_archive : Text → Text → Bool
unfolding mem_text contains
is_archive ext ft =
    mem_text ext (
      codes "zip"
      ∷ codes "jar"
      ∷ codes "war"
      ∷ codes "ear"
      ∷ codes "tar"
      ∷ codes "gz"
      ∷ codes "tgz"
      ∷ codes "bz2"
      ∷ codes "tbz2"
      ∷ codes "xz"
      ∷ codes "txz"
      ∷ [])
    || (contains ft (codes "application/zip")
        || (contains ft (codes "application/x-tar")
            || (contains ft (codes "application/gzip")
                || (contains ft (codes "application/x-bzip2")
                    || (contains ft (codes "application/x-xz")
                        || contains ft (codes "application/x-gzip"))))))

is_iso : Text → Text → Bool
unfolding text_eq contains
is_iso ext ft =
    text_eq ext (codes "iso") || (contains ft (codes "iso9660") || contains ft (codes "x-iso"))

-- The first test that holds decides.
unfoldable pub category_of : Text → Text → Category
unfolding is_office is_pe is_archive is_iso mem_text text_eq contains
category_of ext ft =
    if text_eq ext (codes "lnk")
    then lnk
    else if is_office ext ft
    then office
    else if text_eq ext (codes "pdf") || contains ft (codes "pdf")
    then pdf
    else if is_pe ext ft
    then pe
    else if mem_text ext script_extensions
    then script
    else if is_archive ext ft
    then archive
    else if is_iso ext ft
    then iso
    else unknown

unfoldable pub detect_category : Unicode → Text → Text → Category
unfolding lower_extension category_of to_lowercase
detect_category u filename file_type =
    category_of (lower_extension u filename) (to_lowercase u file_type)
