-- ===== src/Analyze/Scan.antt =====
-- What fails an archive in archive.rs, and where its temporary file lies.
use keysas.Base.{
  ◌≡◌, ◌↔◌, ◌⊎◌, refl, ap, ◌∙◌, Bool, true, false, not, ◌&&◌, ◌||◌, Option, none, some, inl, inr,
  Option-cases, List, [], ◌∷◌, ◌++◌, Text, Bytes, codes, any, Some, any-Some, take, starts_with,
  prefix_of_starts_with, starts_with-append, Unicode, if◌then◌else◌, arith,
}
use mathlib.Core.Path.{subst}
use keysas.Analyze.Findings.{Verdict}
use keysas.Analyze.Verdicts.{false_iff, iff_trans, or_iff}
use keysas.Analyze.Archive

abbrev given : Option Verdict → Bool
given none = false
given (some v) = true

-- Where every verdict of an entry fails the file, the first of them decides.
first_verdict-given :
    {E : Type 0} (entry : E → Option Verdict) (nothing : Text)
    → ((e : E) (v : Verdict) → entry e ≡ some v → v.0 ≡ false)
    → (es : List E)
    → (Archive.first_verdict entry nothing es).0 ≡ not (any (λ e. given (entry e)) es)
unfolding Archive.first_verdict
first_verdict-given entry nothing h [] = refl
first_verdict-given entry nothing h (e ∷ es) = elim (Option-cases (entry e)) [
  | inl n ↦ rw (n, Archive.first_verdict) (first_verdict-given entry nothing h es)
  | inr (v, s) ↦ rw (s, Archive.first_verdict) (h e v s)
]

abbrev pub Begins : Bytes → Bytes → Type 0
Begins buf magic = (after : Bytes) × (buf ≡ magic ++ after)

starts_with-Begins : (buf magic : Bytes) → (starts_with buf magic ≡ true) ↔ Begins buf magic
starts_with-Begins buf magic = (
  prefix_of_starts_with buf magic,
  (λ (after, same). ap (λ b. starts_with b magic) same ∙ starts_with-append magic after),
)

-- The first eight bytes begin with a magic number of the table.
abbrev pub HeadIsExecutable : Option Bytes → Type 0
HeadIsExecutable none = ⊥
HeadIsExecutable (some head) = Some (λ m. Begins (take 8 head) m.0) Archive.exec_magic

has_magic : List (Bytes × Text) → Bytes → Bool
has_magic table buf = any (λ m. starts_with buf m.0) table

abbrev pub is_some : Option Text → Bool
is_some none = false
is_some (some t) = true

is_some-first_magic :
    (table : List (Bytes × Text)) (buf : Bytes)
    → is_some (Archive.first_magic table buf) ≡ has_magic table buf
unfolding Archive.first_magic has_magic
is_some-first_magic [] buf = refl
is_some-first_magic ((magic, desc) ∷ table) buf =
    let ih = is_some-first_magic table buf in ground arith

-- What the loop makes of an entry's content.
content_test : Option Bytes → Bool
content_test none = false
content_test (some head) = has_magic Archive.exec_magic (take 8 head)

content_test-IsExecutable : (h : Option Bytes) → (content_test h ≡ true) ↔ HeadIsExecutable h
unfolding content_test has_magic
content_test-IsExecutable none = ((λ e. ground arith), (λ e. absurd e))
content_test-IsExecutable (some head) =
    any-Some (λ m. starts_with (take 8 head) m.0) (λ m. Begins (take 8 head) m.0)
      (λ m. starts_with-Begins (take 8 head) m.0) Archive.exec_magic

magic_test :
    (buf : Bytes) → is_some (Archive.is_executable_magic buf) ≡ has_magic Archive.exec_magic buf
unfolding Archive.is_executable_magic
magic_test buf = is_some-first_magic Archive.exec_magic buf

-- An answer that is none or a failure, and is a failure just when the test holds.
abbrev Failure : Option Verdict → Type 0
Failure none = Unit
Failure (some v) = v.0 ≡ false

abbrev Answers : Option Verdict → Bool → Type 0
Answers o bad = (given o ≡ bad) × Failure o

described-Answers :
    (o : Option Text) (f : Text → Text) (b : Bool)
    → is_some o ≡ b
    → Answers (elim o [ none ↦ none | some d ↦ some (false, f d) ]) b
described-Answers none f b e = (e, tt)
described-Answers (some d) f b e = (e, refl)

by_content-Answers :
    (name text : Text) (h : Option Bytes)
    → Answers (Archive.by_content name text h) (content_test h)
unfolding Archive.by_content content_test
by_content-Answers name text none = (refl, tt)
by_content-Answers name text (some head) =
    described-Answers (Archive.is_executable_magic (take 8 head))
      (λ desc. text ++ desc ++ codes "): " ++ name) _ (magic_test (take 8 head))

-- The content of an entry that could be opened.
abbrev pub OpenedIsExecutable : Option Archive.OpenEntry → Type 0
OpenedIsExecutable none = ⊥
OpenedIsExecutable (some e) = HeadIsExecutable e.head

opened_test : Option Archive.OpenEntry → Bool
unfolding content_test
opened_test none = false
opened_test (some e) = content_test e.head

opened_test-OpenedIsExecutable :
    (o : Option Archive.OpenEntry) → (opened_test o ≡ true) ↔ OpenedIsExecutable o
unfolding opened_test
opened_test-OpenedIsExecutable none = ((λ e. ground arith), (λ e. absurd e))
opened_test-OpenedIsExecutable (some e) = content_test-IsExecutable e.head

zip_content-Answers :
    (o : Option Archive.OpenEntry) → Answers (Archive.zip_content o) (opened_test o)
unfolding Archive.zip_content opened_test
zip_content-Answers none = (refl, tt)
zip_content-Answers (some e) = by_content-Answers e.name (codes "executable content (") e.head

-- An entry that is no directory, and is encrypted, has the extension of an executable, or begins like one.
abbrev pub IsBadRaw : Unicode → Option Archive.OpenEntry → Option Archive.RawEntry → Type 0
IsBadRaw u o none = ⊥
IsBadRaw u o (some raw) =
    (raw.is_dir ≡ false)
    × ((raw.encrypted ≡ true)
        ⊎ ((Archive.has_exec_extension u raw.name ≡ true) ⊎ OpenedIsExecutable o))

abbrev pub IsBadZip : Unicode → Archive.ZipEntry → Type 0
IsBadZip u e = IsBadRaw u e.open_entry e.raw

guarded-Answers :
    (skip a b : Bool) (s t : Text) (rest : Option Verdict) (c : Bool)
    → Answers rest c
    → Answers
        (if skip then none else if a then some (false, s) else if b then some (false, t) else rest)
        (not skip && (a || (b || c)))
guarded-Answers true a b s t rest c h = (refl, tt)
guarded-Answers false true b s t rest c h = (refl, refl)
guarded-Answers false false true s t rest c h = (refl, refl)
guarded-Answers false false false s t rest c h = h

bad_raw : Unicode → Option Archive.OpenEntry → Option Archive.RawEntry → Bool
unfolding opened_test
bad_raw u o none = false
bad_raw u o (some raw) =
    not raw.is_dir && (raw.encrypted || (Archive.has_exec_extension u raw.name || opened_test o))

abbrev bad_zip : Unicode → Archive.ZipEntry → Bool
bad_zip u e = bad_raw u e.open_entry e.raw

raw_entry : Unicode → Option Archive.OpenEntry → Option Archive.RawEntry → Option Verdict
raw_entry u o r = elim r [ none ↦ none | some raw ↦ Archive.zip_raw u o raw ]

raw_entry-Answers :
    (u : Unicode) (o : Option Archive.OpenEntry) (r : Option Archive.RawEntry)
    → Answers (raw_entry u o r) (bad_raw u o r)
unfolding raw_entry Archive.zip_raw bad_raw
raw_entry-Answers u o none = (refl, tt)
raw_entry-Answers u o (some raw) =
    guarded-Answers raw.is_dir raw.encrypted (Archive.has_exec_extension u raw.name) _ _
      (Archive.zip_content o) (opened_test o) (zip_content-Answers o)

zip_entry-Answers :
    (u : Unicode) (e : Archive.ZipEntry) → Answers (Archive.zip_entry u e) (bad_zip u e)
unfolding Archive.zip_entry raw_entry
zip_entry-Answers u e = raw_entry-Answers u e.open_entry e.raw

and_iff :
    {A B : Type 0} (a b : Bool) → (a ≡ true) ↔ A → (b ≡ true) ↔ B → ((a && b) ≡ true) ↔ (A × B)
and_iff true b f g = ((λ e. (f.0 refl, g.0 e)), (λ (x, y). g.1 y))
and_iff false b f g = ((λ e. ground arith), (λ (x, y). let e = f.1 x in ground arith))

not_iff : (b : Bool) → (not b ≡ true) ↔ (b ≡ false)
not_iff b = ground arith

same_iff : {A : Type 0} → A ↔ A
same_iff = ((λ a. a), (λ a. a))

bad_raw-IsBadRaw :
    (u : Unicode) (o : Option Archive.OpenEntry) (r : Option Archive.RawEntry)
    → (bad_raw u o r ≡ true) ↔ IsBadRaw u o r
unfolding bad_raw
bad_raw-IsBadRaw u o none = ((λ e. ground arith), (λ e. absurd e))
bad_raw-IsBadRaw u o (some raw) =
    and_iff _ _ (not_iff raw.is_dir)
      (or_iff _ _ same_iff (or_iff _ _ same_iff (opened_test-OpenedIsExecutable o)))

bad_zip-IsBadZip : (u : Unicode) (e : Archive.ZipEntry) → (bad_zip u e ≡ true) ↔ IsBadZip u e
bad_zip-IsBadZip u e = bad_raw-IsBadRaw u e.open_entry e.raw

any_same :
    {A : Type 0} (p q : A → Bool) → ((a : A) → p a ≡ q a) → (xs : List A) → any p xs ≡ any q xs
any_same p q h [] = refl
any_same p q h (x ∷ xs) = let a = h x in let b = any_same p q h xs in ground arith

failure : (o : Option Verdict) (v : Verdict) → Failure o → o ≡ some v → v.0 ≡ false
failure o v f e = subst Failure e f

-- A ZIP whose directory can be read is failed just when it has an entry, not a directory, that is encrypted,
-- has the extension of an executable, or begins with the magic number of one. What is in an entry that is
-- itself an archive does not count.
pub zip-verdict :
    (u : Unicode) (es : List Archive.ZipEntry)
    → ((Archive.analyze_zip u (Archive.entries es)).0 ≡ false) ↔ Some (IsBadZip u) es
unfolding Archive.analyze_zip
zip-verdict u es =
    iff_trans
      (false_iff _ (any (bad_zip u) es) (
        first_verdict-given (Archive.zip_entry u) _
          (λ e v. failure (Archive.zip_entry u e) v (zip_entry-Answers u e).1) es
        ∙ ap not (any_same _ (bad_zip u) (λ e. (zip_entry-Answers u e).0) es)))
      (any-Some (bad_zip u) (IsBadZip u) (bad_zip-IsBadZip u) es)

-- The same for a TAR, of which only the files count.
abbrev pub IsBadTar : Unicode → Option Archive.TarFile → Type 0
IsBadTar u none = ⊥
IsBadTar u (some e) =
    (e.regular ≡ true) × ((Archive.has_exec_extension u e.path ≡ true) ⊎ HeadIsExecutable e.head)

bad_tar : Unicode → Option Archive.TarFile → Bool
unfolding content_test
bad_tar u none = false
bad_tar u (some e) = e.regular && (Archive.has_exec_extension u e.path || content_test e.head)

tar_guard :
    (regular a : Bool) (t : Text) (rest : Option Verdict) (c : Bool)
    → Answers rest c
    → Answers
        (if not regular then none else if a then some (false, t) else rest)
        (regular && (a || c))
tar_guard false a t rest c h = (refl, tt)
tar_guard true true t rest c h = (refl, refl)
tar_guard true false t rest c h = h

tar_entry-Answers :
    (u : Unicode) (e : Option Archive.TarFile) → Answers (Archive.tar_entry u e) (bad_tar u e)
unfolding Archive.tar_entry Archive.tar_file bad_tar
tar_entry-Answers u none = (refl, tt)
tar_entry-Answers u (some e) =
    tar_guard e.regular (Archive.has_exec_extension u e.path) _ _ (content_test e.head)
      (by_content-Answers e.path (codes "executable content (") e.head)

bad_tar-IsBadTar : (u : Unicode) (e : Option Archive.TarFile) → (bad_tar u e ≡ true) ↔ IsBadTar u e
unfolding bad_tar
bad_tar-IsBadTar u none = ((λ e. ground arith), (λ e. absurd e))
bad_tar-IsBadTar u (some e) =
    and_iff _ _ same_iff (or_iff _ _ same_iff (content_test-IsExecutable e.head))

-- A TAR stream whose entries can be read is failed just when one is a file that has the extension of an
-- executable or begins like one.
pub tar-verdict :
    (u : Unicode) (cannot : Text) (es : List (Option Archive.TarFile))
    → ((Archive.analyze_tar_stream u cannot (Archive.entries es)).0 ≡ false) ↔ Some (IsBadTar u) es
unfolding Archive.analyze_tar_stream
tar-verdict u cannot es =
    iff_trans
      (false_iff _ (any (bad_tar u) es) (
        first_verdict-given (Archive.tar_entry u) _
          (λ e v. failure (Archive.tar_entry u e) v (tar_entry-Answers u e).1) es
        ∙ ap not (any_same _ (bad_tar u) (λ e. (tar_entry-Answers u e).0) es)))
      (any-Some (bad_tar u) (IsBadTar u) (bad_tar-IsBadTar u) es)
