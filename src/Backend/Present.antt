-- ===== src/Backend/Present.antt =====
-- Which files are shown as passed, and which as failed.
use keysas.Base.{
  ◌≡◌, ◌⊎◌, refl, sym, inl, inr, ap, ◌∙◌, Bool, true, false, Bool-cases, Option, none, some, List,
  [], ◌∷◌, ◌++◌, map, Text, All, Some, All-append, All-map, All-filter_map, All-retain, retain,
  filter_map, mem_text, text_eq, text_eq-eq, text_eq_refl, ok, arith,
}
use mathlib.Core.Path.{subst}
use keysas.Backend.Krp.{Krp}
use keysas.Backend.Listing.{
  FileStatus, names, is_listed, is_krp, data_files, krp_files, passed_file, reported_file,
  original_name, blocked_file, status_of_data, status_of_krp, list_files_out,
}

All-mem_more :
    (y : Text) (ys xs : List Text)
    → All (λ x. mem_text x ys ≡ true) xs
    → All (λ x. mem_text x (y ∷ ys) ≡ true) xs
unfolding mem_text
All-mem_more y ys [] hs = tt
All-mem_more y ys (x ∷ xs) (h, hs) = (ground arith, All-mem_more y ys xs hs)

All-mem : (xs : List Text) → All (λ x. mem_text x xs ≡ true) xs
unfolding mem_text
All-mem [] = tt
All-mem (x ∷ xs) = (ground (arith, text_eq_refl x), All-mem_more x xs xs (All-mem xs))

module _ {ℓ} {A : Type ℓ} where
  Some-cons :
      (P : A → Type 0) (keep : Bool) (x : A) (rest : List A)
      → Some P rest
      → Some P (elim keep [ true ↦ x ∷ rest | false ↦ rest ])
  Some-cons P true x rest s = inr s
  Some-cons P false x rest s = s

  Some-append_left : (P : A → Type 0) (xs ys : List A) → Some P xs → Some P (xs ++ ys)
  Some-append_left P [] ys s = absurd s
  Some-append_left P (x ∷ xs) ys (inl h) = inl h
  Some-append_left P (x ∷ xs) ys (inr s) = inr (Some-append_left P xs ys s)

  Some-append_right : (P : A → Type 0) (xs ys : List A) → Some P ys → Some P (xs ++ ys)
  Some-append_right P [] ys s = s
  Some-append_right P (x ∷ xs) ys s = inr (Some-append_right P xs ys s)

module _ {ℓ κ} {A : Type ℓ} {B : Type κ} (P : A → Type 0) (Q : B → Type 0) where
  Some-map : (f : A → B) (xs : List A) → ((x : A) → P x → Q (f x)) → Some P xs → Some Q (map f xs)
  Some-map f [] h s = absurd s
  Some-map f (x ∷ xs) h (inl here) = inl (h x here)
  Some-map f (x ∷ xs) h (inr later) = inr (Some-map f xs h later)

  Some-option :
      (o : Option B) (rest : List B)
      → Some Q rest
      → Some Q (elim o [ none ↦ rest | some y ↦ y ∷ rest ])
  Some-option none rest s = s
  Some-option (some y) rest s = inr s

  Some-filter_map :
      (f : A → Option B) (xs : List A)
      → ((x : A) → P x → (y : B) × (f x ≡ some y) × Q y)
      → Some P xs
      → Some Q (filter_map f xs)
  Some-filter_map f [] h s = absurd s
  Some-filter_map f (x ∷ xs) h (inl here) = let (y, e, q) = h x here in rw (e, filter_map) (inl q)
  Some-filter_map f (x ∷ xs) h (inr later) =
      Some-option (f x) (filter_map f xs) (Some-filter_map f xs h later)

All-weaken : (P Q : Text → Type 0) (xs : List Text) → ((x : Text) → P x → Q x) → All P xs → All Q xs
All-weaken P Q [] f h = tt
All-weaken P Q (x ∷ xs) f (h, hs) = (f x h, All-weaken P Q xs f hs)

All-unit {ℓ} : {A : Type ℓ} (xs : List A) → All (λ x. Unit {0}) xs
All-unit [] = tt
All-unit (x ∷ xs) = (tt, All-unit xs)

-- A name of the list that a filter keeps.
Some-retain :
    (p : Text → Bool) (name : Text) (xs : List Text)
    → mem_text name xs ≡ true
    → p name ≡ true
    → Some (λ x. name ≡ x) (retain p xs)
unfolding mem_text
Some-retain p name [] m h = absurd (ground arith)
Some-retain p name (x ∷ xs) m h = elim (Bool-cases (text_eq name x)) [
  | inl same ↦
      let e = text_eq-eq name x same in
      let kept : p x ≡ true = ap p (sym e) ∙ h in rw (kept, retain) (inl e)
  | inr other ↦
      Some-cons (λ y. name ≡ y) (p x) x (retain p xs) (Some-retain p name xs (ground arith) h)
]

-- What is shown of a directory, of which the entries can be read.
module _ (exists : Text → Bool) (parse : Text → Krp) (directory : Text)
    (entries : List (Option Text)) where
  -- A file of the directory that is not a report by its name.
  abbrev pub IsThere : Text → Type 0
  IsThere name = (mem_text name (names entries) ≡ true) × (is_krp name ≡ false)

  abbrev Honest : FileStatus → Type 0
  Honest s = (s.is_valid ≡ false) ⊎ IsThere s.filename

  data-IsThere : All IsThere (data_files (names entries))
  unfolding data_files
  data-IsThere =
      All-retain (λ x. mem_text x (names entries) ≡ true) IsThere _ (names entries)
        (λ x m h. (m, ground arith)) (All-mem (names entries))

  filename_lem : (name : Text) → (status_of_data exists parse directory name).filename ≡ name
  unfolding status_of_data reported_file passed_file
  filename_lem name = ground arith

  blocked_lem :
      (krp_name : Text) (s : FileStatus)
      → status_of_krp exists parse directory (data_files (names entries)) krp_name ≡ some s
      → s.is_valid ≡ false
  unfolding status_of_krp blocked_file
  blocked_lem krp_name s e = ground arith

  abbrev shown : List FileStatus
  shown =
      map (status_of_data exists parse directory) (data_files (names entries))
      ++ filter_map (status_of_krp exists parse directory (data_files (names entries)))
          (krp_files (names entries))

  list_files_out-shown : list_files_out exists parse directory (some entries) ≡ ok shown
  unfolding list_files_out
  list_files_out-shown = refl

  All-Honest : All Honest shown
  All-Honest =
      All-append Honest _ _
        (All-map Honest IsThere (status_of_data exists parse directory) (data_files (names entries))
          (λ name there. inr (rw (filename_lem name) there)) data-IsThere)
        (All-filter_map Honest (λ x. Unit) _ (krp_files (names entries))
          (λ name s u e. inl (blocked_lem name s e)) (All-unit (krp_files (names entries))))

  Some-data_files :
      (name : Text)
      → IsThere name
      → is_listed name ≡ true
      → Some (λ x. name ≡ x) (data_files (names entries))
  unfolding data_files
  Some-data_files name (m, k) l = Some-retain _ name (names entries) m (ground arith)

  Some-krp_files :
      (name : Text)
      → mem_text name (names entries) ≡ true
      → is_listed name ≡ true
      → is_krp name ≡ true
      → Some (λ x. name ≡ x) (krp_files (names entries))
  unfolding krp_files
  Some-krp_files name m l k = Some-retain _ name (names entries) m (ground arith)

  -- Shown as the file that the report is named for, and as failed.
  abbrev pub Blocked : Text → FileStatus → Type 0
  Blocked name s = (s.filename ≡ original_name name) × (s.is_valid ≡ false)

  alone_lem :
      (name : Text)
      → mem_text (original_name name) (data_files (names entries)) ≡ false
      → (s : FileStatus) × (status_of_krp exists parse directory (data_files (names entries)) name
          ≡ some s)
        × Blocked name s
  unfolding status_of_krp blocked_file
  alone_lem name absent = (
    blocked_file (original_name name) (parse (directory ++ b'/' ∷ name)),
    rw absent refl,
    (refl, refl),
  )

  abbrev Gives : Text → Text → Type 0
  Gives name x =
      (s : FileStatus) × (status_of_krp exists parse directory (data_files (names entries)) x
        ≡ some s)
      × Blocked name s

  -- What becomes of an entry of the directory: it is not listed; or it is a file that is shown; or it is the
  -- report on such a file; or it is a report without its file, and shown as that file, failed.
  abbrev pub IsShown : List FileStatus → Text → Type 0
  IsShown files name =
      (is_listed name ≡ false)
      ⊎ ((is_krp name ≡ false) × Some (λ s. s.filename ≡ name) files)
      ⊎ ((is_krp name ≡ true) × (mem_text (original_name name) (data_files (names entries)) ≡ true))
      ⊎ ((is_krp name ≡ true)
          × (mem_text (original_name name) (data_files (names entries)) ≡ false)
          × Some (Blocked name) files)

  report-IsShown :
      (name : Text)
      → mem_text name (names entries) ≡ true
      → is_listed name ≡ true
      → is_krp name ≡ true
      → IsShown shown name
  report-IsShown name m l k =
      elim (Bool-cases (mem_text (original_name name) (data_files (names entries)))) [
        | inl there ↦ inr (inr (inl (k, there)))
        | inr absent ↦ inr (
            inr (
              inr (
                k,
                absent,
                Some-append_right (Blocked name) _ _ (
                    Some-filter_map (λ x. name ≡ x) (Blocked name) _ (krp_files (names entries))
                      (λ x e. subst (Gives name) e (alone_lem name absent))
                      (Some-krp_files name m l k)),
              )))
      ]

  entry-IsShown : (name : Text) → mem_text name (names entries) ≡ true → IsShown shown name
  entry-IsShown name m = elim (Bool-cases (is_listed name)) [
    | inr hidden ↦ inl hidden
    | inl l ↦ elim (Bool-cases (is_krp name)) [
      | inl k ↦ report-IsShown name m l k
      | inr k ↦ inr (
          inl (
            k,
            Some-append_left (λ s. s.filename ≡ name) _ _
                (Some-map (λ x. name ≡ x) (λ s. s.filename ≡ name)
                  (status_of_data exists parse directory) (data_files (names entries))
                  (λ x e. filename_lem x ∙ sym e) (Some-data_files name (m, k) l)),
          ))
    ]
  ]

  abbrev Complete : List FileStatus → Type 0
  Complete files =
      All (λ s. (s.is_valid ≡ false) ⊎ IsThere s.filename) files
      × All (IsShown files) (names entries)

  -- Of a directory whose entries can be read, what is shown as passed is a file that is there and has not the
  -- extension of a report. Of every entry: a file with a name that is listed is shown; and a listed report
  -- without the file that it is named for is shown as that file, failed, whatever is in the report.
  pub list_files_out-IsThere :
      (files : List FileStatus)
      → list_files_out exists parse directory (some entries) ≡ ok files
      → All (λ s. (s.is_valid ≡ false) ⊎ IsThere s.filename) files
        × All (IsShown files) (names entries)
  list_files_out-IsThere files e =
      let same : shown ≡ files = cc (list_files_out-shown, e) in
      subst Complete same (
        All-Honest,
        All-weaken (λ x. mem_text x (names entries) ≡ true) (IsShown shown) (names entries)
            entry-IsShown (All-mem (names entries)),
      )
