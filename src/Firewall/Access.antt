-- ===== src/Firewall/Access.antt =====
-- controller.rs: when a file is authorised.
use keysas.Base.{
  ◌≡◌, ◌↔◌, ◌⊎◌, refl, inl, inr, Bool, true, false, Option, none, some, [], ◌∷◌, Text,
  if◌then◌else◌, Result, ok, arith,
}
use keysas.Firewall.Files.{
  Files, FileUpdateMessage, Answer, is_internal, report_path, validate_file, file_request,
  user_authorize_file, after_validation, after_metadata, authorize_file,
}

module _ (lossy : Text → Text) (fs : Files)
    (request_file_auth : FileUpdateMessage → Result Bool) where
  -- What a file can be authorised on.
  abbrev pub Grounds : Text → Type 0
  Grounds path =
      (is_internal path ≡ true)
      ⊎ ((fs.is_dir path ≡ some true)
          ⊎ ((fs.is_dir path ≡ some false)
              × ((fs.is_file (report_path lossy path) ≡ true)
                  ⊎ (request_file_auth (file_request lossy path) ≡ ok true))))

  abbrev asked : Text → Answer
  asked path = (request_file_auth (file_request lossy path), file_request lossy path ∷ [])

  validated : (path : Text) (report : Bool) → Answer
  validated path report = after_validation (if report then ok true else ok false) (asked path)

  validated_iff :
      (path : Text) (report : Bool)
      → ((validated path report).0 ≡ ok true)
        ↔ ((report ≡ true) ⊎ (request_file_auth (file_request lossy path) ≡ ok true))
  unfolding validated after_validation
  validated_iff path true = ((λ _. inl refl), (λ _. refl))
  validated_iff path false =
      ((λ e. inr e), (λ s. elim s [ inl e ↦ absurd (ground arith) | inr e ↦ e ]))

  metadata_iff :
      (path : Text) (report : Bool) (o : Option Bool)
      → ((after_metadata o (validated path report)).0 ≡ ok true) ↔ (
          (o ≡ some true)
          ⊎ ((o ≡ some false)
              × ((report ≡ true) ⊎ (request_file_auth (file_request lossy path) ≡ ok true))))
  unfolding after_metadata
  metadata_iff path report none = (
    (λ e. absurd (ground arith)),
    (λ s. elim s [ inl e ↦ absurd (ground arith) | inr (e, _) ↦ absurd (ground arith) ]),
  )
  metadata_iff path report (some true) = ((λ _. inl refl), (λ _. refl))
  metadata_iff path report (some false) = (
    (λ e. inr (refl, (validated_iff path report).0 e)),
    (λ s. elim s [ inl e ↦ absurd (ground arith) | inr (_, g) ↦ (validated_iff path report).1 g ]),
  )

  internal_iff :
      (i : Bool) (a : Answer) (G : Type 0)
      → ((a.0 ≡ ok true) ↔ G)
      → ((if i then (ok true, []) else a).0 ≡ ok true) ↔ ((i ≡ true) ⊎ G)
  internal_iff true a G f = ((λ _. inl refl), (λ _. refl))
  internal_iff false a G f =
      ((λ e. inr (f.0 e)), (λ s. elim s [ inl e ↦ absurd (ground arith) | inr g ↦ f.1 g ]))

  -- A file is authorised just when its path lies in the system directory of Windows, it is a directory, or
  -- it is no directory and either some file has the name of its report, whatever is in that file, or the
  -- user agrees. The policy has no part in it.
  pub authorize_file-iff_Grounds :
      (path : Text)
      → ((authorize_file lossy fs request_file_auth (some path)).0 ≡ ok true) ↔ Grounds path
  unfolding authorize_file validate_file user_authorize_file validated
  authorize_file-iff_Grounds path =
      internal_iff (is_internal path) _ _
        (metadata_iff path (fs.is_file (report_path lossy path)) (fs.is_dir path))
