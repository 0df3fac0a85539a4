-- ===== src/Pki/Written.antt =====
-- keysas_hybrid_keypair.rs: the four files of a saved key pair.
use keysas.Base.{
  ◌≡◌, refl, sym, ap, ◌∙◌, false, some, Text, Bytes, codes, push, ◌++◌, text_eq, text_eq_iff,
  if◌then◌else◌, ok, ensure-eq-ok, ok-injective,
}
use keysas.Pki.Store.{Disk, Files, write_file, read_file}

-- Two paths lead to different files.
abbrev pub Apart : Disk → Text → Text → Type 0
Apart d p q = text_eq (d.resolve p) (d.resolve q) ≡ false

abbrev pub cl_key : Text → Text → Text
cl_key dir name = push dir (name ++ codes "-cl.p8")

abbrev pub pq_key : Text → Text → Text
pq_key dir name = push dir (name ++ codes "-pq.p8")

abbrev pub cl_cert : Text → Text → Text
cl_cert dir name = push dir (name ++ codes "-cl.pem")

abbrev pub pq_cert : Text → Text → Text
pq_cert dir name = push dir (name ++ codes "-pq.pem")

-- The four paths of a saved pair lead to four files.
abbrev pub FourFiles : Disk → Text → Text → Text → Type 0
FourFiles d keys certs name =
    Apart d (cl_key keys name) (pq_key keys name)
    × Apart d (cl_key keys name) (cl_cert certs name)
    × Apart d (cl_key keys name) (pq_cert certs name)
    × Apart d (pq_key keys name) (cl_cert certs name)
    × Apart d (pq_key keys name) (pq_cert certs name)
    × Apart d (cl_cert certs name) (pq_cert certs name)

module _ (d : Disk) where
  written :
      (p q : Text) (b : Bytes) (files after : Files)
      → write_file d p b files ≡ ok after
      → d.resolve q ≡ d.resolve p
      → read_file d q after ≡ some b
  unfolding write_file read_file
  written p q b files after e same =
      let (_, e1) = ensure-eq-ok (d.writes (d.resolve p)) _ _ e in
      let hit : (if text_eq (d.resolve q) (d.resolve p) then some b else files (d.resolve q))
          ≡ some b =
        rw ((text_eq_iff (d.resolve q) (d.resolve p)).1 same) refl in
      ap (λ f. f (d.resolve q)) (sym (ok-injective e1)) ∙ hit

  untouched :
      (p q : Text) (b : Bytes) (files after : Files)
      → write_file d p b files ≡ ok after
      → Apart d q p
      → read_file d q after ≡ read_file d q files
  unfolding write_file read_file
  untouched p q b files after e apart =
      let (_, e1) = ensure-eq-ok (d.writes (d.resolve p)) _ _ e in
      let miss : (if text_eq (d.resolve q) (d.resolve p) then some b else files (d.resolve q))
          ≡ files (d.resolve q) =
        rw apart refl in
      ap (λ f. f (d.resolve q)) (sym (ok-injective e1)) ∙ miss

  -- After four writes to distinct files, each holds what was written to it.
  pub four_writes :
      (keys certs name : Text) (c1 c2 c3 c4 : Bytes) (f0 f1 f2 f3 f4 : Files)
      → FourFiles d keys certs name
      → write_file d (cl_key keys name) c1 f0 ≡ ok f1
      → write_file d (pq_key keys name) c2 f1 ≡ ok f2
      → write_file d (cl_cert certs name) c3 f2 ≡ ok f3
      → write_file d (pq_cert certs name) c4 f3 ≡ ok f4
      → (read_file d (cl_key keys name) f4 ≡ some c1)
        × (read_file d (pq_key keys name) f4 ≡ some c2)
        × (read_file d (cl_cert certs name) f4 ≡ some c3)
        × (read_file d (pq_cert certs name) f4 ≡ some c4)
  four_writes keys certs name c1 c2 c3 c4 f0 f1 f2 f3 f4 (a12, a13, a14, a23, a24, a34) w1 w2 w3
        w4 =
      let p1 = cl_key keys name in
      let p2 = pq_key keys name in
      let p3 = cl_cert certs name in
      let p4 = pq_cert certs name in
      (
        untouched p4 p1 c4 f3 f4 w4 a14
            ∙ untouched p3 p1 c3 f2 f3 w3 a13
            ∙ untouched p2 p1 c2 f1 f2 w2 a12
            ∙ written p1 p1 c1 f0 f1 w1 refl,
        untouched p4 p2 c4 f3 f4 w4 a24
            ∙ untouched p3 p2 c3 f2 f3 w3 a23
            ∙ written p2 p2 c2 f1 f2 w2 refl,
        untouched p4 p3 c4 f3 f4 w4 a34 ∙ written p3 p3 c3 f2 f3 w3 refl,
        written p4 p4 c4 f3 f4 w4 refl,
      )

  -- Two paths that lead to one file are read alike.
  pub read_file_cong :
      (p q : Text) (files : Files)
      → d.resolve p ≡ d.resolve q
      → read_file d p files ≡ read_file d q files
  unfolding read_file
  read_file_cong p q files same = ap files same
