-- ===== src/Firewall/MountPoint.antt =====
-- The mount point that the monitor reads from the output of udisksctl.
use keysas.Base.{
  ℕ, ◌≡◌, refl, sym, ap, ◌∙◌, Bool, true, false, some, [], ◌∷◌, ◌++◌, Text, codes, starts_with,
  HasNo, ◌==◌,
}
use mathlib.Core.List.{append_assoc}
use keysas.Firewall.Mount.{
  trim_start, cut_after, trim_end, after_at, is_dot, non_empty, mount_point_of,
}

-- At the end of a text, what is cut off goes and what is not stays.
trim_end-cut :
    (white : ℕ → Bool) (s t : Text)
    → trim_end white t ≡ []
    → trim_end white (s ++ t) ≡ trim_end white s
unfolding trim_end
trim_end-cut white [] t e = e
trim_end-cut white (c ∷ s) t e = ap (cut_after (white c) c) (trim_end-cut white s t e)

cut_after-cons : (b : Bool) (c d : ℕ) (s : Text) → cut_after b c (d ∷ s) ≡ c ∷ d ∷ s
unfolding cut_after
cut_after-cons true c d s = refl
cut_after-cons false c d s = refl

-- The last character stays where it is not of the kind.
trim_end-keep :
    (white : ℕ → Bool) (s : Text) (c : ℕ)
    → white c ≡ false
    → trim_end white (s ++ c ∷ []) ≡ s ++ c ∷ []
unfolding trim_end cut_after
trim_end-keep white [] c e = rw e refl
trim_end-keep white (d ∷ []) c e =
    ap (cut_after (white d) d) (trim_end-keep white [] c e) ∙ cut_after-cons (white d) d c []
trim_end-keep white (d ∷ x ∷ s) c e =
    ap (cut_after (white d) d) (trim_end-keep white (x ∷ s) c e)
    ∙ cut_after-cons (white d) d x (s ++ c ∷ [])

-- The output: `Mounted <device> at <mount point>.` and a line feed.
abbrev pub printed : Text → Text → Text
printed dev mnt = codes "Mounted " ++ (b'/' ∷ dev ++ (codes " at " ++ (mnt ++ (b'.' ∷ 10 ∷ []))))

after_at-skip :
    (c : ℕ) (s : Text) → starts_with (c ∷ s) (codes " at ") ≡ false → after_at (c ∷ s) ≡ after_at s
unfolding after_at
after_at-skip c s e = rw e refl

after_at-here : (t : Text) → after_at (codes " at " ++ t) ≡ some t
unfolding after_at starts_with
after_at-here t = refl

no_space : (c : ℕ) (s : Text) → (c == 32) ≡ false → starts_with (c ∷ s) (codes " at ") ≡ false
unfolding starts_with
no_space c s e = rw e refl

after_at-device : (dev t : Text) → HasNo 32 dev → after_at (dev ++ (codes " at " ++ t)) ≡ some t
after_at-device [] t h = after_at-here t
after_at-device (c ∷ dev) t (h, hs) =
    after_at-skip c (dev ++ (codes " at " ++ t)) (no_space c (dev ++ (codes " at " ++ t)) h)
    ∙ after_at-device dev t hs

after_at-printed :
    (dev mnt : Text) → HasNo 32 dev → after_at (printed dev mnt) ≡ some (mnt ++ (b'.' ∷ 10 ∷ []))
unfolding after_at starts_with
after_at-printed dev mnt h = after_at-device (b'/' ∷ dev) (mnt ++ (b'.' ∷ 10 ∷ [])) (refl, h)

-- The end of the output is cut off, up to the mount point less its final dots.
module _ (white : ℕ → Bool) (feed : white 10 ≡ true) (dot : white b'.' ≡ false) where
  trim_end-output : (mnt : Text) → trim_end white (mnt ++ (b'.' ∷ 10 ∷ [])) ≡ mnt ++ b'.' ∷ []
  unfolding trim_end
  trim_end-output mnt =
      ap (trim_end white) (sym (append_assoc mnt (b'.' ∷ []) (10 ∷ [])))
      ∙ (trim_end-cut white (mnt ++ b'.' ∷ []) (10 ∷ []) (rw feed refl)
          ∙ trim_end-keep white mnt b'.' dot)

  trim_start-keep : (c : ℕ) (s : Text) → white c ≡ false → trim_start white (c ∷ s) ≡ c ∷ s
  unfolding trim_start
  trim_start-keep c s e = rw e refl

  -- Of the output of udisksctl for a device whose path has no space, and a mount point that does not begin
  -- with white space, the monitor reads the mount point without the dots at its end, if anything is left
  -- of it. A line feed is white space, and a dot is not.
  pub mount_point_of-printed :
      (dev mnt : Text) (c : ℕ)
      → HasNo 32 dev
      → white c ≡ false
      → mount_point_of white (printed dev (c ∷ mnt)) ≡ non_empty (trim_end is_dot (c ∷ mnt))
  unfolding mount_point_of
  mount_point_of-printed dev mnt c h e =
      rw
        (
          after_at-printed dev (c ∷ mnt) h,
          trim_end-output (c ∷ mnt),
          trim_start-keep c (mnt ++ b'.' ∷ []) e,
        )
        (ap non_empty (trim_end-cut is_dot (c ∷ mnt) (b'.' ∷ []) refl))
