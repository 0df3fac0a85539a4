-- ===== src/Admin/Disk.antt =====
-- Where on the disk the block of signatures lies once it is written, and how its readers find it.
use keysas.Base.{
  ℕ, zero, suc, ◌+◌, ◌%◌, ◌≤◌, ◌<◌, ◌≡◌, refl, sym, ap, ◌∙◌, true, some, List, [], ◌∷◌, ◌++◌, Text,
  Bytes, utf8, length, take, drop, take-append, length-append, ok, arith,
}
use mathlib.Core.List.{append_assoc}
use keysas.Io.{read_exact, be_u32}
use keysas.Admin.{to_be_bytes, put, whole, write_all, Device, write_block}

module _ {ℓ} {A : Type ℓ} where
  length-take : (n : ℕ) (xs : List A) → n ≤ length xs → length (take n xs) ≡ n
  length-take zero xs h = refl
  length-take (suc n) [] h = absurd (omega arith)
  length-take (suc n) (x ∷ xs) h = ap suc (length-take n xs (omega arith))

  pub drop-append : (xs ys : List A) → drop (length xs) (xs ++ ys) ≡ ys
  drop-append [] ys = refl
  drop-append (x ∷ xs) ys = drop-append xs ys

  pub take-append_all : (xs ys : List A) → take (length xs) (xs ++ ys) ≡ xs
  take-append_all [] ys = refl
  take-append_all (x ∷ xs) ys = ap (λ l. x ∷ l) (take-append_all xs ys)

-- A second write goes on where a first one ended.
pub drop-put-put :
    (offset : ℕ) (a b disk : Bytes)
    → offset ≤ length disk
    → (rest : Bytes) × (drop offset (put (offset + length a) b (put offset a disk))
        ≡ a ++ (b ++ rest))
unfolding put
drop-put-put offset a b disk h =
    let before = take offset disk in
    let n : length before ≡ offset = length-take offset disk h in
    let rest =
      drop (offset + length a + length b) (before ++ (a ++ drop (offset + length a) disk)) in
    let kept : take (offset + length a) (before ++ (a ++ drop (offset + length a) disk))
        ≡ before ++ a =
      ap (λ k. take (k + length a) (before ++ (a ++ drop (offset + length a) disk))) (sym n)
      ∙ (take-append before (a ++ drop (offset + length a) disk) (length a)
          ∙ ap (λ l. before ++ l) (take-append_all a (drop (offset + length a) disk))) in
    (
      rest,
      ap (λ l. drop offset (l ++ (b ++ rest))) kept
          ∙ (ap (λ l. drop offset l) (append_assoc before a (b ++ rest))
              ∙ (ap (λ k. drop k (before ++ (a ++ (b ++ rest)))) (sym n)
                  ∙ drop-append before (a ++ (b ++ rest)))),
    )

pub be_u32-to_be_bytes :
    (n : ℕ) (rest : Bytes) → n < 4294967296 → be_u32 (to_be_bytes n ++ rest) ≡ n
unfolding be_u32 to_be_bytes
be_u32-to_be_bytes n rest h = omega arith

pub read_exact-append : (xs ys : Bytes) → read_exact (length xs) (xs ++ ys) ≡ some xs
unfolding read_exact
read_exact-append xs ys = ground (arith, length-append xs ys, take-append_all xs ys)

-- Where both writes land whole, the block stands behind the first sector.
pub write_block-drop :
    (dev : Device) (text : Text) (disk : Bytes)
    → dev.seeks ≡ true
    → dev.size ≡ whole
    → dev.body ≡ whole
    → length (utf8 text) < 4294967296
    → 512 ≤ length disk
    → ((write_block dev text disk).result ≡ ok tt)
      × (rest : Bytes) × (drop 512 (write_block dev text disk).disk
          ≡ to_be_bytes (length (utf8 text)) ++ (utf8 text ++ rest))
unfolding write_block write_all to_be_bytes
write_block-drop dev text disk s z b small h =
    let (rest, e) = drop-put-put 512 (to_be_bytes (length (utf8 text))) (utf8 text) disk h in
    let m : length (utf8 text) % 4294967296 ≡ length (utf8 text) = omega arith in
    (rw (s, z, b, write_all) refl, rest, rw (s, z, b, write_all, m) e)
