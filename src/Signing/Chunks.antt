-- ===== src/Signing/Chunks.antt =====
-- The digest loop of keysas_lib lib.rs under different cuts of a file into reads.
use keysas.Base.{
  ◌≡◌, refl, false, Option, none, some, List, [], ◌∷◌, ◌++◌, map, Bytes, Text, is_empty, ok, err,
  library, All,
}
use keysas.Signing.{sha256_loop}

abbrev pub concat : List Bytes → Bytes
concat [] = []
concat (x ∷ xs) = x ++ concat xs

-- sha2's `Digest` trait: feeding two pieces is feeding their concatenation.
module _ {H : Type 0} (update : H → Bytes → H) (finalize : H → Text)
    (update_empty : (h : H) → update h [] ≡ h)
    (update-append : (h : H) (a b : Bytes) → update h (a ++ b) ≡ update (update h a) b) where
  -- Whatever non-empty chunks the reads return before the empty one, the result is the digest of
  -- their concatenation.
  pub sha256_loop-chunks :
      (chunks : List Bytes) (h : H) (later : List (Option Bytes))
      → All (λ b. is_empty b ≡ false) chunks
      → sha256_loop update finalize h (map some chunks ++ some [] ∷ later)
        ≡ ok (finalize (update h (concat chunks)))
  unfolding sha256_loop
  sha256_loop-chunks [] h later a = rw (update_empty h)
  sha256_loop-chunks (x ∷ xs) h later a =
      rw (a.0, update-append h x (concat xs)) (sha256_loop-chunks xs (update h x) later a.1)

  -- A read that fails after non-empty chunks makes the digest fail.
  pub sha256_loop-fails :
      (chunks : List Bytes) (h : H) (later : List (Option Bytes))
      → All (λ b. is_empty b ≡ false) chunks
      → sha256_loop update finalize h (map some chunks ++ none ∷ later) ≡ err library
  unfolding sha256_loop
  sha256_loop-fails [] h later a = refl
  sha256_loop-fails (x ∷ xs) h later a = rw a.0 (sha256_loop-fails xs (update h x) later a.1)
