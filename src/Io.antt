-- ===== src/Io.antt =====
-- keysas-io/src/main.rs: the daemon that takes files from unsigned USB devices and moves files to signed
-- ones. The signature of a device here, the copying of files in Files, the events in Station.
pub mod Files
pub mod Station
pub mod Sides
pub mod Challenge
pub mod Loss
pub mod Agreement
mod Examples
use keysas.Base.{
  ℕ, ◌+◌, ◌*◌, Bool, true, false, not, Option, none, some, List, [], ◌∷◌, ◌++◌, Text, Bytes, codes,
  utf8, length, take, drop, ltb, leb, split, ◌==◌, if◌then◌else◌, Result, ok, err, message, library,
  ensure, or_err, ◌>>=◌, ◌>>◌, is_ok,
}
use keysas.Signing.{Crypto}
use keysas.Firewall.{HybridPubKeys, verify_key_signatures}

-- `str::remove_last`
unfoldable pub remove_last : Text → Text
remove_last [] = []
remove_last (c ∷ []) = []
remove_last (c ∷ d ∷ s) = c ∷ remove_last (d ∷ s)

-- `read_exact`: the bytes, none where fewer are left.
unfoldable pub read_exact : ℕ → Bytes → Option Bytes
read_exact n bytes = if ltb (length bytes) n then none else some (take n bytes)

-- `u32::from_be_bytes`
unfoldable pub be_u32 : Bytes → ℕ
be_u32 (a ∷ b ∷ c ∷ d ∷ _) = 16777216 * a + 65536 * b + 256 * c + d
be_u32 _ = 0

unfoldable pub two_signatures : List Text → Result (Text × Text)
two_signatures (cl ∷ pq ∷ []) = ok (cl, pq)
two_signatures _ = err (message (codes "Invalid number of certificates"))

-- `content` is what lies from byte 512 of the device on, none where it cannot be opened; `from_utf8` is
-- `String::from_utf8`. The two signatures, classic and post-quantum.
module _ (c : Crypto) (from_utf8 : Bytes → Option Text) where
  unfoldable pub parse_signature : Text → Result (Bytes × Bytes)
  unfolding two_signatures
  parse_signature text = do
    parts ← two_signatures (split b'|' text)
    classic ←
        or_err (c.b64_decode parts.0)
          (message (codes "Cannot decode base64 Classic signature from bytes: "))
    pq ←
        or_err (c.b64_decode parts.1)
          (message (codes "Cannot decode base64 PQ signature from bytes: "))
    ensure (length classic == 64) (message (codes " Signature is not 64 bytes long"))
    ensure c.pq_scheme (message (codes "Cannot construct new ML-DSA87 algorithm: "))
    ensure (c.pq_signature pq) (message (codes "Cannot parse PQ signature from bytes"))
    ok (classic, pq)

  unfoldable pub get_signature : Option Bytes → Result (Bytes × Bytes)
  unfolding read_exact be_u32 parse_signature
  get_signature content = do
    bytes ← or_err content (message (codes "Cannot open the USB device to verify the signature."))
    buf ← or_err (read_exact 4 bytes) library
    let signature_size = be_u32 buf
    ensure (leb signature_size 7684) (message (codes "Invalid length for signature"))
    buffer ← or_err (read_exact signature_size (drop 4 bytes)) library
    text ← or_err (from_utf8 buffer) library
    parse_signature text

  unfoldable pub device_data : Text → Text → Text → Text → Text
  device_data id_vendor_id id_model_id id_revision id_serial =
      id_vendor_id
      ++ b'/' ∷ (id_model_id ++ b'/' ∷ (id_revision ++ b'/' ∷ (id_serial ++ b'/' ∷ codes "out")))

  unfoldable pub verified : Text → HybridPubKeys → Result (Bytes × Bytes) → Bool
  unfolding verify_key_signatures
  verified data_text pubkeys (err e) = false
  verified data_text pubkeys (ok (classic, pq)) =
      is_ok (verify_key_signatures c (utf8 data_text) classic pq pubkeys)

  -- `pubkeys` is what `get_pubkeys_from_certs` gives.
  unfoldable pub is_signed :
      (Text → Option Bytes)
      → Result (Option HybridPubKeys)
      → Text
      → Text
      → Text
      → Text
      → Text
      → Bool
  unfolding verified get_signature device_data remove_last
  is_signed content (err e) device v m r s = false
  is_signed content (ok none) device v m r s = false
  is_signed content (ok (some pubkeys)) device v m r s =
      verified (device_data v m r s) pubkeys (get_signature (content (remove_last device)))
