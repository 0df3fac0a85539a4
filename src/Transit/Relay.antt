-- ===== src/Transit/Relay.antt =====
-- `send_files` and one turn of the daemon's inner loop: receive from keysas-in, check, send to
-- keysas-out.
use keysas.Base.{ℕ, ◌+◌, Bool, true, false, Option, List, [], ◌∷◌, map, Bytes, Unicode}
use keysas.Base.Daemon.{Live, live, AncillaryData, buffer}
use keysas.Base.Daemon.Process.{◌>>=◌, or_exit}
use keysas.Progress.{DaemonProgress, add_files_to_queue}
use keysas.Transit.Metadata.{InputMetadata, FileMetadata, FileData, Configuration, parse_messages}
use keysas.Transit.FileType.{Kind}
use keysas.Transit.Check.{Probes, check_files}

-- What went out: the messages with their descriptors, the descriptors closed, and whether the
-- connection still stands.
pub record Sent : Type 0 where
  pub messages : List (Bytes × ℕ)
  pub closed : List ℕ
  pub connected : Bool

-- `sends i` is whether the i-th send succeeds. A failed `close` is only logged.
unfoldable pub send_files :
    (FileMetadata → Option Bytes) → (ℕ → Bool) → ℕ → List FileData → Live Sent
send_files encode sends i [] = live (record { messages = []; closed = []; connected = true })
send_files encode sends i (f ∷ files) =
    let rest = send_files encode sends (i + 1) files in
    or_exit (encode f.md) >>= λ bytes. elim (sends i) [
      | true ↦ rest >>= λ s. live (record {
        messages = (bytes, f.fd) ∷ s.messages;
        closed = f.fd ∷ s.closed;
        connected = s.connected;
      })
      | false ↦ live (record { messages = []; closed = f.fd ∷ []; connected = false })
    ]

-- What one turn meets: the message received (none where the read fails), the control messages with
-- it, the answers for each file, and whether each send succeeds.
pub record Turn : Type 0 where
  pub received : Option Bytes
  pub messages : List (Option AncillaryData)
  pub probes : ℕ → Probes
  pub sends : ℕ → Bool

-- The codecs are bincode's, `get` is infer's. The loop goes on while `connected` holds.
unfoldable pub turn :
    (Bytes → Option InputMetadata)
    → (FileMetadata → Option Bytes)
    → (Bytes → Option Kind)
    → Unicode
    → Configuration
    → Turn
    → DaemonProgress
    → Live (DaemonProgress × Sent)
turn decode encode get u conf t p = or_exit t.received >>= λ bytes.
    let files = parse_messages decode t.messages (buffer 4128 bytes) in
    check_files get u t.probes conf 0 (add_files_to_queue (map (λ f. f.md.filename) files) p) files
    >>= λ checked. send_files encode t.sends 0 checked.1 >>= λ sent. live (checked.0, sent)
