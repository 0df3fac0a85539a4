-- ===== src/Analyze/Replies.antt =====
-- The replies of the daemon of main.rs to the requests that it receives.
use keysas.Base.{
  ℕ, ◌≡◌, ◌⊎◌, refl, true, false, Option, none, some, inl, inr, Option-cases, List, [], ◌∷◌, Text,
  Bytes, is_empty,
}
use keysas.Base.Daemon.{received_fds, buffer}
use keysas.Analyze.Daemon.{
  AnalyzeRequest, AnalyzeResponse, Environment, dispatch, not_performed, Turn, Done, turn, answer,
  with_fd, first_fd,
}

module _ (decode : Bytes → Option AnalyzeRequest) (encode : AnalyzeResponse → Option Bytes)
    (e : Environment) (tmp_dir : Text) where
  -- No descriptor came, or the request with it does not decode.
  abbrev pub IsUnread : List ℕ → Bytes → Type 0
  IsUnread fds bytes =
      (first_fd fds ≡ none)
      ⊎ ((fd : ℕ) × (first_fd fds ≡ some fd) × (decode (buffer 4096 bytes) ≡ none))

  -- Where no descriptor came or the request does not decode, what is sent is the encoding of the response that
  -- no analysis was performed, and nothing is closed; else it is that of the analyzers' answer to the request,
  -- and the first descriptor is closed.
  abbrev pub IsReply : List ℕ → Bytes → Done → Type 0
  IsReply fds bytes done =
      (r : AnalyzeResponse) × (done.sent ≡ encode r)
      × (((r ≡ not_performed) × (done.closed ≡ []) × IsUnread fds bytes)
          ⊎ ((fd : ℕ) × (req : AnalyzeRequest) × (first_fd fds ≡ some fd)
              × (decode (buffer 4096 bytes) ≡ some req)
              × (r ≡ dispatch e req.filename req.file_type tmp_dir)
              × (done.closed ≡ fd ∷ [])))

  with_fd-IsReply :
      (fds : List ℕ) (bytes : Bytes)
      → IsReply fds bytes (with_fd decode encode e tmp_dir bytes (first_fd fds))
  unfolding with_fd answer
  with_fd-IsReply fds bytes = elim (Option-cases (first_fd fds)) [
    | inl n ↦ rw n (not_performed, refl, inl (refl, refl, inl refl))
    | inr (fd, f) ↦ elim (Option-cases (decode (buffer 4096 bytes))) [
      | inl n ↦ rw (f, n) (not_performed, refl, inl (refl, refl, inr (fd, refl, refl)))
      | inr (req, d) ↦
          rw (f, d)
            (
              dispatch e req.filename req.file_type tmp_dir,
              refl,
              inr (fd, req, refl, refl, refl, refl),
            )
    ]
  ]

  -- On a connection that brings bytes, one response is made, and sent if it can be encoded. Where a
  -- descriptor came and the request decodes, it is the analyzers' answer to that request, and the first
  -- descriptor is closed; where no descriptor came or the request does not decode, it is that no analysis was
  -- performed, and nothing is closed.
  pub turn-IsReply :
      (t : Turn) (bytes : Bytes)
      → t.accepted ≡ true
      → t.received ≡ some bytes
      → is_empty bytes ≡ false
      → IsReply (received_fds t.messages) bytes (turn decode encode e tmp_dir t)
  unfolding turn
  turn-IsReply t bytes a r n = rw (a, r, n) (with_fd-IsReply (received_fds t.messages) bytes)
