-- ===== src/Transit/FailOpen.antt =====
-- keysas-transit main.rs: what an optional service must have answered to stop a file.
use keysas.Base.{
  ◌≡◌, ◌↔◌, true, false, some, Text, Bytes, take, Option-cases, inl, inr, arith, is_empty,
}
use keysas.Base.Daemon.{buffer}
use keysas.Transit.Metadata.{AnalyzeRequest, AnalyzeResponse, VtRequest, VtResponse}
use keysas.Transit.Peers.{Peer, call_vt_analyzer, call_specialized_analyzer}

-- The request was encoded and sent to a peer that was reached, and its non-empty reply decodes to
-- `resp`, of a buffer of which `view` is decoded.
abbrev pub Answered :
    {Req Resp : Type 0} → Peer Req Resp → Text → Req → (Bytes → Bytes) → Resp → Type 0
Answered peer sock req view resp =
    (sent : Bytes) × (bytes : Bytes) × (peer.from_abstract_name sock ≡ true)
    × (peer.connect_addr sock ≡ true)
    × (peer.encode req ≡ some sent)
    × (peer.send sent ≡ true)
    × (peer.receive ≡ some bytes)
    × (is_empty bytes ≡ false)
    × (peer.decode (view bytes) ≡ some resp)

-- keysas-transit takes VirusTotal to block a file exactly where the daemon was asked, replied, and its
-- decoded reply says so; every failure on the way lets the file pass.
vt-blocks :
    (peer : Peer VtRequest VtResponse) (sock sha256 : Text)
    → ((call_vt_analyzer peer sock sha256).pass ≡ false) ↔ (
        (resp : VtResponse) × (resp.pass ≡ false)
        × Answered peer sock (record { sha256 = sha256 }) (take 512) resp)
unfolding call_vt_analyzer
vt-blocks peer sock sha256 =
    let req : VtRequest = record { sha256 = sha256 } in
    (
      (λ b. elim (Option-cases (peer.encode req)) [
        | inl n ↦ absurd (ground arith)
        | inr (sent, s) ↦ elim (Option-cases peer.receive) [
          | inl n ↦ absurd (ground arith)
          | inr (bytes, r) ↦ elim (Option-cases (peer.decode (take 512 bytes))) [
            | inl n ↦ absurd (ground arith)
            | inr (resp, d) ↦ (
              resp,
              ground arith,
              (sent, bytes, ground arith, ground arith, s, ground arith, r, ground arith, d),
            )
          ]
        ]
      ]),
      (λ (resp, blocked, (sent, bytes, name, conn, s, ok, r, full, d)).
          rw (name, conn, s, ok, r, full, d, call_vt_analyzer) blocked),
    )

specialized-blocks :
    (peer : Peer AnalyzeRequest AnalyzeResponse) (sock filename file_type : Text)
    → ((call_specialized_analyzer peer sock filename file_type).pass ≡ false) ↔ (
        (resp : AnalyzeResponse) × (resp.passed ≡ false)
        × Answered peer sock
            (record { filename = filename; file_type = file_type })
            (buffer 4096)
            resp)
unfolding call_specialized_analyzer
specialized-blocks peer sock filename file_type =
    let req : AnalyzeRequest = record { filename = filename; file_type = file_type } in
    (
      (λ b. elim (Option-cases (peer.encode req)) [
        | inl n ↦ absurd (ground arith)
        | inr (sent, s) ↦ elim (Option-cases peer.receive) [
          | inl n ↦ absurd (ground arith)
          | inr (bytes, r) ↦ elim (Option-cases (peer.decode (buffer 4096 bytes))) [
            | inl n ↦ absurd (ground arith)
            | inr (resp, d) ↦ (
              resp,
              ground arith,
              (sent, bytes, ground arith, ground arith, s, ground arith, r, ground arith, d),
            )
          ]
        ]
      ]),
      (λ (resp, blocked, (sent, bytes, name, conn, s, ok, r, full, d)).
          rw (name, conn, s, ok, r, full, d, call_specialized_analyzer) blocked),
    )

-- keysas-transit takes VirusTotal, or keysas-analyze, to block a file exactly where the daemon was
-- reached and asked, and its non-empty reply decodes to one that says so. Every failure on the way lets
-- the file pass.
pub blocks-Answered :
    (vt : Peer VtRequest VtResponse) (an : Peer AnalyzeRequest AnalyzeResponse)
    (sock sha256 filename file_type : Text)
    → (((call_vt_analyzer vt sock sha256).pass ≡ false) ↔ (
        (resp : VtResponse) × (resp.pass ≡ false)
        × Answered vt sock (record { sha256 = sha256 }) (take 512) resp))
      × (((call_specialized_analyzer an sock filename file_type).pass ≡ false) ↔ (
          (resp : AnalyzeResponse) × (resp.passed ≡ false)
          × Answered an sock
              (record { filename = filename; file_type = file_type })
              (buffer 4096)
              resp))
blocks-Answered vt an sock sha256 filename file_type =
    (vt-blocks vt sock sha256, specialized-blocks an sock filename file_type)
