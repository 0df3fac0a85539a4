-- ===== src/Transit/Peers.antt =====
-- `call_vt_analyzer` and `call_specialized_analyzer`: one request over a socket, and the verdict to go on
-- with. The socket and bincode are the environment.
use keysas.Base.{ℕ, Bool, true, Option, none, some, [], Text, Bytes, take, is_empty, if◌then◌else◌}
use keysas.Base.Daemon.{buffer}
use keysas.Transit.Metadata.{AnalyzeRequest, AnalyzeResponse, VtRequest, VtResponse}

-- One exchange: whether the address is well formed, whether the connection is made, the encoding of
-- the request, whether it is sent, the bytes that come back (none on an error), and their decoding.
pub record Peer (Req Resp : Type 0) : Type 0 where
  pub from_abstract_name : Text → Bool
  pub connect_addr : Text → Bool
  pub encode : Req → Option Bytes
  pub send : Bytes → Bool
  pub receive : Option Bytes
  pub decode : Bytes → Option Resp

pub record VtVerdict : Type 0 where
  pub pass : Bool
  pub detections : ℕ
  pub summary : Text

abbrev vt_open : VtVerdict
vt_open = record { pass = true; detections = 0; summary = [] }

-- Nothing read is `Ok(0)`.
read_vt : Peer VtRequest VtResponse → VtVerdict
read_vt peer = elim peer.receive [
  | none ↦ vt_open
  | some bytes ↦ if is_empty bytes then vt_open else elim (peer.decode (take 512 bytes)) [
    | none ↦ vt_open
    | some resp ↦ record { pass = resp.pass; detections = resp.detections; summary = resp.summary }
  ]
]

unfoldable pub call_vt_analyzer : Peer VtRequest VtResponse → Text → Text → VtVerdict
unfolding read_vt
call_vt_analyzer peer socket_name sha256 =
    if peer.from_abstract_name socket_name
    then (if peer.connect_addr socket_name
        then elim (peer.encode (record { sha256 = sha256 })) [
          | none ↦ vt_open
          | some bytes ↦ if peer.send bytes then read_vt peer else vt_open
        ]
        else vt_open)
    else vt_open

pub record Analysis : Type 0 where
  pub pass : Bool
  pub analyzer : Text
  pub summary : Text

abbrev analysis_open : Analysis
analysis_open = record { pass = true; analyzer = []; summary = [] }

-- The whole buffer of 4096 bytes is decoded.
read_analysis : Peer AnalyzeRequest AnalyzeResponse → Analysis
read_analysis peer = elim peer.receive [
  | none ↦ analysis_open
  | some bytes ↦ if is_empty bytes then analysis_open else elim (peer.decode (buffer 4096 bytes)) [
    | none ↦ analysis_open
    | some resp ↦ record { pass = resp.passed; analyzer = resp.analyzer; summary = resp.summary }
  ]
]

-- The descriptor that goes with the request is part of what the peer sees, not of the verdict.
unfoldable pub call_specialized_analyzer :
    Peer AnalyzeRequest AnalyzeResponse → Text → Text → Text → Analysis
unfolding read_analysis
call_specialized_analyzer peer socket_name filename file_type =
    if peer.from_abstract_name socket_name
    then (if peer.connect_addr socket_name
        then elim (peer.encode (record { filename = filename; file_type = file_type })) [
          | none ↦ analysis_open
          | some bytes ↦ if peer.send bytes then read_analysis peer else analysis_open
        ]
        else analysis_open)
    else analysis_open
