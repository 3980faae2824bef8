-- ===== src/Giop/Types.antt =====
-- The structures of giop.hh and net/connection.hh that messages carry or change.
use corba_cc.Base.{ℕ, List, Bool, ◌==◌, leb, ◌&&◌}
use corba_cc.Giop.Enums.{ReplyStatus}

-- `HostAndPort` of net/util/socket.hh.
pub record HostAndPort : Type 0 where
  pub host : List ℕ
  pub port : ℕ

-- What the encoder reads and writes of a connection: `protocol->local`, `remote` and
-- `didSendBiDirIIOP`.
pub record Endpoints : Type 0 where
  pub local : HostAndPort
  pub remote : HostAndPort
  pub did_send_bi_dir : Bool

pub record RequestHeader : Type 0 where
  pub request_id : ℕ
  pub response_expected : Bool
  pub object_key : List ℕ
  pub operation : List ℕ

pub record ReplyHeader : Type 0 where
  pub request_id : ℕ
  pub reply_status : ReplyStatus

pub record LocateRequest : Type 0 where
  pub request_id : ℕ
  pub object_key : List ℕ

-- `majorVersion == 1 && minorVersion <= 1`.
abbrev pub is_giop_1_1 : ℕ → ℕ → Bool
is_giop_1_1 major minor = major == 1 && leb minor 1
