-- ===== src/Rtsp.antt =====
-- src/rtspDataManager.h, src/rtspDataManager.cpp: the camera's login and the receiver reports. The parts
-- behind `#if 0` are not compiled. A text is the list of its characters' codes. The digest of md5.cpp,
-- what `to_string` and `atoi` do, the account of the configuration, the camera's answers and the results
-- of `send` are arguments.
pub mod Texts
pub mod Digest
pub mod Parser
pub mod Parsed
pub mod Messages
pub mod Login
pub mod Numbered
pub mod Reports
pub mod Largest
mod Tests
use vcu.Prelude.{ℕ, ◌+◌, Option, List}
use vcu.Prelude.{ℤ, Bool}

-- `CODEC_TYPE`
pub data CodecType : Type 0 where
  h264 : CodecType
  h265 : CodecType

-- What the surroundings provide. Only `answer` and `send_ok` depend on the message, counted from 0: each
-- message is answered before the next. An answer has more than two bytes, since shorter reads do not end
-- the wait for it.
pub record Camera : Type 0 where
  pub user : List ℕ
  pub passwd : List ℕ
  pub url : List ℕ
  pub md5 : List ℕ → List ℕ
  pub to_string : ℕ → List ℕ
  pub atoi : List ℕ → ℤ
  pub answer : ℕ → List ℕ
  pub send_ok : ℕ → Bool

-- What `parser` has learnt from the answers, with its static flags; no codec is an unset `TYPE`.
pub record Facts : Type 0 where
  pub need_certify : Bool
  pub nonce : List ℕ
  pub realm : List ℕ
  pub session : List ℕ
  pub track : List ℕ
  pub rtcp_server_port : ℤ
  pub codec : Option CodecType
  pub is_first : Bool
  pub is_first2 : Bool
  pub only_video : Bool

-- The statics of the file; `seq_num` stays below 2 ^ 31.
pub record Rtsp : Type 0 where
  pub seq_num : ℕ
  pub response : List ℕ
  pub facts : Facts
