-- ===== src/RtpModel/Tests.antt =====
-- Headers and start codes at concrete bytes.
use vcu.Prelude.{◌≡◌, some, [], ◌∷◌, arith}
use vcu.RtpModel.{put_rtp_header, get_rtp_header}
use vcu.RtpModel.Header.{get-put_rtp_header}

get-put_rtp_header_example :
    get_rtp_header (put_rtp_header 4660 1 90000 (103 ∷ []))
    ≡ some (record {
      version = 2;
      mark = 1;
      load_type = 96;
      seq = 4660;
      timestamp = 90000;
      ssrc = 0x12345678;
    })
get-put_rtp_header_example = get-put_rtp_header 4660 1 90000 (103 ∷ []) (omega arith) (omega arith)
