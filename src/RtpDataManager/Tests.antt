-- ===== src/RtpDataManager/Tests.antt =====
-- The receiving and parsing of a few packets.
use vcu.Prelude.{
  ℕ, zero, suc, ◌+◌, ◌%◌, ◌^◌, ◌≤◌, ◌≡◌, refl, some, List, [], ◌∷◌, arith, true, replicate,
}
use vcu.Prelude.Memory.{zeros}
use vcu.RtpDataManager.Laws.{Holds}
use vcu.RtpDataManager.Reorder.{
  Buffer, no_packet, buffer_size, empty_buffer, file, take_packet, receive, packet_seq,
}
use vcu.RtpDataManager.Reorder.Slots.{file_all, take_packet-file_all}
use vcu.RtpDataManager.Reorder.Lag.{Threads, start, Reach, here, next, received, taken_late}
use vcu.RtpDataManager.Thread.{Env, Stream, h265, handle}
use vcu.RtpDataManager.Thread.Depacketizer.{step}
use vcu.RtpDataManager.Thread.Refine.{Agrees, handle_refines}
use vcu.RtpDataManager.Thread.Fragments.{Delivers, fragments, fragments_delivered}

abbrev viewer : Env
viewer = record { can_send_box = true; can_send_con = true; socket_sends = true; timestamp = 0 }

-- an open stream with a new buffer
abbrev open_stream : Stream
open_stream = record {
  parser = record { is_start = true; last_seq = 6 };
  packet_data = record { block = zeros 1024; capacity = 1024; data_size = 0 };
}

empty : Holds [] open_stream.packet_data
empty = record {
  valid = record { allocated = refl; room = omega arith };
  large = omega arith;
  holds = refl;
}

abbrev sps : List ℕ
sps = 128 ∷ 96 ∷ 0 ∷ 7 ∷ 0 ∷ 0 ∷ 0 ∷ 9 ∷ 18 ∷ 52 ∷ 86 ∷ 120 ∷ 103 ∷ 66 ∷ []

abbrev vps : List ℕ
vps = 128 ∷ 226 ∷ 0 ∷ 7 ∷ 0 ∷ 0 ∷ 0 ∷ 9 ∷ 18 ∷ 52 ∷ 86 ∷ 120 ∷ 64 ∷ 1 ∷ []

handle_refines_example : Agrees (handle h265 open_stream viewer vps) (step h265 true viewer vps)
handle_refines_example =
    handle_refines h265 open_stream viewer vps empty (omega arith) (omega arith) (omega arith)

fragments_delivered_example :
    Delivers viewer refl refl open_stream
      (fragments 65535 9 101 (1 ∷ 2 ∷ []) ((3 ∷ []) ∷ []) (4 ∷ []))
      (0 ∷ 0 ∷ 0 ∷ 1 ∷ 101 ∷ 1 ∷ 2 ∷ 3 ∷ 4 ∷ [])
fragments_delivered_example =
    fragments_delivered viewer refl refl 65535 9 101 (1 ∷ 2 ∷ []) ((3 ∷ []) ∷ []) (4 ∷ [])
      open_stream (omega arith) (omega arith) (omega arith) (omega arith) (omega arith)
      (refl, empty)

-- the slots behind a first packet with the number 65530
abbrev started : Buffer
started = record {
  vec_rtp = replicate buffer_size no_packet;
  first_seq = some 65530;
  times = 0;
  index = 1;
  posts = 0;
}

-- Packet 9 arrives in front of packets 7 and 8.
take_packet-file_all_example :
    (take_packet
      (file_all 65530 (file started ((65530 + 9) % 2 ^ 16) sps) ((7, []) ∷ (8, []) ∷ []))
      9).0
    ≡ some sps
take_packet-file_all_example =
    take_packet-file_all 65530 9 sps started ((7, []) ∷ (8, []) ∷ [])
      (record { slots = refl; known = refl; range = omega arith; wraps = omega arith })
      (omega arith)

-- `n` rounds of the receiver, on the same packet
after : ℕ → Threads
after zero = start
after (suc n) = record { buffer = file (after n).buffer 7 sps; parsed = (after n).parsed }

after-Reach : (n : ℕ) → Reach (after n)
unfolding after receive packet_seq
after-Reach zero = here
after-Reach (suc n) = next (after-Reach n) (received (after n) (some sps) _ refl)

taken_late_example : (after 31).parsed + 31 ≤ (after 31).buffer.index
unfolding after file empty_buffer
taken_late_example = taken_late (after 31) (after-Reach 31) (omega arith)
