-- ===== src/Lib.antt =====
-- vcu: the receiving, parsing and buffering core of the video and control unit, as antt definitions
-- and theorems about them.
--
-- The program receives an RTP stream from a camera, hands the video to a hardware decoder and to a
-- client, and reads flight data from a serial port. The parts modelled, with the files here that
-- model them:
--   - src/byteArray.cpp (`ByteArray`): the growable byte buffer that the receivers and parsers share.
--     The array's block is a list of bytes, a null pointer is the empty list, and an operation is
--     `none` where the code would touch memory outside the block.
--   - src/rtpDataModel.h (`RtpModel`): RTP headers and the search for Annex B start codes.
--   - src/rtpDataManager.cpp (`RtpDataManager`): `receive_thread` files packets in 4096 slots by sequence
--     number (`Reorder`); `parser_thread` takes the slots in turn (`take_packet`), parses the packet
--     (`H264`, `H265`) into a `ByteArray`, hands the bytes to the decoder and sends the packet
--     on (`Thread`). `Thread.Depacketizer` is the abstract depacketizer that it implements.
--   - src/serialPort.cpp (`Crc`): `crc16_code`.
--   - src/picBufferManager.hpp (`InputBuffer`): the ring of picture buffers.
--   - src/aircraftDataParser.cpp (`AircraftDataParser`): MAVLink packets put together from the pieces
--     that the serial port delivers, in a `ByteArray`. `AircraftDataParser.Packets` is the round on
--     lists of bytes that a call's statements implement; a call that reaches the function's end, where
--     there is no `return`, is undefined (`leave`).
--   - src/common.h (`Common`): the string helpers of the configuration.
--   - src/yoloDetect.cpp (`Detect`): the suppression of overlapping boxes and the choice of the
--     detections. A float is an abstract type, and `qsort` an argument. A class's round has one step for
--     each detection, and `suppress` takes their number.
--   - src/dataControl.cpp (`DataControl`): the queue of pictures between the receiver and the detector,
--     with a record of what left it.
--   - src/vcuControl.cpp (`VcuControl`): the control of the hardware decoder, with a record of what the
--     decoder is told.
--   - src/fileManager.cpp, src/common.cpp and `NetDetect::parserNetCfg` (`FileManager`): the lines of a
--     configuration file, and the tables that they fill.
--   - inc/receiveModel.h (`Packets`): the packets between the two ends and their layout in bytes.
--   - src/dataReceive.cpp (`DataReceive`): the packets of pictures and boxes, each answered before the
--     next. The two threads wait for each other behind every packet, so a packet is one round of both.
--   - src/dataSend.cpp (`DataSend`): the boxes and stream facts that a client is sent when it asks. The
--     socket's failures, and what the client stops meanwhile, are arguments.
--   - src/rtspDataManager.cpp (`Rtsp`): the camera's answers and challenge, the requests, the login as a
--     conversation in which each message is answered, and the receiver reports.
--   - src/yoloDetect.cpp (`Yolo`): the boxes read from the network's output, counted and then filled in, and
--     with `Detect` the whole of `getDetectBoxInfo` (`Yolo.Infos`).
--   - src/fpgaControl.cpp (`FpgaControl`): the pictures between `input` and `output_thread`, as a step
--     relation in which the two fall in any order.
--   - src/main.cpp (`Picture`, `Main`): a decoded picture scaled and put in the middle of the detector's input
--     (`Picture`), and the pictures and the times of the frames on their way from the decoder to the FPGA,
--     as the steps of the threads in any order (`Main`; `Main.Events` has the steps).
--   - src/fpgaDecode.cpp (`Jpeg`): a JPEG file taken apart into the blocks of tables, the head and the data that
--     the FPGA decodes; a read or write outside a block is an overrun.
-- `Prelude` holds the shared names, the laws of the bit operations (`Bits`), blocks of memory
-- (`Memory`) and the ways a run can end (`Outcome`: a value, a failed check, an access outside memory).
--
-- State is passed explicitly: a handler takes the state it reads and returns the one it leaves; the
-- static variables of a function are fields of its state. What the code reads from other parts
-- (`canSendBox()`, whether a socket takes a packet) is an argument. Numbers are native naturals;
-- unsigned arithmetic that can wrap is written with its modulus, and sizes of buffers are taken to be
-- below 2 ^ 31, so that `int` arithmetic on them does not wrap.
-- Most loops are recursions on the bytes, packets or calls that they read. The others count rounds:
-- `suppress` has one for each detection, which a round uses up; `move_empty` has one for each
-- detection and one more, since a round settles one; `split_rounds` has one for each character and one
-- more, since a round passes over a character at least, and so has `rm_rounds`; `section_rounds` and
-- `basic_rounds` have one for each character of the file and three more, enough when its last line has
-- its end; `scan` has one for
-- each byte of the file, as the code has, and ends before on a file that has its data; `hex_rounds` and
-- `negative_rounds` have as many
-- as the number's size, which each round divides by 16.
--
-- Not modelled: sockets, threads' start and stop, the Qt serial port, device files and shared memory,
-- the FPGA's registers and interrupts, the assembly and tables of the colour conversion, MD5 (an argument
-- of the login), and the command line.
pub mod Prelude
pub mod AircraftDataParser
pub mod ByteArray
pub mod Common
pub mod Crc
pub mod DataControl
pub mod DataReceive
pub mod DataSend
pub mod Detect
pub mod FileManager
pub mod FpgaControl
pub mod InputBuffer
pub mod Jpeg
pub mod Main
pub mod Packets
pub mod Picture
pub mod RtpDataManager
pub mod RtpModel
pub mod Rtsp
pub mod VcuControl
pub mod Yolo
