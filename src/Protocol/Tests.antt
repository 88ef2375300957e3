-- ===== src/Protocol/Tests.antt =====
-- Runs of the companion protocol.
use Prim.Native.Nat.{ℕ}
use Prim.Native.Nat.{bit_and}
use zectrix_note4_platform.Base.{
  List, [], arith, false, get_or, length, refl, replicate, some, true, ℕ, ◌++◌, ◌-◌, ◌∷◌, ◌≡◌, ◌≤◌,
}
use zectrix_note4_platform.Crc.{crc32, crc_bit, crc_bits, update_crc32}
use zectrix_note4_platform.Protocol.{
  encode_frame, view_of, decode_frame, maximum_payload_size, maximum_frame_size, FrameHeader,
  header_bytes, ok, fragment_accepted, frame_complete, unexpected_fragment,
}
use zectrix_note4_platform.Protocol.Frames.{IsHeader}
use zectrix_note4_platform.Protocol.Accepted.{decode_frame-encode_frame}
use zectrix_note4_platform.Protocol.Fragments.{
  fragment_start, accept, append_data, conclude, reset, expect, fragment_count,
}
use zectrix_note4_platform.Protocol.Reassembly.{IsWhole}
use zectrix_note4_platform.Protocol.Delivery.{accept_all, packets}
use zectrix_note4_platform.Protocol.EndToEnd.{send-receive}
use zectrix_note4_platform.Protocol.Completion.{accept-IsWhole, initial}
use zectrix_note4_platform.Protocol.Values.{
  encode_hello_ack_status_value, decode_hello_ack_status_value,
}
use zectrix_note4_platform.Protocol.Values.RoundTrip.{encode-decode_hello_ack_status_value}
use zectrix_note4_platform.Protocol.Tlv.{TlvField, writer_start}
use zectrix_note4_platform.Protocol.Tlv.RoundTrip.{add_all-read_all, add_all, read_all}

abbrev hello : FrameHeader
hello = record {
  major = 1;
  minor = 0;
  message_class = 0;
  flags = 1;
  message_type = 1;
  request_id = 77;
  sequence = 0x1234_5678;
}

abbrev greeting : List ℕ
greeting = 9 ∷ 0 ∷ 255 ∷ []

abbrev hello_frame : List ℕ
hello_frame =
    90 ∷ 67 ∷ 1 ∷ 0 ∷ 0 ∷ 1 ∷ 1 ∷ 0 ∷ 77 ∷ 0 ∷ 0 ∷ 0 ∷ 120 ∷ 86 ∷ 52 ∷ 18 ∷ 3 ∷ 0 ∷ 0 ∷ 0 ∷ 147
    ∷ 126 ∷ 73 ∷ 7 ∷ greeting

abbrev first_packet : List ℕ
first_packet =
    167 ∷ 1 ∷ 1 ∷ 0 ∷ 1 ∷ 2 ∷ 0 ∷ 0 ∷ 90 ∷ 67 ∷ 1 ∷ 0 ∷ 0 ∷ 1 ∷ 1 ∷ 0 ∷ 77 ∷ 0 ∷ 0 ∷ 0 ∷ 120 ∷ 86
    ∷ 52 ∷ 18 ∷ 3 ∷ 0 ∷ 0 ∷ 0 ∷ []

abbrev last_packet : List ℕ
last_packet = 167 ∷ 1 ∷ 2 ∷ 0 ∷ 1 ∷ 2 ∷ 20 ∷ 0 ∷ 147 ∷ 126 ∷ 73 ∷ 7 ∷ greeting

hello_encoded : encode_frame hello greeting maximum_frame_size ≡ (ok, hello_frame)
unfolding encode_frame header_bytes crc32 update_crc32 crc_bits crc_bit
hello_encoded = refl

hello_decoded : decode_frame hello_frame 1 0 ≡ (ok, record { header = hello; payload = greeting })
unfolding decode_frame view_of crc32 update_crc32 crc_bits crc_bit
hello_decoded = refl

hello_accepted : (accept last_packet (accept_all (first_packet ∷ []) initial).1).0 ≡ frame_complete
unfolding accept accept_all append_data conclude reset expect
hello_accepted = refl

hello-IsHeader : IsHeader hello
hello-IsHeader = record {
  major_byte = omega arith;
  minor_byte = omega arith;
  class_known = omega arith;
  flags_byte = omega arith;
  flags_known = refl;
  type_word = omega arith;
  id_word = omega arith;
  sequence_word = omega arith;
}

send-receive_example :
    let frame = (encode_frame hello greeting maximum_frame_size).1 in
    let n = fragment_count (length frame) 28 in
    let received = accept_all (packets frame 513 28 n 0) initial in
    (received.0 ≡ replicate (n - 1) fragment_accepted ++ frame_complete ∷ [])
    × (decode_frame received.1.received 1 0 ≡ (ok, record { header = hello; payload = greeting }))
send-receive_example =
    send-receive hello greeting 513 28 initial 0 hello-IsHeader (omega arith) (omega arith)
      (omega arith) (omega arith) (omega arith) (omega arith)

decode_frame-encode_frame_example :
    (encode_frame hello greeting 27 ≡ (ok, hello_frame))
    × IsHeader hello
    × (hello.major ≡ 1)
    × (hello.minor ≤ 0)
    × (length greeting ≤ maximum_payload_size)
decode_frame-encode_frame_example =
    decode_frame-encode_frame hello_frame 1 0 27 (record { header = hello; payload = greeting })
      (omega arith) hello_decoded (omega arith)

accept-IsWhole_example :
    let r = (accept_all (first_packet ∷ []) initial).1 in
    (length r.received ≤ maximum_frame_size)
    × ((accept last_packet r).0 ≡ frame_complete
        → IsWhole (accept last_packet r).1.received
          × ((accept last_packet r).1.is_active ≡ false)
          × ((next : List ℕ)
              → bit_and (get_or next 2 0) fragment_start ≡ 0
              → accept next (accept last_packet r).1
                ≡ (unexpected_fragment, (accept last_packet r).1)))
accept-IsWhole_example = accept-IsWhole (first_packet ∷ []) last_packet

encode-decode_hello_ack_status_value_example :
    decode_hello_ack_status_value (encode_hello_ack_status_value 0 1 0 4).1 ≡ (ok, some (0, 1, 0))
encode-decode_hello_ack_status_value_example =
    encode-decode_hello_ack_status_value 0 1 0 (omega arith) (omega arith) (omega arith)

abbrev two_fields : List TlvField
two_fields =
    record { type = 5; is_required = true; value = 1 ∷ 2 ∷ [] }
    ∷ record { type = 0; is_required = false; value = [] }
    ∷ []

add_all-read_all_example :
    let written = add_all two_fields (writer_start 10) in
    (written.0 ≡ ok)
    × (length written.1.output ≡ 10)
    × (read_all 3 (record { input = written.1.output; offset = 0 }) ≡ (ok, two_fields))
add_all-read_all_example = add_all-read_all two_fields 10 (omega arith) (omega arith)
