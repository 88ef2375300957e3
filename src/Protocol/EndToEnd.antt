-- ===== src/Protocol/EndToEnd.antt =====
-- A frame from its header and payload, through fragments, to the header and payload at the
-- receiver. components/note4_companion/note4_companion_protocol.cc.
use zectrix_note4_platform.Base.{
  All, List, [], arith, length, refl, replicate, u32_mod, ℕ, ◌++◌, ◌+◌, ◌-◌, ◌<◌, ◌∷◌, ◌≡◌, ◌≤◌,
}
use zectrix_note4_platform.Protocol.{
  encode_frame, maximum_payload_size, maximum_frame_size, FrameHeader, header_bytes, decode_frame,
  ok, fragment_accepted, frame_complete,
}
use zectrix_note4_platform.Protocol.Frames.{
  frame_of, IsByte, IsHeader, encode_frame-frame_of, decode_frame-frame_of,
}
use zectrix_note4_platform.Protocol.Fragments.{
  fragment_header_size, fragment_count, FragmentReassembler,
}
use zectrix_note4_platform.Protocol.Reassembly.{IsWhole}
use zectrix_note4_platform.Protocol.Delivery.{accept_all, packets, accept_all-packets}

frame_of-IsWhole :
    (h : FrameHeader) (payload : List ℕ)
    → length payload ≤ maximum_payload_size
    → IsWhole (frame_of h payload)
unfolding frame_of header_bytes
frame_of-IsWhole h payload n = record {
  has_header = omega arith;
  fits = omega arith;
  magic = refl;
  size = omega arith;
}

-- A header whose fields fit, with a known class and flags, and a payload of at most 4096 bytes are
-- encoded; the frame is cut into fragments, under any 16-bit frame id, for any packet larger than a
-- fragment's header and of at most 2^32 - 4112 bytes. A reassembler in any state takes them in order, accepts each but the last,
-- completes the frame with the last, and what it holds decodes, at a receiver of that major version
-- and at least that minor one, to the header and the payload.
pub send-receive :
    (h : FrameHeader) (payload : List ℕ) (id packet_capacity : ℕ) (r : FragmentReassembler)
    (maximum_supported_minor : ℕ)
    → IsHeader h
    → All IsByte payload
    → length payload ≤ maximum_payload_size
    → id < 65536
    → fragment_header_size < packet_capacity
    → packet_capacity - fragment_header_size + maximum_frame_size ≤ u32_mod
    → h.minor ≤ maximum_supported_minor
    → let frame = (encode_frame h payload maximum_frame_size).1 in
      let n = fragment_count (length frame) packet_capacity in
      let received = accept_all (packets frame id packet_capacity n 0) r in
      (received.0 ≡ replicate (n - 1) fragment_accepted ++ frame_complete ∷ [])
      × (decode_frame received.1.received h.major maximum_supported_minor
          ≡ (ok, record { header = h; payload = payload }))
send-receive h payload id packet_capacity r maximum_supported_minor k b n hid room small v =
    let w = frame_of-IsWhole h payload n in
    let sent = encode_frame-frame_of h payload maximum_frame_size k n (omega arith) in
    let done = accept_all-packets (frame_of h payload) id packet_capacity w hid (room, small) r in
    let decoded = decode_frame-frame_of h payload k n h.major maximum_supported_minor b refl v in
    rw (sent, done) (refl, decoded)
