-- ===== src/Icmp4.antt =====
-- `class icmp4` of icmp4.cpp: the answers to echo and timestamp requests, and the error messages.
pub mod Echo
pub mod Ping
use myip.Base.{
  ℕ, ◌+◌, ◌*◌, ◌/◌, ◌%◌, ◌==◌, Option, none, some, List, [], ◌∷◌, ◌++◌, ltb, leb, if◌then◌else◌,
  length, get_or, set, take, replicate, shr, u8, min, bit_and,
}
use myip.Addr.Defs.{AnyAddr}
use myip.Checksum.{ip_checksum}
use myip.Ipv4.{Packet}

-- The arguments of a call of `transmit_packet` of the device; the hardware address is never given.
pub record Transmitted : Type 0 where
  pub dst_ip : AnyAddr
  pub src_ip : AnyAddr
  pub protocol : ℕ
  pub payload : List ℕ
  pub header_template : Option (List ℕ)

-- A number in bytes 12 to 15 and again in 16 to 19.
unfoldable pub with_timestamp : List ℕ → ℕ → List ℕ
with_timestamp reply ts =
    let a = u8 (shr ts 24) in
    let b = u8 (shr ts 16) in
    let c = u8 (shr ts 8) in
    let d = u8 ts in
    let once = set (set (set (set reply 12 a) 13 b) 14 c) 15 d in
    set (set (set (set once 16 a) 17 b) 18 c) 19 d

-- The reply but for its checksum, if there is one.
unfoldable pub reply_to : List ℕ → ℕ → Option (List ℕ)
unfolding with_timestamp
reply_to p ms_since_midnight =
    if get_or p 0 0 == 8
    then some (set p 0 0)
    else (if get_or p 0 0 == 13
        then some (if leb 20 (length p) then with_timestamp (set p 0 14) ms_since_midnight else p)
        else none)

unfoldable pub with_checksum : List ℕ → List ℕ
with_checksum reply =
    let cleared = set (set reply 2 0) 3 0 in
    let checksum = ip_checksum cleared (length reply / 2) in
    set (set cleared 2 (shr checksum 8)) 3 (u8 checksum)

-- `header_copy`: the identification is one higher.
unfoldable pub header_copy : List ℕ → List ℕ
header_copy header =
    let identification = (256 * get_or header 4 0 + get_or header 5 0 + 1) % 65536 in
    set (set header 4 (shr identification 8)) 5 (u8 identification)

-- `operator()` on one packet, with a device.
unfoldable pub receive : Packet → ℕ → List Transmitted
unfolding reply_to with_checksum header_copy
receive pkt ms_since_midnight =
    if ltb (length pkt.data_) 8 then [] else elim (reply_to pkt.data_ ms_since_midnight) [
      | none ↦ []
      | some reply ↦
          record {
            dst_ip = pkt.src_addr;
            src_ip = pkt.dst_addr;
            protocol = 0x01;
            payload = with_checksum reply;
            header_template = some (header_copy pkt.header);
          }
          ∷ []
    ]

-- The buffer `out` up to its used size, with a checksum: 8 bytes, the header of the packet that
-- caused the message, at most 8 bytes of its payload, and a byte to make the size even.
unfoldable pub error_with : ℕ → ℕ → ℕ → Packet → ℕ → List ℕ
error_with type code mtu p checksum =
    let pl_size = min 8 (length p.data_) in
    type
    ∷ code
    ∷ shr checksum 8
    ∷ u8 checksum
    ∷ 0
    ∷ 0
    ∷ u8 (shr mtu 8)
    ∷ bit_and mtu 255
    ∷ (p.header ++ (take pl_size p.data_ ++ replicate ((8 + length p.header + pl_size) % 2) 0))

-- `send_packet`, with a device of a packet size `mtu`; the header of an IP packet fits the buffer.
unfoldable pub send_packet : AnyAddr → AnyAddr → ℕ → ℕ → ℕ → Packet → Transmitted
unfolding error_with
send_packet dst_ip src_ip type code mtu p =
    let out = error_with type code mtu p 0 in
    record {
      dst_ip = dst_ip;
      src_ip = src_ip;
      protocol = 0x01;
      payload = error_with type code mtu p (ip_checksum out ((length out + 1) / 2));
      header_template = none;
    }

unfoldable pub send_destination_port_unreachable : AnyAddr → AnyAddr → ℕ → Packet → Transmitted
unfolding send_packet
send_destination_port_unreachable dst_ip src_ip mtu p = send_packet dst_ip src_ip 3 3 mtu p

unfoldable pub send_ttl_exceeded : ℕ → Packet → Transmitted
unfolding send_packet
send_ttl_exceeded mtu pkt = send_packet pkt.src_addr pkt.dst_addr 11 0 mtu pkt
