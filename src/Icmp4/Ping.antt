-- ===== src/Icmp4/Ping.antt =====
-- An echo request through ipv4.cpp and icmp4.cpp of one host and back.
use myip.Base.{
  ℕ, ◌+◌, ◌*◌, ◌<◌, ◌≤◌, ◌≡◌, refl, true, false, some, none, List, [], ◌∷◌, ◌++◌, arith, length,
  take, All, u8, shr,
}
use myip.Addr.Defs.{AnyAddr, ipv4, make, get_exactly, set}
use myip.Checksum.{ip_checksum}
use myip.Checksum.Verify.{IsByte}
use myip.Cache.{Cache, update_cache}
use myip.Ipv4.{Ipv4, Packet, Routed, queued, transmit_packet, receive, registered}
use myip.Ipv4.Delivery.{from_link, ip_packet, transmit_packet-queued}
use myip.Icmp4
use myip.Icmp4.{Transmitted, header_copy}
use myip.Icmp4.Echo.{echo_reply, receive-echo}

module _ (s0 s1 s2 s3 d0 d1 d2 d3 : ℕ) (code c0 c1 n : ℕ) (rest : List ℕ) where
  abbrev pub asker : AnyAddr
  asker = make ipv4 (s0 ∷ s1 ∷ s2 ∷ s3 ∷ [])

  abbrev pub asked : AnyAddr
  asked = make ipv4 (d0 ∷ d1 ∷ d2 ∷ d3 ∷ [])

  abbrev pub request : List ℕ
  request = 8 ∷ code ∷ c0 ∷ c1 ∷ rest

  -- What happens to a request: `a` sends it, `b` delivers it to ICMP, which answers, `b` sends the
  -- answer, and `a` delivers it. Every link may append bytes.
  pub record IsAnswered (a b : Ipv4) (hw_a hw_b : AnyAddr) (interface_a interface_b now ms : ℕ)
      (padding padding' answer : List ℕ) : Type 0 where
    pub q : Routed
    pub q' : Routed
    pub a' : Ipv4
    pub b' : Ipv4
    pub pkt : Packet
    pub pkt' : Packet
    pub reply : Transmitted
    pub sent : transmit_packet a none asked asker 1 request none ≡ some q
    pub received :
        receive b interface_b (from_link hw_a hw_b (q.payload ++ padding)) now
        ≡ some (b', queued 1 pkt ∷ [])
    pub replied : Icmp4.receive pkt ms ≡ reply ∷ []
    pub returned :
        transmit_packet b' none reply.dst_ip reply.src_ip reply.protocol reply.payload
          reply.header_template
        ≡ some q'
    pub arrived :
        receive a interface_a (from_link hw_b hw_a (q'.payload ++ padding')) now
        ≡ some (a', queued 1 pkt' ∷ [])
    pub delivered : pkt'.data_ ≡ answer

  -- An echo request of an even size from 8 to 65514 that a host `a` sends to a host `b`, with ICMP
  -- registered on both and the two hardware addresses taken in by the ARP caches, comes back to the
  -- ICMP layer of `a` as an echo reply: type 0, the request's code, a checksum that verifies, and
  -- the request's bytes behind the checksum.
  pub receive-ping :
      (a b : Ipv4) (ca cb : Cache) (hw_a hw_b : AnyAddr) (interface_a interface_b now ms : ℕ)
      (padding padding' : List ℕ)
      → a.myip ≡ asker
      → b.myip ≡ asked
      → registered a.prot_map 1 ≡ true
      → registered b.prot_map 1 ≡ true
      → 4 ≤ length rest
      → 4 + length rest ≡ 2 * n
      → 24 + length rest < 65536
      → All IsByte (code ∷ rest)
      → update_cache a.iarp hw_b asked interface_a false now ≡ some ca
      → update_cache b.iarp hw_a asker interface_b false now ≡ some cb
      → (checksum : ℕ) × (let answer = 0 ∷ code ∷ shr checksum 8 ∷ u8 checksum ∷ rest in
          IsAnswered a b hw_a hw_b interface_a interface_b now ms padding padding' answer
          × (ip_checksum answer n ≡ 0))
  unfolding get_exactly set
  receive-ping a b ca cb hw_a hw_b interface_a interface_b now ms padding padding' ma mb ra rb
        enough even small bytes ka kb =
      let len : 20 + length request < 65536 = omega arith in
      let (q, sent, received) =
        transmit_packet-queued s0 s1 s2 s3 d0 d1 d2 d3 a b cb none asked asker hw_a hw_b 1
          interface_b now request padding none refl refl refl refl mb rb len kb in
      let pkt = ip_packet s0 s1 s2 s3 d0 d1 d2 d3 hw_a request (take 20 q.payload) in
      let (replied, verified) =
        receive-echo pkt code c0 c1 n ms rest enough even (omega arith) bytes in
      let reply = echo_reply pkt code rest in
      let len' : 20 + length reply.payload < 65536 = omega arith in
      let (q', returned, arrived) =
        transmit_packet-queued d0 d1 d2 d3 s0 s1 s2 s3 _ a ca none asker asked hw_b hw_a 1
          interface_a now reply.payload padding' reply.header_template refl refl refl refl ma ra
          len' ka in
      (
        _,
        (
          record {
            q = q;
            q' = q';
            a' = _;
            b' = _;
            pkt = pkt;
            pkt' = _;
            reply = reply;
            sent = sent;
            received = received;
            replied = replied;
            returned = returned;
            arrived = arrived;
            delivered = refl;
          },
          verified,
        ),
      )
