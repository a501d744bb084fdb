-- ===== src/Sctp/Echo.antt =====
-- The cookie of an INIT ACK of sctp.cpp, as a client echoes it.
use myip.Base.{
  refl, ℕ, ◌+◌, ◌-◌, ◌*◌, ◌≡◌, ◌≤◌, sym, ap, ◌∙◌, List, ◌∷◌, ◌++◌, arith, length, take, drop,
  get_or, replicate, be16, be32, u8, shr, take-append, length-append,
}
use myip.Addr.Defs.{AnyAddr}
use myip.Buffer.RoundTrip.{add_padding-multiple}
use myip.Sctp.{Sctp, Context, addr_bytes}
use myip.Sctp.Chunks.{init_ack, state_cookie, cookie_body}
use myip.Sctp.Send.{sctp_packet}
use myip.Sctp.Handler.{context}

-- The cookie that a client reads from the bytes of an answer: the parameter of its first chunk.
abbrev pub echoed : List ℕ → List ℕ
echoed reply = take (256 * get_or reply 34 0 + get_or reply 35 0 - 4) (drop 36 reply)

pub cookie-length :
    (hmac : List ℕ → List ℕ) (t : Sctp) (c : Context) (v x m : ℕ)
    → length (addr_bytes c.their_addr) ≤ 16
    → ((content : List ℕ) → length (hmac content) ≡ 28)
    → length (state_cookie hmac t c v x m) ≤ 65
unfolding state_cookie cookie_body
cookie-length hmac t c v x m ha hh =
    let body : List ℕ = cookie_body t c v x m in
    let tail : List ℕ =
      be16 c.source_port ++ (be16 c.destination_port ++ be32 t.state_cookie_key_timestamp) in
    let mac = hh body in
    omega (arith, length-append body (hmac body), length-append (addr_bytes c.their_addr) tail)

-- The cookie stands in the INIT ACK.
pub echoed-init_ack :
    (hmac : List ℕ → List ℕ) (crc32c : List ℕ → ℕ) (t : Sctp) (c : Context) (drawn : ℕ × ℕ)
    (sp dp tag tsn : ℕ)
    → length (state_cookie hmac t c tag tsn drawn.1) ≤ 65
    → echoed (sctp_packet crc32c dp sp tag (init_ack hmac t c drawn tag tsn))
      ≡ state_cookie hmac t c tag tsn drawn.1
unfolding sctp_packet init_ack
echoed-init_ack hmac crc32c t c drawn sp dp tag tsn h =
    let k : List ℕ = state_cookie hmac t c tag tsn drawn.1 in
    let n : ℕ = length k in
    let out : List ℕ =
      2
      ∷ 0
      ∷ (be16 (24 + n)
          ++ (be32 drawn.0
              ++ (be32 4096
                  ++ (be16 1 ++ (be16 1 ++ (be32 drawn.1 ++ (be16 7 ++ (be16 (4 + n) ++ k)))))))) in
    let (zeros, few, padded, whole) = add_padding-multiple out 4 (omega arith) in
    let size : 256 * u8 (shr (4 + n) 8) + u8 (4 + n) - 4 ≡ n = omega arith in
    ap (λ (a : List ℕ). echoed (sctp_packet crc32c dp sp tag a)) padded
    ∙ ap (λ (m : ℕ). take m (k ++ replicate zeros 0)) size
    ∙ take-append k (replicate zeros 0)

-- The INIT ACK is for the client's tag, and has the tag and the number of this host that were drawn.
pub init_ack-numbers :
    (hmac : List ℕ → List ℕ) (crc32c : List ℕ → ℕ) (t : Sctp) (c : Context) (drawn : ℕ × ℕ)
    (sp dp tag tsn : ℕ)
    → let reply = sctp_packet crc32c dp sp tag (init_ack hmac t c drawn tag tsn) in
      (take 4 (drop 4 reply) ≡ be32 tag)
      × (take 4 (drop 16 reply) ≡ be32 drawn.0)
      × (take 4 (drop 28 reply) ≡ be32 drawn.1)
unfolding sctp_packet init_ack
init_ack-numbers hmac crc32c t c drawn sp dp tag tsn =
    let k : List ℕ = state_cookie hmac t c tag tsn drawn.1 in
    let out : List ℕ =
      2
      ∷ 0
      ∷ (be16 (24 + length k)
          ++ (be32 drawn.0
              ++ (be32 4096
                  ++ (be16 1
                      ++ (be16 1 ++ (be32 drawn.1 ++ (be16 7 ++ (be16 (4 + length k) ++ k)))))))) in
    let (zeros, few, padded, whole) = add_padding-multiple out 4 (omega arith) in
    (
      refl,
      ap (λ (a : List ℕ). take 4 (drop 16 (sctp_packet crc32c dp sp tag a))) padded,
      ap (λ (a : List ℕ). take 4 (drop 28 (sctp_packet crc32c dp sp tag a))) padded,
    )

-- A cookie depends on the addresses and ports, and on the time of the key.
pub same_cookie :
    (hmac : List ℕ → List ℕ) (t t' : Sctp) (their dst : AnyAddr) (sp dp : ℕ)
    (draw draw' : ℕ → ℕ × ℕ) (v x m : ℕ)
    → t'.state_cookie_key_timestamp ≡ t.state_cookie_key_timestamp
    → state_cookie hmac t (context their dst sp dp draw) v x m
      ≡ state_cookie hmac t' (context their dst sp dp draw') v x m
unfolding state_cookie cookie_body
same_cookie hmac t t' their dst sp dp draw draw' v x m h =
    ap
      (λ (stamp : ℕ).
        state_cookie hmac (record t { state_cookie_key_timestamp = stamp })
          (context their dst sp dp draw) v x m)
      (sym h)
