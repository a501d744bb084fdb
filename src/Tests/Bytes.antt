-- ===== src/Tests/Bytes.antt =====
-- The theorems on buffers, checksums and frames at a few bytes.
use myip.Base.{ℕ, ◌≡◌, refl, List, [], ◌∷◌, arith, replicate, shr, u8}
use myip.Checksum.{ip_checksum}
use myip.Checksum.Verify.{checksum_verifies}

checksum_verifies_example :
    let c = ip_checksum (69 ∷ 200 ∷ 0 ∷ 0 ∷ 10 ∷ 255 ∷ []) 3 in
    ip_checksum (69 ∷ 200 ∷ shr c 8 ∷ u8 c ∷ 10 ∷ 255 ∷ []) 3 ≡ 0
checksum_verifies_example =
    checksum_verifies 1 3 (69 ∷ 200 ∷ []) (10 ∷ 255 ∷ []) refl refl (omega arith)
      (omega arith, (omega arith, tt)) (omega arith, (omega arith, tt))

abbrev ip_packet : List ℕ
ip_packet = 0xc0 ∷ 0xdb ∷ replicate 20 7
