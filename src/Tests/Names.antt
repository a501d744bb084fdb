-- ===== src/Tests/Names.antt =====
-- The theorems on DNS at the name www.a, and on mDNS at the name me.local.
use myip.Base.{◌++◌, Option, ℕ, ◌≡◌, refl, some, none, List, [], ◌∷◌, arith, length}
use myip.Dns.{Dns}
use myip.Dns.Query.{name_bytes, split}
use myip.Dns.Packet.{answer_to}
use myip.Mdns.{announcement, local}
use myip.Mdns.Records.{reads, announcement-read}
use myip.Tests.Data.{address}

abbrev dns : Dns
dns = record { dns_ip = address 9; my_ip = address 1; a_aaaa_cache = []; cname_cache = [] }

abbrev parts : List (List ℕ)
parts = (119 ∷ 119 ∷ 119 ∷ []) ∷ (97 ∷ []) ∷ []

abbrev answer : List ℕ
answer = answer_to 0 0x8180 1 parts 300 (10 ∷ 0 ∷ 0 ∷ 7 ∷ []) []

-- The bytes of an announcement that fits.
abbrev bytes : Option (List ℕ) → List ℕ
bytes none = []
bytes (some out) = out

abbrev me : List ℕ
me = 109 ∷ 101 ∷ []

abbrev announced : List ℕ
announced = bytes (announcement (me ++ 46 ∷ local) 80 (address 1))

announced_fits : announcement (me ++ 46 ∷ local) 80 (address 1) ≡ some announced
unfolding announcement name_bytes
announced_fits = refl

announcement-read_example :
    reads 4 announced 12
    ≡ some (
      (12, local) ∷ (16, me ++ 46 ∷ local) ∷ (33, me ++ 46 ∷ local) ∷ (1, me ++ 46 ∷ local) ∷ [],
      length announced,
    )
unfolding split
announcement-read_example =
    announcement-read (me ++ 46 ∷ local) me (local ∷ []) 80 (address 1) announced refl
      (
        (omega arith, omega arith, (refl, (refl, tt))),
        ((omega arith, omega arith, (refl, (refl, (refl, (refl, (refl, tt)))))), tt),
      )
      (omega arith) (omega arith) announced_fits
