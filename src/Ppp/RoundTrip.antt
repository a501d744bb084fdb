-- ===== src/Ppp/RoundTrip.antt =====
-- What `wrap_in_ppp_frame` writes `unwrap_ppp_frame` reads.
use myip.Base.{
  ℕ, ◌≡◌, refl, sym, ap, ◌∙◌, Bool, true, false, Option, none, some, List, [], ◌∷◌, ◌==◌, arith,
  All, bit_xor-twice, subst, bit_xor, Bool-cases, inl, inr,
}
use myip.Ppp.{escape, must_escape, unwrap_ppp_frame}

unwrap_escaped :
    (d : ℕ) (payload out : List ℕ)
    → unwrap_ppp_frame payload ≡ some out
    → unwrap_ppp_frame (0x7d ∷ d ∷ payload) ≡ some (bit_xor d 0x20 ∷ out)
unfolding unwrap_ppp_frame
unwrap_escaped d payload out h = rw h refl

unwrap_plain :
    (c : ℕ) (payload out : List ℕ)
    → (c == 0x7d) ≡ false
    → unwrap_ppp_frame payload ≡ some out
    → unwrap_ppp_frame (c ∷ payload) ≡ some (c ∷ out)
unfolding unwrap_ppp_frame
unwrap_plain c [] out h k =
    rw (unwrap_ppp_frame, h)
      (ap (λ (o : Option (List ℕ)). elim o [ none ↦ none | some t ↦ some (c ∷ t) ]) k)
unwrap_plain c (d ∷ payload) out h k =
    rw (unwrap_ppp_frame, h)
      (ap (λ (o : Option (List ℕ)). elim o [ none ↦ none | some t ↦ some (c ∷ t) ]) k)

must_escape_plain :
    (accm : List ℕ) (meta : Bool) (b : ℕ) → must_escape accm meta b ≡ false → (b == 0x7d) ≡ false
unfolding must_escape
must_escape_plain accm meta b h = ground arith

must_escape_flag :
    (accm : List ℕ) (meta : Bool) (b : ℕ) → must_escape accm meta b ≡ false → (b == 0x7e) ≡ false
unfolding must_escape
must_escape_flag accm meta b h = ground arith

escape_marked :
    (accm : List ℕ) (meta : Bool) (b : ℕ) (temp : List ℕ)
    → must_escape accm meta b ≡ true
    → escape accm meta (b ∷ temp) ≡ 0x7d ∷ bit_xor b 0x20 ∷ escape accm meta temp
unfolding escape
escape_marked accm meta b temp h = rw h refl

escape_other :
    (accm : List ℕ) (meta : Bool) (b : ℕ) (temp : List ℕ)
    → must_escape accm meta b ≡ false
    → escape accm meta (b ∷ temp) ≡ b ∷ escape accm meta temp
unfolding escape
escape_other accm meta b temp h = rw h refl

-- Whatever the character map, the bytes between the flags of a frame are unwrapped to those that were
-- escaped, and nothing is thrown.
pub unwrap_ppp_frame-escape :
    (accm : List ℕ) (not_ppp_meta : Bool) (temp : List ℕ)
    → unwrap_ppp_frame (escape accm not_ppp_meta temp) ≡ some temp
unfolding unwrap_ppp_frame escape
unwrap_ppp_frame-escape accm meta [] = refl
unwrap_ppp_frame-escape accm meta (b ∷ temp) =
    let ih = unwrap_ppp_frame-escape accm meta temp in
    elim (Bool-cases (must_escape accm meta b)) [
      | inl h ↦
          ap unwrap_ppp_frame (escape_marked accm meta b temp h)
          ∙ unwrap_escaped (bit_xor b 0x20) (escape accm meta temp) temp ih
          ∙ ap (λ t. some (t ∷ temp)) (bit_xor-twice b 0x20)
      | inr h ↦
          ap unwrap_ppp_frame (escape_other accm meta b temp h)
          ∙ unwrap_plain b (escape accm meta temp) temp (must_escape_plain accm meta b h) ih
    ]

same_94 : (accm : List ℕ) (meta : Bool) → must_escape accm meta 0x5e ≡ must_escape accm true 0x5e
unfolding must_escape
same_94 accm meta = refl

escaped_flag :
    (accm : List ℕ) (meta : Bool) (b : ℕ)
    → must_escape accm true 0x5e ≡ false
    → must_escape accm meta b ≡ true
    → (bit_xor b 0x20 == 0x7e) ≡ false
escaped_flag accm meta b h k = elim (Bool-cases (bit_xor b 0x20 == 0x7e)) [
  | inr f ↦ f
  | inl t ↦
      let flag : bit_xor b 0x20 ≡ 0x7e = ground arith in
      let marked : b ≡ 0x5e = sym (bit_xor-twice b 0x20) ∙ ap (λ t. bit_xor t 0x20) flag in
      let yes_no : true ≡ false =
        sym k ∙ ap (must_escape accm meta) marked ∙ same_94 accm meta ∙ h in
      t ∙ yes_no
]

-- No byte is the flag.
abbrev pub IsFlagless : List ℕ → Type 0
IsFlagless bytes = All (λ (b : ℕ). (b == 0x7e) ≡ false) bytes

-- If the character map does not mark 0x5e, there is no flag between the flags of a frame: the
-- receiver finds the end of the frame at its end.
pub escape-IsFlagless :
    (accm : List ℕ) (not_ppp_meta : Bool) (temp : List ℕ)
    → must_escape accm true 0x5e ≡ false
    → IsFlagless (escape accm not_ppp_meta temp)
unfolding escape
escape-IsFlagless accm meta [] h = tt
escape-IsFlagless accm meta (b ∷ temp) h =
    let ih = escape-IsFlagless accm meta temp h in
    elim (Bool-cases (must_escape accm meta b)) [
      | inl k ↦
          subst IsFlagless (sym (escape_marked accm meta b temp k))
            (refl, (escaped_flag accm meta b h k, ih))
      | inr k ↦
          subst IsFlagless (sym (escape_other accm meta b temp k))
            (must_escape_flag accm meta b k, ih)
    ]
