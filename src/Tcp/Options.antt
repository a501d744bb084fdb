-- ===== src/Tcp/Options.antt =====
-- The walk over the options of a segment in `tcp::packet_handler`: where it ends and where not.
use myip.Base.{
  ℕ, zero, suc, ◌+◌, ◌-◌, ◌≤◌, ◌<◌, ◌≡◌, refl, ap, Bool, true, false, List, ◌==◌, leb, length,
  get_or, arith, get_elem?-eq-get_or, Bool-cases, inl, inr, ◌≢◌, ◌&&◌, ◌∙◌,
}
use myip.Tcp.Header.{Scan, done, endless, scan_options, read, read_ts, take_ts, option_size}
use myip.Tcp.Segment.{be32_value}

-- The options from an offset on: kinds 0 and 1 have one byte, the others as many as their second
-- byte says, which is not 0; they end where less than two bytes of the header are left.
pub data Options (p : List ℕ) (stop : ℕ) : ℕ → Type 0 where
  ends : {cur : ℕ} → stop < cur + 2 → Options p stop cur
  single :
      {cur : ℕ}
      → cur + 2 ≤ stop
      → get_or p cur 0 < 2
      → Options p stop (cur + 1)
      → Options p stop cur
  long :
      {cur : ℕ}
      → cur + 2 ≤ stop
      → 2 ≤ get_or p cur 0
      → 1 ≤ get_or p (cur + 1) 0
      → Options p stop (cur + get_or p (cur + 1) 0)
      → Options p stop cur

read_lem : (p : List ℕ) (i : ℕ) (k : ℕ → Scan) → i < length p → read p i k ≡ k (get_or p i 0)
read_lem p i k h = ground (arith, get_elem?-eq-get_or p i 0)

read_ts_lem :
    (p : List ℕ) (i : ℕ) → i + 3 < length p → (ts' : ℕ) × ((k : ℕ → Scan) → read_ts p i k ≡ k ts')
read_ts_lem p i h = (
  be32_value (get_or p i 0) (get_or p (i + 1) 0) (get_or p (i + 2) 0) (get_or p (i + 3) 0),
  λ k. ground (
    arith,
    get_elem?-eq-get_or p i 0,
    get_elem?-eq-get_or p (i + 1) 0,
    get_elem?-eq-get_or p (i + 2) 0,
    get_elem?-eq-get_or p (i + 3) 0,
  ),
)

take_ts_lem :
    (p : List ℕ) (cur stop : ℕ) (flag_ack : Bool) (kind ts : ℕ)
    → stop ≤ length p
    → (ts' : ℕ) × ((k : ℕ → Scan) → take_ts p cur stop flag_ack kind ts k ≡ k ts')
take_ts_lem p cur stop flag_ack kind ts fits =
    elim (Bool-cases (kind == 8 && flag_ack && leb (cur + 6) stop)) [
      | inl e ↦ let r = read_ts_lem p (cur + 2) (ground arith) in (r.0, λ k. rw e (r.1 k))
      | inr e ↦ (ts, λ k. rw e)
    ]

single_size :
    (p : List ℕ) (cur : ℕ) (k : ℕ → Scan)
    → get_or p cur 0 < 2
    → option_size p cur (get_or p cur 0) k ≡ k 1
single_size p cur k h = ground arith

long_size :
    (p : List ℕ) (cur : ℕ) (k : ℕ → Scan)
    → 2 ≤ get_or p cur 0
    → cur + 1 < length p
    → option_size p cur (get_or p cur 0) k ≡ k (get_or p (cur + 1) 0)
long_size p cur k h l = ground (arith, get_elem?-eq-get_or p (cur + 1) 0)

-- One round moves on by the size of the option.
scan_options-step :
    (fuel : ℕ) (p : List ℕ) (cur stop : ℕ) (flag_ack : Bool) (ts size : ℕ)
    → ((k : ℕ → Scan) → option_size p cur (get_or p cur 0) k ≡ k size)
    → stop ≤ length p
    → cur + 2 ≤ stop
    → (ts' : ℕ) × (scan_options (suc fuel) p cur stop flag_ack ts
        ≡ scan_options fuel p (cur + size) stop flag_ack ts')
unfolding scan_options
scan_options-step fuel p cur stop flag_ack ts size o fits h =
    let kind = get_or p cur 0 in
    let t = take_ts_lem p cur stop flag_ack kind ts fits in
    let more : leb (cur + 2) stop ≡ true = ground arith in
    (
      t.0,
      enter more
          ∙ read_lem p cur
              (λ x. take_ts p cur stop flag_ack x ts (λ ts'.
                option_size p cur x (λ size. scan_options fuel p (cur + size) stop flag_ack ts')))
              (omega arith)
          ∙ t.1 (λ ts'.
            option_size p cur kind (λ size. scan_options fuel p (cur + size) stop flag_ack ts'))
          ∙ o (λ n. scan_options fuel p (cur + n) stop flag_ack t.0),
    )
  where
    enter :
        leb (cur + 2) stop ≡ true
        → scan_options (suc fuel) p cur stop flag_ack ts
          ≡ read p cur (λ kind. take_ts p cur stop flag_ack kind ts (λ ts'.
            option_size p cur kind (λ size. scan_options fuel p (cur + size) stop flag_ack ts')))
    enter e =
        ap
          (elim [
            | false ↦ done ts
            | true ↦ read p cur (λ kind. take_ts p cur stop flag_ack kind ts (λ ts'.
                option_size p cur kind
                  (λ size. scan_options fuel p (cur + size) stop flag_ack ts')))
          ])
          e

-- With a header that lies inside the packet, options of which none has the length 0, and fuel for
-- each byte, the walk ends: it returns a time stamp and reads nothing behind the packet.
pub scan_options-done :
    (fuel : ℕ) (p : List ℕ) (cur stop : ℕ) (flag_ack : Bool) (ts : ℕ)
    → Options p stop cur
    → stop ≤ length p
    → stop - cur < fuel
    → (r : ℕ) × (scan_options fuel p cur stop flag_ack ts ≡ done r)
scan_options-done zero p cur stop flag_ack ts os fits enough = absurd (omega arith)
scan_options-done (suc fuel) p cur stop flag_ack ts (ends h) fits enough =
    (ts, unfold scan_options in ground arith)
scan_options-done (suc fuel) p cur stop flag_ack ts (single h k os) fits enough =
    let (ts', e) =
      scan_options-step fuel p cur stop flag_ack ts 1 (λ f. single_size p cur f k) fits h in
    let (r, d) = scan_options-done fuel p (cur + 1) stop flag_ack ts' os fits (omega arith) in
    (r, e ∙ d)
scan_options-done (suc fuel) p cur stop flag_ack ts (long h k l os) fits enough =
    let size = get_or p (cur + 1) 0 in
    let (ts', e) =
      scan_options-step fuel p cur stop flag_ack ts size (λ f. long_size p cur f k (omega arith))
        fits h in
    let (r, d) = scan_options-done fuel p (cur + size) stop flag_ack ts' os fits (omega arith) in
    (r, e ∙ d)

-- An option of a kind above 1 with length 0, met before the last byte of the header, ends the walk
-- never: whatever the fuel, it runs out. (The kind 8 is left out, which may read a time stamp.)
scan_options-endless :
    (fuel : ℕ) (p : List ℕ) (cur stop : ℕ) (flag_ack : Bool) (ts : ℕ)
    → stop ≤ length p
    → cur + 2 ≤ stop
    → 2 ≤ get_or p cur 0
    → get_or p cur 0 ≢ 8
    → get_or p (cur + 1) 0 ≡ 0
    → scan_options fuel p cur stop flag_ack ts ≡ endless
unfolding scan_options
scan_options-endless zero p cur stop flag_ack ts fits h kind ne z = refl
scan_options-endless (suc fuel) p cur stop flag_ack ts fits h kind ne z =
    let e : cur + get_or p (cur + 1) 0 ≡ cur = omega arith in
    ground (
      arith,
      get_elem?-eq-get_or p cur 0,
      get_elem?-eq-get_or p (cur + 1) 0,
      e,
      scan_options-endless fuel p cur stop flag_ack ts,
    )
