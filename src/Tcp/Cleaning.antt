-- ===== src/Tcp/Cleaning.antt =====
-- What `session_cleaner` of tcp.cpp does to the sessions.
use myip.Base.{
  ℕ, zero, suc, ◌<◌, ◌≡◌, refl, ap, sym, ◌∙◌, true, false, Option, none, some, List, [], ◌∷◌, ◌++◌,
  length, arith, All, append_assoc, append-nil, Bool-cases, inl, inr, if◌then◌else◌,
}
use myip.Tcp.State.{Tcp, TcpSession}
use myip.Tcp.Cleaner.{expired, retire, clean_from, clean}

abbrev pub Entry : Type 0
Entry = ℕ × TcpSession

-- The entries that stay, and the sessions that go, in their order.
pub staying : ℕ → List Entry → List Entry
staying now [] = []
staying now ((k, s) ∷ m) = if expired now s then staying now m else (k, s) ∷ staying now m

pub going : ℕ → List Entry → List TcpSession
going now [] = []
going now ((k, s) ∷ m) = if expired now s then s ∷ going now m else going now m

abbrev pub IsSetUp : Entry → Type 0
IsSetUp e = e.1.in_init ≡ false

record Cleaned (t : Tcp) (stay : List Entry) (go : List TcpSession) (result : Option Tcp)
    : Type 0 where
  final : Tcp
  ends : result ≡ some final
  left : final.sessions ≡ stay
  ended : final.ending_sessions ≡ t.ending_sessions ++ go
  counted : final.stats.tcp_cur_n_sessions ≡ length stay

clean_from-Cleaned :
    (fuel now : ℕ) (kept ahead : List Entry) (t : Tcp)
    → length ahead < fuel
    → All IsSetUp ahead
    → Cleaned t (kept ++ staying now ahead) (going now ahead) (clean_from fuel now kept ahead t)
unfolding clean_from staying going
clean_from-Cleaned zero now kept ahead t h ok = absurd (omega arith)
clean_from-Cleaned (suc fuel) now kept [] t h ok = record {
  final = record t {
    sessions = kept;
    stats = record (t.stats) { tcp_cur_n_sessions = length kept };
  };
  ends = refl;
  left = sym (append-nil kept);
  ended = sym (append-nil t.ending_sessions);
  counted = ap length (sym (append-nil kept));
}
clean_from-Cleaned (suc fuel) now kept ((k, s) ∷ ahead) t h ok = elim (Bool-cases (expired now s)) [
  | inl old ↦
      let r = clean_from-Cleaned fuel now kept ahead (retire t s) (omega arith) ok.1 in
      record {
        final = r.final;
        ends = ground (arith, ok.0, old, r.ends);
        left = rw old r.left;
        ended = rw old (
            r.ended ∙ (unfold retire in append_assoc t.ending_sessions (s ∷ []) (going now ahead)));
        counted = rw old r.counted;
      }
  | inr young ↦
      let r = clean_from-Cleaned fuel now (kept ++ (k, s) ∷ []) ahead t (omega arith) ok.1 in
      let shift = append_assoc kept ((k, s) ∷ []) (staying now ahead) in
      record {
        final = r.final;
        ends = ground (arith, ok.0, young, r.ends);
        left = rw young (r.left ∙ shift);
        ended = rw young r.ended;
        counted = rw young (r.counted ∙ ap length shift);
      }
]

-- With no session in its set-up the round ends: the sessions that have not expired stay, in their
-- order, all others go to the queue of `session_ender`, in theirs, and the gauge of sessions
-- counts those that stay.
pub clean_lem :
    (fuel now : ℕ) (t : Tcp)
    → length t.sessions < fuel
    → All IsSetUp t.sessions
    → (t' : Tcp) × (clean fuel now t ≡ some t')
      × (t'.sessions ≡ staying now t.sessions)
      × (t'.ending_sessions ≡ t.ending_sessions ++ going now t.sessions)
      × (t'.stats.tcp_cur_n_sessions ≡ length t'.sessions)
unfolding clean
clean_lem fuel now t h ok =
    let r = clean_from-Cleaned fuel now [] t.sessions t h ok in
    (r.final, r.ends, r.left, r.ended, r.counted ∙ ap length (sym r.left))

-- Some session is being set up.
abbrev pub AnyInSetup : List Entry → Type 0
AnyInSetup [] = ⊥
AnyInSetup ((k, s) ∷ m) = elim s.in_init [ true ↦ Unit | false ↦ AnyInSetup m ]

clean_from-endless :
    (fuel now : ℕ) (kept ahead : List Entry) (t : Tcp)
    → AnyInSetup ahead
    → clean_from fuel now kept ahead t ≡ none
unfolding clean_from
clean_from-endless zero now kept ahead t any = refl
clean_from-endless (suc fuel) now kept [] t any = absurd any
clean_from-endless (suc fuel) now kept ((k, s) ∷ ahead) t any = ground (
  arith,
  clean_from-endless fuel now kept ((k, s) ∷ ahead) t,
  clean_from-endless fuel now kept ahead (retire t s),
  clean_from-endless fuel now (kept ++ (k, s) ∷ []) ahead t,
)

-- As long as one session is being set up by a client, the round does not end, whatever the fuel:
-- `continue` leaves the iterator where it is, and the lock of the sessions is held.
clean-endless : (fuel now : ℕ) (t : Tcp) → AnyInSetup t.sessions → clean fuel now t ≡ none
unfolding clean
clean-endless fuel now t any = clean_from-endless fuel now [] t.sessions t any
