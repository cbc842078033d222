-- ===== src/Riscv/Htif/Order.antt =====
-- am/src/riscv/spike/htif.c: no command and no byte is lost, doubled or overtaken, and no assertion
-- fails.
use mathlib.Core.Path.{subst}
use abstract_machine.Base.{
  ℕ, zero, suc, ◌+◌, ◌≡◌, ◌≢◌, ◌⊎◌, inl, inr, refl, sym, ap, ◌∙◌, arith, List, ◌∷◌, ◌==◌,
  if◌then◌else◌, Bool-cases,
}
use abstract_machine.Base.Int.{ℤ, pos, negsuc}
use abstract_machine.Riscv.Htif.{
  Link, Guest, idle, checking, clearing, reading, polling, sending, asserted, Caller, set_tohost,
  getchar, resume, booted, byte, check, clear, read_buf, guest_move, putchar, getchar_starts, query,
  tohost_cmd, fromhost_dev, fromhost_cmd, Step, prints, asks, goes, takes, answered, Reach, start,
  later,
}
use abstract_machine.Riscv.Htif.Word.{put_command, get_command, query_zero}
use abstract_machine.Riscv.Htif.Token.{
  Token, received, clears-Token, answers-Token, reads_empty, reads_held, one_open,
}

-- The command that the guest is about to send.
abbrev pub carried : Guest → ℕ
carried (checking (set_tohost c)) = c
carried (clearing fh (set_tohost c)) = c
carried (polling c) = c
carried (sending c) = c
carried guest = 0

-- A word that is not 0 stands before the list.
abbrev pub slot : ℕ → List ℕ → List ℕ
slot n l = if n == 0 then l else n ∷ l

slot_first : (n : ℕ) (l m : List ℕ) → n ≢ 0 → l ≡ m → slot n l ≡ n ∷ m
slot_first n l m h e = ground (arith, e)

slot_zero : (n : ℕ) (l : List ℕ) → n ≡ 0 → slot n l ≡ l
slot_zero n l h = ground (arith)

moved : {b : ℤ} {q p f : ℕ} {a r : List ℕ} → q ≡ p → Token b q f a r → Token b p f a r
moved {b} {f = f} {a = a} {r = r} e t = subst (λ n. Token b n f a r) e t

abbrev Named : Caller → Type 0
Named (set_tohost c) = c ≢ 0
Named getchar = Unit {0}

abbrev Fits : Guest → ℕ → ℕ → Type 0
Fits (checking k) t f = Named k
Fits (clearing fh k) t f = ((fh ≡ f) × (fh ≢ 0)) × Named k
Fits (polling c) t f = c ≢ 0
Fits (sending c) t f = (c ≢ 0) × (t ≡ 0)
Fits asserted t f = ⊥
Fits guest t f = Unit {0}

Fits-taken : (g : Guest) (t f : ℕ) → t ≢ 0 → Fits g t f → Fits g 0 f
Fits-taken idle t f n h = tt
Fits-taken (checking k) t f n h = h
Fits-taken (clearing fh k) t f n h = h
Fits-taken reading t f n h = tt
Fits-taken (polling c) t f n h = h
Fits-taken (sending c) t f n h = absurd (n h.1)
Fits-taken asserted t f n h = h

Fits-answered : (g : Guest) (t f v : ℕ) → f ≡ 0 → Fits g t f → Fits g t v
Fits-answered idle t f v z h = tt
Fits-answered (checking k) t f v z h = h
Fits-answered (clearing fh k) t f v z h = absurd (h.0.1 (h.0.0 ∙ z))
Fits-answered reading t f v z h = tt
Fits-answered (polling c) t f v z h = h
Fits-answered (sending c) t f v z h = h
Fits-answered asserted t f v z h = h

not_asserted : (g : Guest) (t f : ℕ) → g ≡ asserted → Fits g t f → ⊥
not_asserted g t f e h = subst (λ x. Fits x t f) e h

-- The read requests under way.
abbrev requests : Guest → ℕ → ℕ → ℕ
requests g t reads = query (carried g) + query t + reads

-- The invariant, with the guest at `g`.
record At (s : Link) (g : Guest) : Type 0 where
  fits : Fits g s.tohost s.fromhost
  order : slot (carried g) (slot s.tohost s.taken) ≡ s.commands
  token :
      Token s.console_buf (requests g s.tohost s.reads) s.fromhost s.answers (received s.results)

abbrev Sound : Link → Type 0
Sound s = At s s.guest

booted-Sound : Sound booted
unfolding received fromhost_dev fromhost_cmd
booted-Sound = record { fits = tt; order = refl; token = Token.empty }

-- Where __check_fromhost returns, nothing has changed.
resume_At : (s : Link) (k : Caller) → At s (checking k) → At s (resume k)
resume_At s (set_tohost c) h = record { fits = h.fits; order = h.order; token = h.token }
resume_At s getchar h = record { fits = tt; order = h.order; token = h.token }

clearing_At :
    (s : Link) (k : Caller)
    → s.fromhost ≢ 0
    → At s (checking k)
    → At (record s { guest = clearing s.fromhost k }) (clearing s.fromhost k)
clearing_At s (set_tohost c) n h = record {
  fits = ((refl, n), h.fits);
  order = h.order;
  token = h.token;
}
clearing_At s getchar n h = record { fits = ((refl, n), tt); order = h.order; token = h.token }

check-Sound : (s : Link) (k : Caller) → At s (checking k) → Sound (check s k)
unfolding check
check-Sound s k h = elim (Bool-cases (s.fromhost == 0)) [
  | inl e ↦
      let r = resume_At s k h in rw e (record { fits = r.fits; order = r.order; token = r.token })
  | inr e ↦ rw e (clearing_At s k (λ z. ground (arith)) h)
]

cleared :
    (s : Link) (fh : ℕ) (k : Caller) (b : ℤ)
    → At s (clearing fh k)
    → Token b (requests (clearing fh k) s.tohost s.reads) 0 s.answers (received s.results)
    → At (record s { fromhost = 0; console_buf = b; guest = resume k }) (resume k)
cleared s fh (set_tohost c) b h t = record { fits = h.fits.1; order = h.order; token = t }
cleared s fh getchar b h t = record { fits = tt; order = h.order; token = t }

clear-Sound : (s : Link) (fh : ℕ) (k : Caller) → At s (clearing fh k) → Sound (clear s fh k)
unfolding clear
clear-Sound s fh k h =
    let e = h.fits.0.0 in
    let ((d, c), t) = clears-Token (λ z. h.fits.0.1 (e ∙ z)) h.token in
    let fd : fromhost_dev fh ≡ 1 = rw e d in
    let fc : fromhost_cmd fh ≡ 0 = rw e c in
    rw (fd, fc) (cleared s fh k (pos (suc (byte fh))) h (rw e t))

read_buf-Sound : (s : Link) (b : ℤ) → s.console_buf ≡ b → At s reading → Sound (read_buf s b)
unfolding read_buf received
read_buf-Sound s (pos zero) e h =
    let (q, n) = get_command in
    record {
      fits = n;
      order = slot_first (tohost_cmd 1 0 0) (slot s.tohost s.taken) s.commands n h.order;
      token = moved (omega (arith, q, query_zero)) (reads_empty e h.token);
    }
read_buf-Sound s (pos (suc c)) e h =
    let (q, n) = get_command in
    record {
      fits = n;
      order = slot_first (tohost_cmd 1 0 0) (slot s.tohost s.taken) s.commands n h.order;
      token = moved (omega (arith, q, query_zero)) (reads_held e h.token);
    }
read_buf-Sound s (negsuc n) e h = record { fits = tt; order = h.order; token = h.token }

poll-Sound : (s : Link) (c : ℕ) → At s (polling c) → Sound (guest_move s (polling c))
unfolding guest_move
poll-Sound s c h = elim (Bool-cases (s.tohost == 0)) [
  | inl e ↦ rw e (record { fits = (h.fits, ground (arith)); order = h.order; token = h.token })
  | inr e ↦ rw e (record { fits = h.fits; order = h.order; token = h.token })
]

send-Sound : (s : Link) (c : ℕ) → At s (sending c) → Sound (guest_move s (sending c))
unfolding guest_move
send-Sound s c h = record {
  fits = tt;
  order = sym (ap (λ (l : List ℕ). slot c l) (slot_zero s.tohost s.taken h.fits.1)) ∙ h.order;
  token = moved (omega (arith, query_zero, ap (λ (n : ℕ). query n) h.fits.1)) h.token;
}

guest_move-Sound : (s : Link) (g : Guest) → s.guest ≡ g → At s g → Sound (guest_move s g)
unfolding guest_move
guest_move-Sound s idle e h = subst (λ g. At s g) (sym e) h
guest_move-Sound s (checking k) e h = check-Sound s k h
guest_move-Sound s (clearing fh k) e h = clear-Sound s fh k h
guest_move-Sound s reading e h = read_buf-Sound s s.console_buf refl h
guest_move-Sound s (polling c) e h = poll-Sound s c h
guest_move-Sound s (sending c) e h = send-Sound s c h
guest_move-Sound s asserted e h = absurd (h.fits)

Step-Sound : {s t : Link} → Step s t → Sound s → Sound t
unfolding putchar getchar_starts
Step-Sound {s} (prints ch e lt) h =
    let (q, n) = put_command ch lt in
    let i : At s idle = subst (λ g. At s g) e h in
    record {
      fits = n;
      order = slot_first (tohost_cmd 1 1 ch) (slot s.tohost s.taken) s.commands n i.order;
      token = moved (omega (arith, q, query_zero)) i.token;
    }
Step-Sound {s} (asks e) h =
    let i : At s idle = subst (λ g. At s g) e h in
    record { fits = tt; order = i.order; token = i.token }
Step-Sound {s} goes h = guest_move-Sound s s.guest refl h
Step-Sound {s} (takes n) h = record {
  fits = Fits-taken s.guest s.tohost s.fromhost n h.fits;
  order =
      sym
        (ap (λ (l : List ℕ). slot (carried s.guest) l) (slot_first s.tohost s.taken s.taken n refl))
      ∙ h.order;
  token = moved (omega (arith, query_zero)) h.token;
}
Step-Sound {s} (answered v n z e d c) h = record {
  fits = Fits-answered s.guest s.tohost s.fromhost v z h.fits;
  order = h.order;
  token = answers-Token (omega arith) z d c h.token;
}

Reach-Sound : {s : Link} → Reach s → Sound s
Reach-Sound start = booted-Sound
Reach-Sound (later r mv) = Step-Sound mv (Reach-Sound r)

-- In every reachable state the commands for the host are those that it took, the one in tohost and
-- the one that the guest is about to send, in this order and each of them once.
pub commands-taken :
    {s : Link} → Reach s → slot (carried s.guest) (slot s.tohost s.taken) ≡ s.commands
commands-taken r = (Reach-Sound r).order

-- In every reachable state the bytes that htif_console_getchar has returned are the bytes that the
-- host answered with, in their order and each of them once, but for at most the last one; and no
-- assertion has failed.
pub answers-received :
    {s : Link}
    → Reach s
    → ((s.answers ≡ received s.results) ⊎ ((c : ℕ) × (s.answers ≡ c ∷ received s.results)))
      × (s.guest ≢ asserted)
answers-received {s} r = (
  one_open (Reach-Sound r).token,
  λ e. not_asserted s.guest s.tohost s.fromhost e (Reach-Sound r).fits,
)

-- In a reachable state the answer that is about to be cleared is one of the console to a read.
pub clear_answer :
    {s : Link} {fh : ℕ} {k : Caller}
    → Reach s
    → s.guest ≡ clearing fh k
    → (fromhost_dev fh ≡ 1) × (fromhost_cmd fh ≡ 0)
clear_answer {s} {fh} {k} r g =
    let h : At s (clearing fh k) = subst (λ x. At s x) g (Reach-Sound r) in
    let e = h.fits.0.0 in
    let ((d, c), t) = clears-Token (λ z. h.fits.0.1 (e ∙ z)) h.token in (rw e d, rw e c)
