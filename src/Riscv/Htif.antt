-- ===== src/Riscv/Htif.antt =====
-- am/src/riscv/spike/htif.c: the console over the words tohost and fromhost, on a 64-bit machine and
-- with the lock held, one access of a shared word after the other. The host takes what is in tohost,
-- and answers a read request through fromhost when that is free.
pub mod Word
pub mod Token
pub mod Order
use abstract_machine.Base.{
  ℕ, zero, suc, ◌+◌, ◌*◌, ◌/◌, ◌%◌, ◌^◌, ◌≡◌, ◌≢◌, ◌<◌, bit_or, List, [], ◌∷◌, ◌==◌, ◌!=◌, ◌&&◌,
  if◌then◌else◌,
}
use abstract_machine.Base.Int.{ℤ, pos, negsuc}

-- TOHOST_CMD, FROMHOST_DEV, FROMHOST_CMD and FROMHOST_DATA of htif.h
unfoldable pub tohost_cmd : ℕ → ℕ → ℕ → ℕ
tohost_cmd dev cmd payload = bit_or (bit_or (dev * 2 ^ 56 % 2 ^ 64) (cmd * 2 ^ 48 % 2 ^ 64)) payload

unfoldable pub fromhost_dev : ℕ → ℕ
fromhost_dev value = value / 2 ^ 56

unfoldable pub fromhost_cmd : ℕ → ℕ
fromhost_cmd value = value * 2 ^ 8 % 2 ^ 64 / 2 ^ 56

unfoldable pub fromhost_data : ℕ → ℕ
fromhost_data value = value * 2 ^ 16 % 2 ^ 64 / 2 ^ 16

-- Where __check_fromhost returns to: the loop of __set_tohost with its command, or
-- htif_console_getchar.
pub data Caller : Type 0 where
  set_tohost : (command : ℕ) → Caller
  getchar : Caller

-- Where the guest stands: outside, before it reads fromhost, before it clears it, before it reads
-- htif_console_buf, before it reads tohost, before it writes it, or at a failed assertion.
pub data Guest : Type 0 where
  idle : Guest
  checking : Caller → Guest
  clearing : (fh : ℕ) → Caller → Guest
  reading : Guest
  polling : (command : ℕ) → Guest
  sending : (command : ℕ) → Guest
  asserted : Guest

-- The words, the guest, and the read requests that the host has not answered; then, the latest
-- first, the commands for the host and those it took, the bytes it answered with, and the results
-- of htif_console_getchar.
pub record Link : Type 0 where
  pub tohost : ℕ
  pub fromhost : ℕ
  pub console_buf : ℤ
  pub guest : Guest
  pub reads : ℕ
  pub commands : List ℕ
  pub taken : List ℕ
  pub answers : List ℕ
  pub results : List ℤ

abbrev pub booted : Link
booted = record {
  tohost = 0;
  fromhost = 0;
  console_buf = pos 0;
  guest = idle;
  reads = 0;
  commands = [];
  taken = [];
  answers = [];
  results = [];
}

abbrev pub resume : Caller → Guest
resume (set_tohost command) = polling command
resume getchar = reading

-- (uint8_t)FROMHOST_DATA(fh)
abbrev pub byte : ℕ → ℕ
byte fh = fromhost_data fh % 256

-- __set_tohost, up to its loop
abbrev pub sends : ℕ → Link → Link
sends command s = record s { guest = polling command; commands = command ∷ s.commands }

-- __check_fromhost, from the first access to the second, and from the second on
unfoldable pub check : Link → Caller → Link
check s k = record s { guest = if s.fromhost == 0 then resume k else clearing s.fromhost k }

unfoldable pub clear : Link → ℕ → Caller → Link
clear s fh k =
    if fromhost_dev fh != 1
    then record s { fromhost = 0; guest = asserted }
    else if fromhost_cmd fh == 0
    then record s { fromhost = 0; console_buf = pos (suc (byte fh)); guest = resume k }
    else if fromhost_cmd fh == 1
    then record s { fromhost = 0; guest = resume k }
    else record s { fromhost = 0; guest = asserted }

-- htif_console_getchar from the read of htif_console_buf on; it returns ch - 1.
unfoldable pub read_buf : Link → ℤ → Link
read_buf s (pos zero) =
    sends (tohost_cmd 1 0 0) (record s { console_buf = negsuc 0; results = negsuc 0 ∷ s.results })
read_buf s (pos (suc c)) =
    sends (tohost_cmd 1 0 0) (record s { console_buf = negsuc 0; results = pos c ∷ s.results })
read_buf s (negsuc n) = record s { guest = idle; results = negsuc (suc n) ∷ s.results }

-- One access of the guest.
unfoldable pub guest_move : Link → Guest → Link
guest_move s idle = s
guest_move s (checking k) = check s k
guest_move s (clearing fh k) = clear s fh k
guest_move s reading = read_buf s s.console_buf
guest_move s (polling command) = record s {
  guest = if s.tohost == 0 then sending command else checking (set_tohost command);
}
guest_move s (sending command) = record s { tohost = command; guest = idle }
guest_move s asserted = s

-- htif_console_putchar and htif_console_getchar, up to the first access.
unfoldable pub putchar : ℕ → Link → Link
putchar ch s = sends (tohost_cmd 1 1 ch) s

unfoldable pub getchar_starts : Link → Link
getchar_starts s = record s { guest = checking getchar }

-- A command that asks the console for a byte.
abbrev pub query : ℕ → ℕ
query n = if fromhost_dev n == 1 && fromhost_cmd n == 0 then 1 else 0

abbrev pub host_takes : Link → Link
host_takes s = record s { tohost = 0; taken = s.tohost ∷ s.taken; reads = s.reads + query s.tohost }

abbrev pub host_answers : ℕ → ℕ → Link → Link
host_answers v n s = record s { fromhost = v; reads = n; answers = byte v ∷ s.answers }

-- A call, an access of the guest, or what the host does at any time in between.
pub data Step (s : Link) : Link → Type 0 where
  prints : (ch : ℕ) → s.guest ≡ idle → ch < 256 → Step s (putchar ch s)
  asks : s.guest ≡ idle → Step s (getchar_starts s)
  goes : Step s (guest_move s s.guest)
  takes : s.tohost ≢ 0 → Step s (host_takes s)
  answered :
      (v n : ℕ)
      → s.fromhost ≡ 0
      → s.reads ≡ suc n
      → fromhost_dev v ≡ 1
      → fromhost_cmd v ≡ 0
      → Step s (host_answers v n s)

pub data Reach : Link → Type 0 where
  start : Reach booted
  later : {s t : Link} → Reach s → Step s t → Reach t
