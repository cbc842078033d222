-- ===== src/Riscv/Htif/Word.antt =====
-- am/src/riscv/spike/htif.h: the fields of a command.
use abstract_machine.Base.{ℕ, ◌+◌, ◌*◌, ◌%◌, ◌^◌, ◌<◌, ◌≡◌, ◌≢◌, refl, arith}
use abstract_machine.Base.Bits.{bit_or-shifted}
use abstract_machine.Riscv.Htif.{tohost_cmd, fromhost_dev, fromhost_cmd, fromhost_data, query}

tohost_cmd_sum :
    (dev cmd payload : ℕ)
    → dev < 2 ^ 8
    → cmd < 2 ^ 8
    → payload < 2 ^ 48
    → tohost_cmd dev cmd payload ≡ (dev * 256 + cmd) * 2 ^ 48 + payload
unfolding tohost_cmd
tohost_cmd_sum dev cmd payload d c p =
    let a : dev * 2 ^ 56 % 2 ^ 64 ≡ dev * 2 ^ 56 = omega arith in
    let b : cmd * 2 ^ 48 % 2 ^ 64 ≡ cmd * 2 ^ 48 = omega arith in
    let e = bit_or-shifted 56 dev (cmd * 2 ^ 48) (omega arith) in
    let g : dev * 2 ^ 56 + cmd * 2 ^ 48 ≡ (dev * 256 + cmd) * 2 ^ 48 = omega arith in
    rw (a, b, e, g) (bit_or-shifted 48 (dev * 256 + cmd) payload p)

-- The fields of a command with a device and an operation of 8 bits and a payload of 48 are read back
-- as they were put in.
pub fromhost-tohost_cmd :
    (dev cmd payload : ℕ)
    → dev < 2 ^ 8
    → cmd < 2 ^ 8
    → payload < 2 ^ 48
    → (fromhost_dev (tohost_cmd dev cmd payload) ≡ dev)
      × ((fromhost_cmd (tohost_cmd dev cmd payload) ≡ cmd)
          × (fromhost_data (tohost_cmd dev cmd payload) ≡ payload))
unfolding fromhost_dev fromhost_cmd fromhost_data
fromhost-tohost_cmd dev cmd payload d c p =
    rw (tohost_cmd_sum dev cmd payload d c p) (omega arith, (omega arith, omega arith))

pub put_command : (ch : ℕ) → ch < 256 → (query (tohost_cmd 1 1 ch) ≡ 0) × (tohost_cmd 1 1 ch ≢ 0)
put_command ch lt =
    let (d, (c, p)) = fromhost-tohost_cmd 1 1 ch (omega arith) (omega arith) (omega arith) in
    (
      rw (d, c) refl,
      λ z. ground (arith, tohost_cmd_sum 1 1 ch (omega arith) (omega arith) (omega arith)),
    )

pub get_command : (query (tohost_cmd 1 0 0) ≡ 1) × (tohost_cmd 1 0 0 ≢ 0)
unfolding tohost_cmd fromhost_dev fromhost_cmd
get_command = (refl, omega arith)

pub query_zero : query 0 ≡ 0
unfolding fromhost_dev fromhost_cmd
query_zero = refl

pub answer_nonzero : (v : ℕ) → fromhost_dev v ≡ 1 → v ≢ 0
unfolding fromhost_dev
answer_nonzero v d z = omega arith
