-- ===== src/Klib/Stdio/Scanf.antt =====
-- The reading half of klib/src/stdio.c. Fuel is as in the printing half; the pointers to store
-- through are the arguments `args i`, and an int takes four bytes, the low one first.
use mathlib.Core.Option
use abstract_machine.Base.{
  ℕ, zero, suc, ◌+◌, ◌/◌, ◌%◌, ◌^◌, Option, none, some, ◌==◌, ◌!=◌, if◌then◌else◌,
}
use abstract_machine.Base.Int.{ℤ, pos, negsuc}
use abstract_machine.Klib.Memory.{Mem, store}
use abstract_machine.Klib.Ctypes.{isspace}
use abstract_machine.Klib.Stdlib.{skip_spaces, strtoull}

-- The end of a scan: the item count that is returned, where the string was left, and the memory;
-- or the assertion that a conversion other than `%d` and `%c` runs into.
pub data Scan : Type 0 where
  returned : (item : ℤ) (str : ℕ) (m : Mem) → Scan
  unsupported : (c : ℕ) → Scan

-- `*(int *)p = v`
unfoldable pub store_int : Mem → ℕ → ℕ → Mem
store_int m p v =
    store (store (store (store m p (v % 256)) (p + 1) (v / 256 % 256)) (p + 2) (v / 2 ^ 16 % 256))
      (p + 3) (v / 2 ^ 24 % 256)

-- `item` begins at -1; `items` is one more.
unfoldable pub item_of : ℕ → ℤ
item_of zero = negsuc 0
item_of (suc items) = pos items

unfoldable pub scan_loop : ℕ → (ℕ → ℕ) → Mem → ℕ → ℕ → ℕ → ℕ → Option Scan
scan_loop zero args m str fmt items ap = none
scan_loop (suc fuel) args m str fmt items ap =
    let next = scan_loop fuel args in
    if m fmt == 0
    then some (returned (item_of items) str m)
    else if isspace (m fmt)
    then Option.bind (skip_spaces fuel m (fmt + 1))
        (λ fmt'. Option.bind (skip_spaces fuel m str) (λ str'. next m str' fmt' (items + 1) ap))
    else if m fmt != b'%'
    then (if m str == m fmt
        then next m (str + 1) (fmt + 1) (items + 1) ap
        else some (returned (item_of items) str m))
    else if m (fmt + 1) == b'd'
    then Option.bind (strtoull fuel m str 10) (λ r.
      if r.1 == str
      then some (returned (item_of items) str m)
      else next (store_int m (args ap) r.0) r.1 (fmt + 2) (items + 1) (ap + 1))
    else if m (fmt + 1) == b'c'
    then next (store m (args ap) (m str)) (str + 1) (fmt + 2) (items + 1) (ap + 1)
    else some (unsupported (m (fmt + 1)))

-- __am_vsscanf_internal; also vsscanf, sscanf and __isoc99_sscanf, which forget where the string
-- was left.
unfoldable pub sscanf : ℕ → Mem → ℕ → ℕ → (ℕ → ℕ) → Option Scan
sscanf fuel m str fmt args = scan_loop fuel args m str fmt 0 0
