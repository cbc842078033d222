-- ===== src/Tests/Htif.antt =====
-- The console: one byte is printed, and one is asked for and answered.
use abstract_machine.Base.{ℕ, ◌≡◌, ◌≢◌, ◌⊎◌, [], ◌∷◌, refl, arith}
use abstract_machine.Riscv.Htif.{
  Link, booted, asserted, putchar, getchar_starts, guest_move, host_takes, host_answers, tohost_cmd,
  fromhost_dev, fromhost_cmd, fromhost_data, check, read_buf, clear, prints, asks, goes, takes,
  answered, Reach, start, later,
}
use abstract_machine.Riscv.Htif.Token.{received}
use abstract_machine.Riscv.Htif.Word.{fromhost-tohost_cmd}
use abstract_machine.Riscv.Htif.Order.{carried, slot, commands-taken, answers-received}

abbrev one_more : Link → Link
one_more s = guest_move s s.guest

abbrev printed : Link
printed = host_takes (one_more (one_more (putchar b'a' booted)))

abbrev asked : Link
asked = host_takes (one_more (one_more (one_more (one_more (getchar_starts printed)))))

abbrev typed : Link
typed = host_answers (tohost_cmd 1 0 b'x') 0 asked

abbrev got : Link
got = one_more (one_more (one_more (getchar_starts typed)))

reach_printed : Reach printed
unfolding putchar getchar_starts guest_move check clear read_buf tohost_cmd fromhost_dev
    fromhost_cmd fromhost_data received
reach_printed =
    later (later (later (later start (prints b'a' refl (omega arith))) goes) goes)
      (takes (omega arith))

reach_asked : Reach asked
unfolding putchar getchar_starts guest_move check clear read_buf tohost_cmd fromhost_dev
    fromhost_cmd fromhost_data received
reach_asked =
    later (later (later (later (later (later reach_printed (asks refl)) goes) goes) goes) goes)
      (takes (omega arith))

reach_typed : Reach typed
unfolding putchar getchar_starts guest_move check clear read_buf tohost_cmd fromhost_dev
    fromhost_cmd fromhost_data received
reach_typed = later reach_asked (answered (tohost_cmd 1 0 b'x') 0 refl refl refl refl)

reach_got : Reach got
unfolding putchar getchar_starts guest_move check clear read_buf tohost_cmd fromhost_dev
    fromhost_cmd fromhost_data received
reach_got = later (later (later (later reach_typed (asks refl)) goes) goes) goes

fromhost-tohost_cmd_example :
    (fromhost_dev (tohost_cmd 1 0 b'x') ≡ 1)
    × ((fromhost_cmd (tohost_cmd 1 0 b'x') ≡ 0) × (fromhost_data (tohost_cmd 1 0 b'x') ≡ b'x'))
fromhost-tohost_cmd_example = fromhost-tohost_cmd 1 0 b'x' (omega arith) (omega arith) (omega arith)

commands-taken_example : slot (carried got.guest) (slot got.tohost got.taken) ≡ got.commands
commands-taken_example = commands-taken reach_got

answers-received_example :
    ((got.answers ≡ received got.results) ⊎ ((c : ℕ) × (got.answers ≡ c ∷ received got.results)))
    × (got.guest ≢ asserted)
answers-received_example = answers-received reach_got

got_run : received got.results ≡ b'x' ∷ []
unfolding putchar getchar_starts guest_move check clear read_buf tohost_cmd fromhost_dev
    fromhost_cmd fromhost_data received
got_run = refl

-- htif_console_getchar, called after the byte has been answered.
reach_called : Reach (getchar_starts typed)
unfolding putchar getchar_starts guest_move check clear read_buf tohost_cmd fromhost_dev
    fromhost_cmd fromhost_data received
reach_called = later reach_typed (asks refl)
