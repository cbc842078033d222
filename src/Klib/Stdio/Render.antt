-- ===== src/Klib/Stdio/Render.antt =====
-- The whole of vsnprintf: it prints what the items of the format show, as far as there is room.
use mathlib.Core.Option
use abstract_machine.Base.{
  ◌%◌, ◌^◌, ℕ, zero, suc, ◌+◌, ◌-◌, ◌<◌, ◌≤◌, ◌≡◌, ◌⊎◌, List, [], ◌∷◌, ◌++◌, Bool, true, false,
  Bool-cases, inl, inr, refl, ap, arith, ltb, sym, ◌==◌, some, ◌!=◌,
}
use abstract_machine.Base.Lists.{length, length-append, take}
use abstract_machine.Klib.Memory.{Mem, StrAt, BytesAt, within}
use abstract_machine.Klib.Stdlib.Scan.{number}
use abstract_machine.Klib.Stdio.{
  Out, Size, push, put_all, convert, format_loop, vsnprintf, vsnprintf_internal,
}
use abstract_machine.Klib.Stdio.Buffer.{
  Within, push-Within, put_all-Within, put_all-append, put_all-full, closed,
}
use abstract_machine.Klib.Stdio.Item.{
  Letter, letter_char, takes, Item, literal, conversion, IsItem, format_text, size_text, flag_text,
  width_text, Shows, Ready,
}
use abstract_machine.Klib.Stdio.Convert.{convert-Puts, StrAt-Within}
use abstract_machine.Klib.Stdio.Directive.{StrAt-append, directive_lem}

-- What the items print, the first of them taking argument `arg`.
abbrev pub Prints : Mem → (ℕ → ℕ) → List Item → ℕ → List ℕ → Type 0
Prints m args [] arg text = text ≡ []
Prints m args (literal c ∷ items) arg text =
    (rest : List ℕ) × (text ≡ c ∷ rest) × Prints m args items arg rest
Prints m args (conversion zero_pad width size letter ∷ items) arg text =
    (t : List ℕ) × (rest : List ℕ) × (text ≡ t ++ rest)
    × Shows m zero_pad (number 10 width 0) size letter (args arg) t
    × Prints m args items (arg + takes letter) rest

-- The items are well-formed, and their arguments can be printed.
abbrev pub AllReady : ℕ → Mem → ℕ → ℕ → (ℕ → ℕ) → List Item → ℕ → Type 0
AllReady k m out n args [] arg = Unit {0}
AllReady k m out n args (literal c ∷ items) arg =
    IsItem (literal c) × AllReady k m out n args items arg
AllReady k m out n args (conversion zero_pad width size letter ∷ items) arg =
    IsItem (conversion zero_pad width size letter)
    × Ready k m out n size letter (args arg)
    × AllReady k m out n args items (arg + takes letter)

-- The loop, from any point of the format on, puts what the rest of the items shows.
abbrev LoopPuts : ℕ → Mem → ℕ → ℕ → (ℕ → ℕ) → List Item → ℕ → List ℕ → Type 0
LoopPuts k m out n args items arg text =
    (fuel fmt : ℕ) (o : Out)
    → Within m out n o
    → StrAt m fmt (format_text items)
    → (fmt + length (format_text items) < out) ⊎ (out + n ≤ fmt)
    → length (format_text items) + k < fuel
    → format_loop fuel (out + n - 1) args o fmt arg ≡ some (put_all (out + n - 1) text o)

loop_end :
    (k : ℕ) (m : Mem) (out n : ℕ) (args : ℕ → ℕ) (arg : ℕ) → LoopPuts k m out n args [] arg []
unfolding format_loop put_all
loop_end k m out n args arg zero fmt o w at off lt = absurd (omega arith)
loop_end k m out n args arg (suc fuel) fmt o w at off lt =
    let here : (o.mem fmt == 0) ≡ true = ground (arith, StrAt-Within m out n fmt [] o at off w) in
    rw here refl

loop_literal :
    (k : ℕ) (m : Mem) (out n : ℕ) (args : ℕ → ℕ) (arg c : ℕ) (items : List Item) (text : List ℕ)
    → IsItem (literal c)
    → LoopPuts k m out n args items arg text
    → LoopPuts k m out n args (literal c ∷ items) arg (c ∷ text)
unfolding format_loop put_all
loop_literal k m out n args arg c items text good next zero fmt o w at off lt = absurd (omega arith)
loop_literal k m out n args arg c items text good next (suc fuel) fmt o w at off lt =
    let (here, no_end, _) = StrAt-Within m out n fmt (c ∷ format_text items) o at off w in
    let on : (o.mem fmt == 0) ≡ false = ground arith in
    let no_percent : (o.mem fmt != b'%') ≡ true = ground arith in
    elim (Bool-cases (ltb o.dst (out + n - 1))) [
      | inl room ↦
          rw (on, room, no_percent, here)
            (next fuel (fmt + 1) (push c o) (push-Within m out n c o w (ground arith)) at.2
              (omega arith) (omega arith))
      | inr full ↦ rw (on, full) refl
    ]

-- The text of a conversion, and the text behind it.
loop_conversion :
    (k : ℕ) (m : Mem) (out n : ℕ) (args : ℕ → ℕ) (arg : ℕ) (zero_pad : Bool) (width : List ℕ)
    (size : Size) (letter : Letter) (items : List Item) (t rest : List ℕ)
    → IsItem (conversion zero_pad width size letter)
    → ((fuel : ℕ) (o : Out)
        → k ≤ fuel
        → Within m out n o
        → convert fuel
            (out + n - 1)
            args
            arg
            zero_pad
            (number 10 width 0)
            size
            (letter_char letter)
            o
          ≡ some (put_all (out + n - 1) t o, arg + takes letter))
    → LoopPuts k m out n args items (arg + takes letter) rest
    → LoopPuts k m out n args (conversion zero_pad width size letter ∷ items) arg (t ++ rest)
unfolding format_loop Option.bind
loop_conversion k m out n args arg zero_pad width size letter items t rest good run next zero fmt o
      w at off lt =
    absurd (omega arith)
loop_conversion k m out n args arg zero_pad width size letter items t rest good run next (suc fuel)
      fmt o w at off lt =
    let spec =
      flag_text zero_pad ++ (width_text width ++ (size_text size ++ letter_char letter ∷ [])) in
    let len = length-append spec (format_text items) in
    let len_flag =
      length-append (flag_text zero_pad)
        (width_text width ++ (size_text size ++ letter_char letter ∷ [])) in
    let len_width = length-append (width_text width) (size_text size ++ letter_char letter ∷ []) in
    let end_spec = fmt + 1 + length spec in
    let (here, _, behind) =
      StrAt-Within m out n fmt (b'%' ∷ spec ++ format_text items) o at off w in
    let on : (o.mem fmt == 0) ≡ false = ground arith in
    let same : (o.mem fmt != b'%') ≡ false = ground arith in
    let (spec_at, _) = StrAt-append o.mem (fmt + 1) end_spec spec (format_text items) refl behind in
    let (_, at') = StrAt-append m (fmt + 1) end_spec spec (format_text items) refl at.2 in
    elim (Bool-cases (ltb o.dst (out + n - 1))) [
      | inl room ↦
          rw
            (
              on,
              same,
              room,
              directive_lem fuel (out + n - 1) args o (fmt + 1) end_spec arg zero_pad width size
                  letter [] spec_at good.0 good.1 refl (omega (arith, len, len_flag, len_width))
                  good.2,
              run fuel o (omega (arith, len)) w,
              put_all-append (out + n - 1) t rest o,
            )
            (next fuel end_spec (put_all (out + n - 1) t o) (put_all-Within m out n t o w) at'
              (omega (arith, len)) (omega (arith, len)))
      | inr full ↦
          rw (on, full) (ap some (sym (put_all-full (out + n - 1) (t ++ rest) o (ground arith))))
    ]

pub loop_Prints :
    (k : ℕ) (m : Mem) (out n : ℕ) (args : ℕ → ℕ) (items : List Item) (arg : ℕ)
    → AllReady k m out n args items arg
    → (text : List ℕ) × Prints m args items arg text × LoopPuts k m out n args items arg text
loop_Prints k m out n args [] arg h = ([], refl, loop_end k m out n args arg)
loop_Prints k m out n args (literal c ∷ items) arg h =
    let (rest, prints, puts) = loop_Prints k m out n args items arg h.1 in
    (c ∷ rest, (rest, refl, prints), loop_literal k m out n args arg c items rest h.0 puts)
loop_Prints k m out n args (conversion zero_pad width size letter ∷ items) arg h =
    let (rest, prints, puts) = loop_Prints k m out n args items (arg + takes letter) h.2 in
    let (t, shows, run) =
      convert-Puts k m out n args arg zero_pad (number 10 width 0) size letter h.1 in
    (
      t ++ rest,
      (t, rest, refl, shows, prints),
      loop_conversion k m out n args arg zero_pad width size letter items t rest h.0 run puts,
    )

-- Let a format be made of well-formed items and stand outside the `n` bytes at `out`, n at least
-- 1; let no signed argument be the least long long, and each string argument be null or a string
-- of fewer than `k` bytes outside the buffer, whose length an int counts. On fuel above `k` and
-- the length of the format, vsnprintf returns the length of the first n - 1 bytes of a text that
-- the items show, as the 32 bits of an int, and leaves those bytes at `out`, a zero byte behind
-- them, and every byte outside the buffer as it was.
pub vsnprintf-Prints :
    (fuel k : ℕ) (m : Mem) (out n fmt : ℕ) (args : ℕ → ℕ) (items : List Item)
    → 0 < n
    → k ≤ 2 ^ 31
    → AllReady k m out n args items 0
    → StrAt m fmt (format_text items)
    → (fmt + length (format_text items) < out) ⊎ (out + n ≤ fmt)
    → length (format_text items) + k < fuel
    → (text : List ℕ) × (m' : Mem) × Prints m args items 0 text
      × (vsnprintf fuel m out n fmt args ≡ some (length (take (n - 1) text) % 2 ^ 32, m'))
      × BytesAt m' out (take (n - 1) text)
      × (m' (out + length (take (n - 1) text)) ≡ 0)
      × ((a : ℕ) → within a out n ≡ false → m' a ≡ m a)
unfolding vsnprintf vsnprintf_internal
vsnprintf-Prints fuel k m out n fmt args items pos counted ready at off lt =
    let (text, prints, puts) = loop_Prints k m out n args items 0 ready in
    let start : Out = record { mem = m; dst = out } in
    let w : Within m out n start = record {
      kept = λ a _. refl;
      above = omega arith;
      below = omega arith;
    } in
    let (len, stands, zero_behind, kept) = closed m out n text pos in
    let some_room : (n == 0) ≡ false = ground arith in
    (
      text,
      _,
      prints,
      rw (some_room, puts fuel fmt start w at off lt, len) refl,
      stands,
      zero_behind,
      kept,
    )
