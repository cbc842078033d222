-- ===== src/Klib/Stdio/Buffer.antt =====
-- Output into the buffer: every way of writing puts a list of characters, as far as there is room.
use abstract_machine.Base.{
  ℕ, zero, suc, ◌+◌, ◌-◌, ◌<◌, ◌≤◌, ◌≡◌, ◌⊎◌, List, [], ◌∷◌, ◌++◌, false, Bool-cases, inl, inr,
  refl, arith, ltb, ◌∙◌, sym,
}
use abstract_machine.Base.Lists.{length, take, replicate}
use abstract_machine.Klib.Memory.{Mem, store, within, BytesAt}
use abstract_machine.Klib.Stdio.{Out, push, put, pad, put_all, copy_out}

pub put_all-full : (end : ℕ) (l : List ℕ) (o : Out) → end ≤ o.dst → put_all end l o ≡ o
unfolding put_all
put_all-full end [] o h = refl
put_all-full end (c ∷ cs) o h = ground arith

pub put_all-append :
    (end : ℕ) (k l : List ℕ) (o : Out) → put_all end (k ++ l) o ≡ put_all end l (put_all end k o)
unfolding put_all
put_all-append end [] l o = refl
put_all-append end (c ∷ cs) l o = elim (Bool-cases (ltb o.dst end)) [
  | inl room ↦ rw room (put_all-append end cs l (push c o))
  | inr full ↦ rw full (sym (put_all-full end l o (ground arith)))
]

pub put-put_all : (end c : ℕ) (o : Out) → put end c o ≡ put_all end (c ∷ []) o
unfolding put put_all
put-put_all end c o = refl

pub pad-put_all : (k end c : ℕ) (o : Out) → pad k end c o ≡ put_all end (replicate k c) o
unfolding pad put_all
pad-put_all zero end c o = refl
pad-put_all (suc k) end c o = rw (pad-put_all k end c (push c o)) refl

-- The buffer is `n` bytes at `out`; no other byte differs from the memory `m`, and the pointer has
-- not passed the last byte, which is kept for the zero.
pub record Within (m : Mem) (out n : ℕ) (o : Out) : Type 0 where
  pub kept : (a : ℕ) → within a out n ≡ false → o.mem a ≡ m a
  pub above : out ≤ o.dst
  pub below : o.dst < out + n

pub push-Within :
    (m : Mem) (out n c : ℕ) (o : Out)
    → Within m out n o
    → o.dst < out + n - 1
    → Within m out n (push c o)
unfolding store
push-Within m out n c o w h = record {
  kept = λ a off. ground (arith, w.kept a off);
  above = omega (arith, w.above);
  below = omega arith;
}

pub put_all-Within :
    (m : Mem) (out n : ℕ) (l : List ℕ) (o : Out)
    → Within m out n o
    → Within m out n (put_all (out + n - 1) l o)
unfolding put_all
put_all-Within m out n [] o w = w
put_all-Within m out n (c ∷ cs) o w = elim (Bool-cases (ltb o.dst (out + n - 1))) [
  | inl room ↦
      rw room (put_all-Within m out n cs (push c o) (push-Within m out n c o w (ground arith)))
  | inr full ↦ rw full w
]

-- A string outside the buffer is copied as it stands.
pub copy_out-put_all :
    (m : Mem) (out n s : ℕ) (l : List ℕ) (o : Out)
    → BytesAt m s l
    → (s + length l ≤ out) ⊎ (out + n ≤ s)
    → Within m out n o
    → copy_out (length l) (out + n - 1) s o ≡ put_all (out + n - 1) l o
unfolding copy_out put_all
copy_out-put_all m out n s [] o at off w = refl
copy_out-put_all m out n s (c ∷ cs) o at off w = elim (Bool-cases (ltb o.dst (out + n - 1))) [
  | inl room ↦
      let here : o.mem s ≡ c = w.kept s (ground arith) ∙ at.0 in
      rw (room, here)
        (copy_out-put_all m out n (s + 1) cs (push c o) at.1 (omega arith)
          (push-Within m out n c o w (ground arith)))
  | inr full ↦ rw full refl
]

-- What was written before stays.
pub put_all_before :
    (end : ℕ) (l : List ℕ) (o : Out) (a : ℕ) → a < o.dst → (put_all end l o).mem a ≡ o.mem a
unfolding put_all store
put_all_before end [] o a h = refl
put_all_before end (c ∷ cs) o a h = ground (arith, put_all_before end cs (push c o) a)

take-nil : (n : ℕ) → take {A = ℕ} n [] ≡ []
take-nil zero = refl
take-nil (suc n) = refl

pub stored : (m : Mem) (a c : ℕ) → store m a c a ≡ c
unfolding store
stored m a c = ground arith

-- The characters that found room stand in the buffer, and the pointer is behind them.
pub put_all-BytesAt :
    (end : ℕ) (l : List ℕ) (o : Out)
    → o.dst ≤ end
    → ((put_all end l o).dst ≡ o.dst + length (take (end - o.dst) l))
      × BytesAt (put_all end l o).mem o.dst (take (end - o.dst) l)
unfolding put_all
put_all-BytesAt end [] o h = rw (take-nil (end - o.dst)) (omega arith, tt)
put_all-BytesAt end (c ∷ cs) o h = elim (Bool-cases (ltb o.dst end)) [
  | inl room ↦
      let (at, stands) = put_all-BytesAt end cs (push c o) (ground arith) in
      let more : end - o.dst ≡ suc (end - (o.dst + 1)) = ground arith in
      rw (room, more)
        (
          omega (arith, at),
          (put_all_before end cs (push c o) o.dst (omega arith) ∙ stored o.mem o.dst c, stands),
        )
  | inr full ↦
      let none_left : end - o.dst ≡ 0 = ground arith in rw (full, none_left) (omega arith, tt)
]

BytesAt-store :
    (m : Mem) (p a v : ℕ) (l : List ℕ)
    → BytesAt m p l
    → p + length l ≤ a
    → BytesAt (store m a v) p l
unfolding store
BytesAt-store m p a v [] h off = tt
BytesAt-store m p a v (c ∷ cs) h off =
    (ground arith, BytesAt-store m (p + 1) a v cs h.1 (omega arith))

-- The zero byte behind what was written does no harm to the rest of the memory.
pub closed-Within :
    (m : Mem) (out n : ℕ) (o : Out)
    → Within m out n o
    → (a : ℕ) → within a out n ≡ false
    → store o.mem o.dst 0 a ≡ m a
unfolding store
closed-Within m out n o w a away = ground (arith, w.kept a away, w.above, w.below)

-- The buffer once the text and the zero byte behind it are written.
pub closed :
    (m : Mem) (out n : ℕ) (text : List ℕ)
    → 0 < n
    → let o = put_all (out + n - 1) text (record { mem = m; dst = out }) in
      (o.dst - out ≡ length (take (n - 1) text))
      × BytesAt (store o.mem o.dst 0) out (take (n - 1) text)
      × (store o.mem o.dst 0 (out + length (take (n - 1) text)) ≡ 0)
      × ((a : ℕ) → within a out n ≡ false → store o.mem o.dst 0 a ≡ m a)
closed m out n text pos =
    let start : Out = record { mem = m; dst = out } in
    let o = put_all (out + n - 1) text start in
    let room : out + n - 1 - out ≡ n - 1 = omega arith in
    let w : Within m out n start = record {
      kept = λ a _. refl;
      above = omega arith;
      below = omega arith;
    } in
    let (len, stands) : (o.dst ≡ out + length (take (n - 1) text))
        × BytesAt o.mem out (take (n - 1) text) =
      rw (sym room) (put_all-BytesAt (out + n - 1) text start (omega arith)) in
    (
      omega (arith, len),
      BytesAt-store o.mem out o.dst 0 (take (n - 1) text) stands (omega (arith, len)),
      rw (sym len) (stored o.mem o.dst 0),
      closed-Within m out n o (put_all-Within m out n text start w),
    )
