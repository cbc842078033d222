-- ===== src/Native/Vme.antt =====
-- am/src/native/vme.c: address spaces as lists of mapped pages, and the pages that the host maps for
-- the running one, with __am_pmem_map and __am_pmem_unmap of platform.c. The hash table of the C
-- library is a parameter: `find` and `enter` are hsearch_r with FIND and ENTER, and `enter` gives
-- none where hsearch_r reports an error. mmap is one too, the field `accepts` of the state. The key of a page is the hexadecimal numeral of the low 32
-- bits of its address, and stands for that number. Linux unmaps every aligned page.
pub mod Chain
pub mod Switch
pub mod Run
mod Apart
pub mod Map
pub mod New
pub mod Good
pub mod Grow
pub mod Reach
pub mod Again
use abstract_machine.Base.{
  ℕ, zero, suc, ◌+◌, ◌-◌, ◌/◌, ◌%◌, ◌^◌, Bool, true, false, Option, none, some, bit_and, bit_or,
  leb, ltb, ◌==◌, ◌!=◌, ◌&&◌, ◌||◌, not, if◌then◌else◌,
}
use abstract_machine.Native.Answer.{Answer, done, asserted, spinning}

-- A page of a list; `next` is the address of the next one, or 0.
pub record PageMap : Type 0 where
  pub va : ℕ
  pub pa : ℕ
  pub next : ℕ
  pub prot : ℕ
  pub is_mapped : Bool

pub record VmHead (T : Type 0) : Type 0 where
  pub head : ℕ
  pub hash : T
  pub nr_page : ℕ

-- The pages and the heads in memory, what the host maps, whether mmap takes a virtual address with a
-- physical one, that is, with the offset pa - pmem of pmem_fd, and the variables. An entry of the
-- host is the physical address and the protection.
pub record Vm (T : Type 0) : Type 0 where
  pub pages : ℕ → PageMap
  pub heads : ℕ → VmHead T
  pub host : ℕ → Option (ℕ × ℕ)
  pub accepts : ℕ → ℕ → Bool
  pub current : ℕ
  pub vme_enable : Bool

abbrev pub put : {A : Type 0} → (ℕ → A) → ℕ → A → ℕ → A
put f i v j = if j == i then v else f j

abbrev pub user_start : ℕ
user_start = 0x40000000

abbrev pub user_end : ℕ
user_end = 0xc0000000

-- IN_RANGE(va, USER_SPACE)
abbrev pub in_user : ℕ → Bool
in_user va = leb user_start va && ltb va user_end

-- MMAP_READ gives PROT_READ | PROT_EXEC, and MMAP_WRITE gives PROT_WRITE.
unfoldable pub mmap_prot : ℕ → ℕ
mmap_prot prot =
    bit_or (if bit_and prot 1 != 0 then 5 else 0) (if bit_and prot 2 != 0 then 2 else 0)

module _ {T : Type 0} where
  abbrev pub and_then : Answer (Vm T) → (Vm T → Answer (Vm T)) → Answer (Vm T)
  and_then (done s) k = k s
  and_then asserted k = asserted
  and_then spinning k = spinning

  -- Where mmap fails, the assertion on its result does.
  unfoldable pub pmem_map : Vm T → ℕ → ℕ → ℕ → Answer (Vm T)
  pmem_map s va pa prot =
      if s.accepts va pa
      then done (record s { host = put s.host va (some (pa, mmap_prot prot)) })
      else asserted

  unfoldable pub pmem_unmap : Vm T → ℕ → Vm T
  pmem_unmap s va = record s { host = put s.host va none }

  abbrev pub set_mapped : Vm T → ℕ → Bool → Vm T
  set_mapped s p b = record s { pages = put s.pages p (record (s.pages p) { is_mapped = b }) }

  -- The bodies of the two loops of __am_switch, of which map runs the second too.
  unfoldable pub unmap_page : Vm T → ℕ → Vm T
  unmap_page s p =
      if (s.pages p).is_mapped then set_mapped (pmem_unmap s (s.pages p).va) p false else s

  unfoldable pub map_page : Vm T → ℕ → Answer (Vm T)
  map_page s p =
      and_then (pmem_map s (s.pages p).va (s.pages p).pa (s.pages p).prot)
        (λ t. done (set_mapped t p true))

  -- The first loop, over the list of the space that was running.
  unfoldable pub unmap_all : ℕ → Vm T → ℕ → Answer (Vm T)
  unmap_all zero s p = spinning
  unmap_all (suc fuel) s p =
      let rest = unmap_all fuel (unmap_page s p) (s.pages p).next in if p == 0 then done s else rest

  -- The second loop, over the list of the space that is going to run.
  unfoldable pub map_all : ℕ → Vm T → ℕ → Answer (Vm T)
  map_all zero s p = spinning
  map_all (suc fuel) s p =
      let rest = and_then (map_page s p) (λ t. map_all fuel t (s.pages p).next) in
      if p == 0 then done s else if in_user (s.pages p).va then rest else asserted

  -- __am_switch to a context whose vm_head is `head`.
  unfoldable pub am_switch : ℕ → Vm T → ℕ → Answer (Vm T)
  am_switch fuel s head =
      let finish = λ (t : Vm T). done (record t { current = head }) in
      if not s.vme_enable
      then done s
      else if head == s.current
      then finish s
      else and_then (if s.current != 0 then unmap_all fuel s (s.heads s.current).head else done s)
          (λ t. and_then (if head != 0 then map_all fuel t (t.heads head).head else done t) finish)

  unfoldable pub vme_init : Vm T → Bool × Vm T
  vme_init s = (true, record s { vme_enable = true })

  -- __am_in_userspace
  unfoldable pub in_userspace : Vm T → ℕ → Bool
  in_userspace s addr = s.vme_enable && s.current != 0 && in_user addr

  -- What pgalloc and hcreate_r return are `fresh` and `table`; hcreate_r succeeds.
  unfoldable pub protect : Vm T → ℕ → T → Answer (Vm T)
  protect s fresh table =
      if fresh == 0
      then asserted
      else done
          (record s { heads = put s.heads fresh (record { head = 0; hash = table; nr_page = 0 }) })

  -- The page that is written and becomes the head of the list, and goes to the host at once where
  -- the space is running.
  unfoldable pub add_page : Vm T → ℕ → ℕ → ℕ → ℕ → ℕ → Answer (Vm T)
  add_page s h p va pa prot =
      let page : PageMap = record {
        va = va;
        pa = pa;
        next = (s.heads h).head;
        prot = prot;
        is_mapped = false;
      } in
      let t : Vm T = record s {
        pages = put s.pages p page;
        heads = put s.heads h (record (s.heads h) { head = p });
      } in
      if h == s.current then map_page t p else done t

  module _ (find : T → ℕ → Option ℕ) (enter : T → ℕ → ℕ → Option T) where
    -- The lookup of the page, with what pgalloc returns as `fresh`: the page, and the state with
    -- the table that holds it.
    unfoldable pub find_page : Vm T → ℕ → ℕ → ℕ → Option (ℕ × Vm T)
    find_page s h fresh va = elim (find (s.heads h).hash (va % 2 ^ 32)) [
      | some p ↦ some (p, s)
      | none ↦ elim (enter (s.heads h).hash (va % 2 ^ 32) fresh) [
        | none ↦ none
        | some t ↦ some (
          fresh,
          record s {
            heads =
                put s.heads h (record (s.heads h) { hash = t; nr_page = (s.heads h).nr_page + 1 });
          },
        )
      ]
    ]

    -- map, for pages of `pgsize` bytes; `h` is as->ptr.
    unfoldable pub map : ℕ → Vm T → ℕ → ℕ → ℕ → ℕ → ℕ → Answer (Vm T)
    map pgsize s h fresh va pa prot =
        if not (in_user va) || va % pgsize != 0 || pa % pgsize != 0 || h == 0
        then asserted
        else elim (find_page s h fresh va) [
          | none ↦ asserted
          | some (p, t) ↦ add_page t h p va pa prot
        ]
