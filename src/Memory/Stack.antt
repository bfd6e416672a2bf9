-- ===== src/Memory/Stack.antt =====
-- The stack: what PUSH stores, POP hands back.
use emu_sa80535_n.Base.{
  ℕ, ◌+◌, ◌<◌, ◌≡◌, ◌≢◌, ◌⊎◌, Bool, true, false, inl, inr, if◌then◌else◌, refl, some, arith, update,
  ltb, ◌==◌, ◌-◌, u8,
}
use emu_sa80535_n.Cpu.{Cpu, Host, set_sfr, set_pc}
use emu_sa80535_n.Cpu.Regs.{reg_sp}
use emu_sa80535_n.Memory.{read_mem_indir, write_mem_indir, push_to_stack, pop_from_stack, set_lower}

-- Memory behind the address `a` of the stack.
abbrev pub IsBacked : ℕ → Cpu → Type 0
IsBacked a c = (a < 128) ⊎ (c.upper_data ≡ true)

module _ (v : ℕ) (c : Cpu) where
  -- The state after a push that succeeds.
  unfoldable pub stored : Cpu
  unfolding write_mem_indir
  stored = write_mem_indir (c.sfr reg_sp + 1) v (set_sfr reg_sp (c.sfr reg_sp + 1) c)

  pub push_to_stack-stored :
      (host : Host)
      → c.sfr reg_sp < 255
      → IsBacked (c.sfr reg_sp + 1) c
      → push_to_stack host v c ≡ (true, stored)
  unfolding push_to_stack stored
  push_to_stack-stored host h (inl low) = ground arith
  push_to_stack-stored host h (inr up) = ground arith

  pub stored-sp : stored.sfr reg_sp ≡ c.sfr reg_sp + 1
  unfolding stored write_mem_indir
  stored-sp = ground arith

  pub read_mem_indir-stored :
      IsBacked (c.sfr reg_sp + 1) c
      → (a : ℕ)
      → read_mem_indir stored a ≡ (if a == c.sfr reg_sp + 1 then v else read_mem_indir c a)
  unfolding stored write_mem_indir read_mem_indir
  read_mem_indir-stored (inl low) a = ground arith
  read_mem_indir-stored (inr up) a = ground arith

  pub stored-pc : stored.pc ≡ c.pc
  unfolding stored write_mem_indir
  stored-pc = ground arith

  pub stored-upper : stored.upper_data ≡ c.upper_data
  unfolding stored write_mem_indir
  stored-upper = ground arith

set_pc-if :
    (b u : Bool) (t : ℕ) (x y z : Cpu)
    → (if b then if u then set_pc t x else set_pc t y else set_pc t z)
      ≡ set_pc t (if b then if u then x else y else z)
set_pc-if true true t x y z = refl
set_pc-if true false t x y z = refl
set_pc-if false u t x y z = refl

pub stored-set_pc : (v t : ℕ) (c : Cpu) → stored v (set_pc t c) ≡ set_pc t (stored v c)
unfolding stored write_mem_indir
stored-set_pc v t c =
    let a = c.sfr reg_sp + 1 in
    let d = set_sfr reg_sp a c in
    set_pc-if (ltb 0x7f a) c.upper_data t
      (record d { owned_upper_data = update d.owned_upper_data (a - 0x80) v }) d (set_lower a v d)

-- A pop with SP above zero and memory behind it.
pub pop_from_stack-some :
    (host : Host) (c : Cpu)
    → 0 < c.sfr reg_sp
    → c.sfr reg_sp < 256
    → IsBacked (c.sfr reg_sp) c
    → pop_from_stack host c
      ≡ (some (read_mem_indir c (c.sfr reg_sp)), set_sfr reg_sp (c.sfr reg_sp - 1) c)
unfolding pop_from_stack read_mem_indir
pop_from_stack-some host c h1 h2 (inl low) =
    let e : u8 (c.sfr reg_sp + 255) ≡ c.sfr reg_sp - 1 = omega arith in rw e (ground arith)
pop_from_stack-some host c h1 h2 (inr up) =
    let e : u8 (c.sfr reg_sp + 255) ≡ c.sfr reg_sp - 1 = omega arith in rw e (ground arith)

module _ (host : Host) (v : ℕ) (c : Cpu) (hsp : c.sfr reg_sp < 255) where
  -- Below the top of the address space and with memory behind the new top, a push succeeds, moves
  -- SP up by one, keeps every other byte that indirect addressing reaches, and the pop that follows
  -- hands back the value and the old SP.
  pub pop_from_stack-push_to_stack :
      IsBacked (c.sfr reg_sp + 1) c
      → let (done, d) = push_to_stack host v c in
        let (popped, e) = pop_from_stack host d in
        (done ≡ true)
        × (d.sfr reg_sp ≡ c.sfr reg_sp + 1)
        × ((a : ℕ) → a ≢ c.sfr reg_sp + 1 → read_mem_indir d a ≡ read_mem_indir c a)
        × (popped ≡ some v)
        × (e.sfr reg_sp ≡ c.sfr reg_sp)
  pop_from_stack-push_to_stack backed =
      let read = read_mem_indir-stored v c backed in
      let top = stored-sp v c in
      let still : IsBacked ((stored v c).sfr reg_sp) (stored v c) =
        rw (top, stored-upper v c) backed in
      rw
        (
          push_to_stack-stored v c host hsp backed,
          pop_from_stack-some host (stored v c) (omega arith) (omega arith) still,
          top,
        )
        (
          refl,
          refl,
          λ a ne. ground (arith, read a),
          ground (arith, read (c.sfr reg_sp + 1)),
          omega arith,
        )
