-- ===== src/Ops/Movx/External.antt =====
-- MOVX on the emulated external memory, where the host installs no callback.
use emu_sa80535_n.Base.{
  ℕ, bit_and, ◌≡◌, ◌∙◌, Bool, true, false, Option, none, some, refl, ap, sym, update,
}
use emu_sa80535_n.Base.{if◌then◌else◌, ◌==◌}
use emu_sa80535_n.Cpu.Regs.{reg_acc}
use emu_sa80535_n.Cpu.{
  Cpu, Host, TraceType, MovxContext, Direction, movx, notify, execution_aborted,
}
use emu_sa80535_n.Memory.{acc, set_acc}
use emu_sa80535_n.Ops.Movx.{
  ext_index, movx_context_capture, movx_done, movx_read_from, movx_write_to,
}

-- What MOVX reads and writes of the state: the memory, its mask and the registers.
abbrev Store : Type 0
Store = Option (ℕ → ℕ) × ℕ × (ℕ → ℕ)

abbrev store_of : Cpu → Store
store_of c = (c.ext_data, c.ext_data_max_idx, c.sfr)

store_of-either :
    (b : Bool) (c d : Cpu) → store_of c ≡ store_of d → store_of (if b then c else d) ≡ store_of d
store_of-either true c d e = e
store_of-either false c d e = refl

module _ (host : Host) where
  movx_done-store :
      (context : MovxContext) (value : ℕ) (type : TraceType) (c : Cpu)
      → store_of (movx_done host context value type c).1 ≡ store_of c
  movx_done-store context value type c =
      store_of-either (execution_aborted (notify host (movx (record context { value = value })) c))
        _ _ refl

  written :
      (address : ℕ) (c : Cpu) (ext : ℕ → ℕ)
      → host.xwrite ≡ none
      → c.ext_data ≡ some ext
      → store_of (movx_write_to host address c).1
        ≡ (some (update ext (ext_index c address) (acc c)), c.ext_data_max_idx, c.sfr)
  unfolding movx_write_to
  written address c ext hw hd =
      rw (hw, hd)
        (movx_done-store (movx_context_capture c address Direction.write (acc c)) (acc c)
          TraceType.movx_write
          (record c { ext_data = some (update ext (ext_index c address) (acc c)) }))

  acc-read :
      (address : ℕ) (c : Cpu) (ext : ℕ → ℕ)
      → host.xread ≡ none
      → c.ext_data ≡ some ext
      → acc (movx_read_from host address c).1 ≡ ext (ext_index c address)
  unfolding movx_read_from
  acc-read address c ext hr hd =
      let value = ext (ext_index c address) in
      rw (hr, hd)
        (ap (λ (s : Store). s.2 reg_acc)
          (movx_done-store (movx_context_capture c address Direction.read (acc c)) value
            TraceType.movx_read (set_acc value (record c { ext_data = some ext }))))

  -- Where an external memory is attached and no callback stands in for it, a byte written by MOVX
  -- is what a later MOVX reads back at an address of the same cell, a read of another cell gives
  -- what it gave before the write, and the write keeps every special function register. The cell
  -- of an address is the address under the memory's mask.
  pub movx_read_from-movx_write_to :
      (address other : ℕ) (c : Cpu) (ext : ℕ → ℕ)
      → host.xread ≡ none
      → host.xwrite ≡ none
      → c.ext_data ≡ some ext
      → (acc (movx_read_from host other (movx_write_to host address c).1).1 ≡ (
          if ext_index c other == ext_index c address
          then acc c
          else acc (movx_read_from host other c).1))
        × ((movx_write_to host address c).1.sfr ≡ c.sfr)
  movx_read_from-movx_write_to address other c ext hr hw hd =
      let stored = written address c ext hw hd in
      let d = (movx_write_to host address c).1 in
      let memory = update ext (ext_index c address) (acc c) in
      let kept : d.ext_data ≡ some memory = ap (λ (s : Store). s.0) stored in
      let mask : d.ext_data_max_idx ≡ c.ext_data_max_idx = ap (λ (s : Store). s.1) stored in
      (
        acc-read other d memory hr kept
            ∙ ap (λ m. memory (bit_and other m)) mask
            ∙ ap (λ v. if ext_index c other == ext_index c address then acc c else v)
                (sym (acc-read other c ext hr hd)),
        ap (λ (s : Store). s.2) stored,
      )
