-- ===== src/Dispatch/Agree.antt =====
-- The array of function pointers and the switch pick the same handler.
use emu_sa80535_n.Base.{ℕ, ◌+◌, ◌<◌, ◌≡◌, refl, arith}
use emu_sa80535_n.Base.Tables.{values, values_at}
use emu_sa80535_n.Cpu.{Cpu, Host}
use emu_sa80535_n.Memory.{Handler, opcode}
use emu_sa80535_n.Dispatch.Table.{op_setptrs}
use emu_sa80535_n.Dispatch.Switch.{switch_on, do_op}

module _ (host : Host) (before : ℕ → Handler) where
  all_values :
      (c : Cpu)
      → values (λ n. op_setptrs host before n c) 0 256 ≡ values (λ n. switch_on host n c) 0 256
  unfolding op_setptrs switch_on
  all_values c = refl

  -- For every opcode byte, whatever the array held before, the handler that `op_setptrs` installs
  -- and the one that the switch of `do_op` picks do the same to every CPU.
  pub op_setptrs-switch_on :
      (n : ℕ) (c : Cpu) → n < 256 → op_setptrs host before n c ≡ switch_on host n c
  op_setptrs-switch_on n c h =
      let e : 0 + n ≡ n = omega arith in
      rw e at (
        values_at (λ k. op_setptrs host before k c) (λ k. switch_on host k c) 256 0 n (all_values c)
          h)

  -- Calling through the array at the opcode under PC is `do_op`, where code memory holds bytes.
  pub op_setptrs-do_op :
      (c : Cpu) → opcode c < 256 → op_setptrs host before (opcode c) c ≡ do_op host c
  unfolding do_op
  op_setptrs-do_op c h = op_setptrs-switch_on (opcode c) c h
