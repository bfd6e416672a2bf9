-- ===== src/Run/Drain.antt =====
-- The inner loop of run control ends.
use emu_sa80535_n.Base.{
  ℕ, zero, suc, ◌-◌, ◌<◌, ◌≡◌, true, false, some, ◌||◌, ◌==◌, refl, arith, inl, inr, Bool-cases,
}
use emu_sa80535_n.Cpu.{Cpu, Host, execution_aborted}
use emu_sa80535_n.Memory.{Handler}
use emu_sa80535_n.Tick.{tick}
use emu_sa80535_n.Tick.Frame.{advance_machine_cycle-delay}
use emu_sa80535_n.Run.{drain}

module _ (host : Host) (op : ℕ → Handler) where
  tick-delay :
      (c : Cpu)
      → execution_aborted c ≡ false
      → (c.tick_delay == 0) ≡ false
      → (tick host op c).1.tick_delay ≡ c.tick_delay - 1
  unfolding tick
  tick-delay c running pending =
      rw (running, pending)
        (advance_machine_cycle-delay host (record c { tick_delay = c.tick_delay - 1 }))

  -- The loop that runs the pending cycles of an instruction ends within as many ticks as there are
  -- pending cycles: one more round of fuel than that gives a result, in which no cycle is pending or
  -- the host has aborted.
  pub drain_returns :
      (fuel : ℕ) (c : Cpu)
      → c.tick_delay < fuel
      → (d : Cpu) × (drain host op fuel c ≡ some d)
        × ((d.tick_delay == 0 || execution_aborted d) ≡ true)
  unfolding drain
  drain_returns zero c h = absurd (omega arith)
  drain_returns (suc fuel) c h = elim (Bool-cases (c.tick_delay == 0)) [
    | inl idle ↦ (c, rw idle refl, ground arith)
    | inr pending ↦ elim (Bool-cases (execution_aborted c)) [
      | inl gone ↦ (c, rw (pending, gone) refl, ground arith)
      | inr running ↦
          let shorter = tick-delay c running pending in
          let (d, e, done) = drain_returns fuel (tick host op c).1 (ground arith) in
          (d, rw (pending, running) e, done)
    ]
  ]
