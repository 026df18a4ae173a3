-- ===== src/Gic/Distributor/Start.antt =====
-- `Gic::init` reaches the initial state of the distributor.
use sparreal_os.Prelude.{
  ℕ, ◌+◌, ◌-◌, ◌*◌, ◌/◌, ◌<◌, ◌≤◌, ◌≡◌, sym, ap, ◌∙◌, subst, arith, inl, inr, ◌⊎◌,
}
use sparreal_os.Prelude.Outcome.{ok}
use sparreal_os.Gic.Distributor.{init}
use sparreal_os.Gic.Distributor.Init.{words, loops, group_write, init-loops}
use sparreal_os.Gic.Distributor.Initial.{
  Initial, loops_quiet, loops_groups, loops_levels, loops_priority, loops_priority_kept,
  loops_target, loops_target_kept, loops_ctlr, group_write_status, group_write_kept,
  group_write_self, words-group_write,
}
use sparreal_os.Gic.Registers.{
  Device, DeviceLaws, ctlr, igroupr, ipriorityr, itargetsr, icfgr, igroupr_holds, ipriorityr_holds,
  itargetsr_holds, icfgr_holds,
}

low_or_high : (n i : ℕ) → (i < 32) ⊎ (n * 8 ≤ i) → (i < 32) ⊎ (32 + (n * 8 - 32) ≤ i)
low_or_high n i out = ground arith

module _ (D : Device) (laws : DeviceLaws D) (s : D.State) where
  abbrev s1 : D.State
  s1 = group_write D 0 s

  abbrev n : ℕ
  n = words D s1

  count : words D s ≡ n
  count = sym (words-group_write D laws 0 s)

  started : Initial D laws s (group_write D 3 (loops D n s1))
  started = record {
    quiet = λ st id can h.
        group_write_status D laws st 3 id _
        ∙ loops_quiet D laws n s1 st id can (omega (arith, h, count));
    groups = λ i h keeps.
        group_write_kept D laws igroupr 3 i _ igroupr_holds (λ e. cc)
        ∙ loops_groups D laws n s1 i (omega (arith, h, count)) keeps;
    levels = λ i h keeps.
        group_write_kept D laws icfgr 3 i _ icfgr_holds (λ e. cc)
        ∙ loops_levels D laws n s1 i (omega (arith, h, count)) keeps;
    priorities = λ i low h keeps.
        group_write_kept D laws ipriorityr 3 i _ ipriorityr_holds (λ e. cc)
        ∙ loops_priority D laws n s1 i low (omega (arith, h, count)) keeps;
    priorities_kept = λ i out.
        group_write_kept D laws ipriorityr 3 i _ ipriorityr_holds (λ e. cc)
        ∙ loops_priority_kept D laws n s1 i
            (low_or_high n i (subst (λ t. (i < 32) ⊎ (t * 8 ≤ i)) count out))
        ∙ group_write_kept D laws ipriorityr 0 i s ipriorityr_holds (λ e. cc);
    targets = λ i low h keeps.
        group_write_kept D laws itargetsr 3 i _ itargetsr_holds (λ e. cc)
        ∙ loops_target D laws n s1 i low (omega (arith, h, count)) keeps;
    targets_kept = λ i out.
        group_write_kept D laws itargetsr 3 i _ itargetsr_holds (λ e. cc)
        ∙ loops_target_kept D laws n s1 i
            (elim out [ inl low ↦ inl low | inr high ↦ inr (omega (arith, high, count)) ])
        ∙ group_write_kept D laws itargetsr 0 i s itargetsr_holds (λ e. cc);
    forwards = λ keeps.
        let small = laws.read_lt ctlr 0 s in
        let first = group_write_self D laws 0 s (keeps _ (omega arith) (omega arith)) in
        let second : D.read ctlr 0 (loops D n s1) / 4 ≡ D.read ctlr 0 s / 4 =
          omega (arith, loops_ctlr D laws n s1, first) in
        group_write_self D laws 3 (loops D n s1)
          (keeps _ (omega (arith, second, small)) (omega (arith, second)))
        ∙ omega (arith, ap (λ v. v / 4 * 4 + 3) (loops_ctlr D laws n s1), first);
  }

  -- `init` does not panic. Of the interrupts that the device has by its type register, none is
  -- enabled, pending or active afterwards, as far as software can switch that off; all are in group
  -- 0 and level triggered. The default priority is written to the registers from 32 up to a quarter
  -- of the interrupts only, and the target to those from 8 up to a quarter of the interrupts only.
  -- The distributor forwards both groups. All this where the registers implement these values; for
  -- CTLR that is, every value of the two lowest bits with its other bits as they were read.
  pub init-Initial : (s' : D.State) × (init D s ≡ ok tt s') × Initial D laws s s'
  init-Initial = (group_write D 3 (loops D n s1), init-loops D s, started)
