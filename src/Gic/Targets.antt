-- ===== src/Gic/Targets.antt =====
-- driver/intc/gic/src/version/v2/mod.rs: the list of the processors that an interrupt goes to, what a
-- software interrupt writes, and the acknowledgement of an interrupt.
pub mod Laws
use sparreal_os.Prelude.{
  ℕ, zero, suc, ◌+◌, ◌*◌, ◌/◌, ◌%◌, ◌^◌, Bool, true, false, not, ltb, ◌==◌, if◌then◌else◌, List, [],
  ◌∷◌, bit_and, bit_or,
}
use sparreal_os.Prelude.Fields.{field}
use sparreal_os.Prelude.Outcome.{Run, ok, require, pure, ◌>>=◌, ◌>>◌}
use sparreal_os.Gic.Ids.{IntId, is_sgi, is_special}
use sparreal_os.Gic.Registers.{Device, M, sgir, set_register}

-- `TargetList(u8)`, a bit for each of eight processors.
abbrev pub TargetList : Type 0
TargetList = ℕ

module _ {E S : Type 0} where
  -- `TargetList::add`
  unfoldable pub add_target : ℕ → TargetList → S → Run E S TargetList
  add_target cpu raw = do require (ltb cpu 8); pure (bit_or raw (2 ^ cpu))

  -- The loop of `TargetList::new`.
  unfoldable pub add_targets : List ℕ → TargetList → S → Run E S TargetList
  add_targets [] raw = pure raw
  add_targets (cpu ∷ cpus) raw = do raw' ← add_target cpu raw; add_targets cpus raw'

  unfoldable pub new_target_list : List ℕ → S → Run E S TargetList
  new_target_list cpus = add_targets cpus 0

-- `(start..start + n).filter(...)` in `TargetList::cpu_id_list`.
unfoldable pub listed : TargetList → (start n : ℕ) → List ℕ
listed raw start zero = []
listed raw start (suc n) =
    let rest = listed raw (start + 1) n in
    if bit_and raw (2 ^ start) == 0 then rest else start ∷ rest

unfoldable pub cpu_id_list : TargetList → List ℕ
cpu_id_list raw = listed raw 0 8

-- `SGITarget`
pub data SgiTarget : Type 0 where
  target_list : TargetList → SgiTarget
  all_other current : SgiTarget

-- The value of `SGIR`: the fields are disjoint.
unfoldable pub sgi_value : IntId → SgiTarget → ℕ
sgi_value id (target_list list) = id % 2 ^ 4 + list % 2 ^ 8 * 2 ^ 16
sgi_value id all_other = id % 2 ^ 4 + 1 * 2 ^ 24
sgi_value id current = id % 2 ^ 4 + 2 * 2 ^ 24

unfoldable pub send_sgi : (D : Device) → IntId → SgiTarget → M D (Unit {0})
send_sgi D sgi_id target = do
  require (ltb sgi_id 16)
  set_register D sgir 0 (sgi_value sgi_id target)

-- What reading `IAR` gives.
pub data Ack : Type 0 where
  sgi : IntId → ℕ → Ack
  other : IntId → Ack

-- `From<u32> for Ack`
unfoldable pub to_ack : ℕ → Ack
to_ack value =
    let intid = field value 0 10 in
    if is_sgi intid then sgi intid (field value 10 3) else other intid

-- `From<Ack> for u32`, and the value that `eoi` writes to `EOIR` and `dir` to `DIR`: the three
-- registers have the same fields.
unfoldable pub from_ack : Ack → ℕ
from_ack (sgi intid cpu_id) = intid % 2 ^ 10 + cpu_id % 2 ^ 3 * 2 ^ 10
from_ack (other intid) = intid % 2 ^ 10

unfoldable pub eoi_value : Ack → ℕ
eoi_value (sgi intid cpu_id) = intid % 2 ^ 10 + cpu_id % 2 ^ 3 * 2 ^ 10
eoi_value (other intid) = intid % 2 ^ 10

unfoldable pub is_special_ack : Ack → Bool
is_special_ack (sgi intid cpu_id) = false
is_special_ack (other intid) = is_special intid
