-- ===== src/Gic/Specifier/Laws.antt =====
-- The specifiers of a device tree against the binding for the GIC.
use Prim.Native.String.{String}
use sparreal_os.Prelude.{ℕ, zero, suc, ◌+◌, ◌%◌, ◌^◌, ◌≤◌, ◌<◌, ◌≡◌, List, [], ◌∷◌, arith, ◌⊎◌}
use sparreal_os.Prelude.Outcome.{ok}
use sparreal_os.Gic.Ids.{IntId, IrqConfig, Trigger, edge, level}
use sparreal_os.Gic.Specifier.{checked_add, trigger}

-- The sense of an interrupt: the four low bits of its flags.
pub data Sense : ℕ → Trigger → Type 0 where
  on_edge : {f : ℕ} → 0 < f % 16 → f % 16 < 4 → Sense f edge
  on_level : {f : ℕ} → (f % 16 ≡ 4) ⊎ (f % 16 ≡ 8) → Sense f level

-- The numbers that the binding has for each type.
abbrev pub InRange : (t n : ℕ) → Type 0
InRange zero n = n < 988
InRange (suc zero) n = n < 16
InRange (suc (suc zero)) n = n < 1024
InRange (suc (suc (suc zero))) n = n < 128
InRange (suc (suc (suc (suc zero)))) n = 8192 ≤ n
InRange (suc (suc (suc (suc (suc zero))))) n = n < 144
InRange _ n = Unit

-- The ids that a type and a number in the range of that type stand for.
pub data Numbered : ℕ → ℕ → IntId → Type 0 where
  spi_id : {t n : ℕ} → t ≡ 0 → n < 988 → Numbered t n (32 + n)
  ppi_id : {t n : ℕ} → t ≡ 1 → n < 16 → Numbered t n (16 + n)
  espi_id : {t n : ℕ} → t ≡ 2 → n < 1024 → Numbered t n (4096 + n)
  eppi_id : {t n : ℕ} → t ≡ 3 → n < 128 → Numbered t n (1056 + n)
  lpi_id : {t n : ℕ} → t ≡ 4 → 8192 ≤ n → Numbered t n n
  low_partition_id : {t n : ℕ} → t ≡ 5 → n < 16 → Numbered t n (16 + n)
  high_partition_id : {t n : ℕ} → t ≡ 5 → 16 ≤ n → n < 144 → Numbered t n (1040 + n)

-- What a list of cells describes.
pub data Describes : List ℕ → IrqConfig → Type 0 where
  software : {n : ℕ} → n < 16 → Describes (n ∷ []) (record { id = n; trigger = edge })
  wired :
      {t n f : ℕ} {rest : List ℕ} {id : IntId} {s : Trigger}
      → Numbered t n id
      → Sense f s
      → Describes (t ∷ n ∷ f ∷ rest) (record { id = id; trigger = s })
  partitioned :
      {t n f : ℕ} {rest : List ℕ} {id : IntId}
      → t ≡ 5
      → Numbered t n id
      → f % 16 ≡ 0
      → Describes (t ∷ n ∷ f ∷ rest) (record { id = id; trigger = level })

checked_add_lem : (a b : ℕ) → a + b < 2 ^ 32 → checked_add a b tt ≡ ok (a + b) tt
unfolding checked_add
checked_add_lem a b h = ground arith

-- The number of three cells or more is in the range of its type.
abbrev pub NumberInRange : List ℕ → Type 0
NumberInRange (t ∷ n ∷ f ∷ rest) = InRange t n
NumberInRange cells = Unit
