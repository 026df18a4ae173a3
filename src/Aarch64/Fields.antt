-- ===== src/Aarch64/Fields.antt =====
-- The fields of a packed entry are read back.
use sparreal_os.Prelude.{ℕ, ◌/◌, ◌%◌, ◌^◌, ◌<◌, ◌≡◌, arith}
use sparreal_os.Aarch64.{pack}

module _ (valid non_block mair ap_el0 ap_ro shareable af ng phys_addr pxn uxn : ℕ) (h₁ : valid < 2)
    (h₂ : non_block < 2) (h₃ : mair < 8) (h₄ : ap_el0 < 2) (h₅ : ap_ro < 2) (h₆ : shareable < 4)
    (h₇ : af < 2) (h₈ : ng < 2) (h₉ : phys_addr < 2 ^ 36) (h₁₀ : pxn < 2) (h₁₁ : uxn < 2) where
  abbrev packed : ℕ
  packed = pack valid non_block mair ap_el0 ap_ro shareable af ng phys_addr pxn uxn

  pub fields :
      (packed / 2 ^ 0 % 2 ≡ valid)
      × (packed / 2 ^ 1 % 2 ≡ non_block)
      × (packed / 2 ^ 2 % 2 ^ 3 ≡ mair)
      × (packed / 2 ^ 6 % 2 ≡ ap_el0)
      × (packed / 2 ^ 7 % 2 ≡ ap_ro)
      × (packed / 2 ^ 8 % 2 ^ 2 ≡ shareable)
      × (packed / 2 ^ 10 % 2 ≡ af)
      × (packed / 2 ^ 11 % 2 ≡ ng)
      × (packed / 2 ^ 12 % 2 ^ 36 ≡ phys_addr)
      × (packed / 2 ^ 53 % 2 ≡ pxn)
      × (packed / 2 ^ 54 % 2 ≡ uxn)
  unfolding pack
  fields = omega arith
