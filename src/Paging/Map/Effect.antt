-- ===== src/Paging/Map/Effect.antt =====
-- What mapping a range may change. An effect keeps the memory consistent and every known frame where
-- it stands; it leaves the tables above its level alone, and the meaning of every address outside
-- its range.
use sparreal_os.Prelude.{ℕ, ◌+◌, ◌-◌, ◌≤◌, ◌<◌, ◌≡◌, refl, ◌∙◌, ◌⊎◌, Bool, some, arith}
use sparreal_os.Paging.Config.{PhysAddr, PteConfig}
use sparreal_os.Paging.Geometry.Slots.{region}
use sparreal_os.Paging.Map.{page_config, block_config}
use sparreal_os.Paging.Map.Tags.{Tags, Consistent}
use sparreal_os.Paging.Meta.{TableMeta, FrameAllocator, Machine, table_levels}
use sparreal_os.Paging.Translate.{phys_of}
use sparreal_os.Paging.Translate.Lookup.{lookup}

module _ (T : TableMeta) (A : FrameAllocator) (live : A.State → PhysAddr → Bool) where
  pub record Effect (level lo hi : ℕ) (m m' : Machine T A) (tag tag' : Tags) : Type 0 where
    pub tags : (p : ℕ) {x : ℕ × ℕ} → tag p ≡ some x → tag' p ≡ some x
    pub consistent : Consistent T A live m' tag'
    pub above : (p k r j : ℕ) → tag p ≡ some (k, r) → level < k → m'.table p j ≡ m.table p j
    pub others :
        (w : ℕ)
        → ¬ ((lo ≤ w) × (w < hi))
        → (k p : ℕ) → k ≤ table_levels T
        → tag p ≡ some (k, region T k w)
        → lookup T A m' k p w ≡ lookup T A m k p w

  pub Effect-refl :
      (level lo hi : ℕ) {m : Machine T A} {tag : Tags}
      → Consistent T A live m tag
      → Effect level lo hi m m tag tag
  Effect-refl level lo hi c = record {
    tags = λ p t. t;
    consistent = c;
    above = λ p k r j t h. refl;
    others = λ w out k p h t. refl;
  }

  pub Effect-trans :
      {level lo hi : ℕ} {m m' m'' : Machine T A} {tag tag' tag'' : Tags}
      → Effect level lo hi m m' tag tag'
      → Effect level lo hi m' m'' tag' tag''
      → Effect level lo hi m m'' tag tag''
  Effect-trans e f = record {
    tags = λ p t. f.tags p (e.tags p t);
    consistent = f.consistent;
    above = λ p k r j t h. f.above p k r j (e.tags p t) h ∙ e.above p k r j t h;
    others = λ w out k p h t. f.others w out k p h (e.tags p t) ∙ e.others w out k p h t;
  }

  pub Effect-widen :
      {level level' lo lo' hi hi' : ℕ} {m m' : Machine T A} {tag tag' : Tags}
      → level ≤ level'
      → lo' ≤ lo
      → hi ≤ hi'
      → Effect level lo hi m m' tag tag'
      → Effect level' lo' hi' m m' tag tag'
  Effect-widen dl dlo dhi e = record {
    tags = e.tags;
    consistent = e.consistent;
    above = λ p k r j t h. e.above p k r j t (omega arith);
    others = λ w out. e.others w (λ in_range. out (omega arith));
  }

module _ (T : TableMeta) where
  -- The entry `x` takes `w` to `p`, with the attributes of the template.
  pub record Maps (template : PteConfig) (w p : ℕ) (x : T.Pte × ℕ) : Type 0 where
    pub phys : phys_of T w x ≡ p
    pub base : PhysAddr
    pub from_template :
        (x.0 ≡ T.from_config (page_config template base))
        ⊎ (x.0 ≡ T.from_config (block_config template base))

module _ (T : TableMeta) (A : FrameAllocator) where
  -- Below `frame`, every address from `lo` up to `hi` is mapped, in order, to the range from `pa`.
  abbrev pub Mapped : PteConfig → Machine T A → ℕ → PhysAddr → ℕ → ℕ → PhysAddr → Type 0
  Mapped template m level frame lo hi pa =
      (w : ℕ)
      → lo ≤ w
      → w < hi
      → (x : T.Pte × ℕ) × (lookup T A m level frame w ≡ some x)
        × Maps T template w (pa + (w - lo)) x
