-- ===== src/Paging/Map/Entry.antt =====
-- One round of the loop where it writes a page or a block.
use native.Mathlib.Nat.{lt_irrefl}
use sparreal_os.Prelude.{
  ℕ, suc, ◌+◌, ◌-◌, ◌%◌, ◌≤◌, ◌<◌, ◌≡◌, sym, ap, ◌∙◌, inl, inr, Bool, false, some, arith, ◌^◌,
  Bool-cases, lt→ltb, subst,
}
use sparreal_os.Prelude.Bits.{pow-pos}
use sparreal_os.Prelude.Outcome.{ok, Ensures, returns, fails}
use sparreal_os.Paging.Config.{PhysAddr, PteConfig, PagingError, usize_mod}
use sparreal_os.Paging.Frame.{read_entry, store_entry, flush_if, checked}
use sparreal_os.Paging.Frame.Entries.{read_entry_lem}
use sparreal_os.Paging.Geometry.{GeometryLaws}
use sparreal_os.Paging.Geometry.Shifts.{shift}
use sparreal_os.Paging.Geometry.Slots.{
  slot, index, region, slot_at, slot-eq-slot_at, block_of_slot, slot_of_block, index_of_slot,
}
use sparreal_os.Paging.Map.{MapOptions, Round, advance, descend, map_entry}
use sparreal_os.Paging.Map.Effect.{Effect, Effect-refl, Maps, Mapped}
use sparreal_os.Paging.Map.Tags.{Tags, Consistent, lookup-Agree}
use sparreal_os.Paging.Map.Writes.{Wrote, Wrote-Consistent, Wrote-Agree, tag_eq, after, after-Wrote}
use sparreal_os.Paging.Meta.{TableMeta, FrameAllocator, Machine, table_levels, page_size}
use sparreal_os.Paging.Translate.Lookup.{mapping, pointer, kind, lookup_mapping}

module _ (T : TableMeta) (A : FrameAllocator) (o : MapOptions) (live : A.State → PhysAddr → Bool)
    (l frame v pa e : ℕ) (m : Machine T A) (tag : Tags) where
  -- What a round has done when it returns.
  pub data Rounded : Round → Machine T A → Type 0 where
    advanced :
        {v' pa' : ℕ} {m' : Machine T A}
        → v < v'
        → v' ≤ e
        → v' % page_size T ≡ 0
        → pa' ≡ pa + (v' - v)
        → Effect T A live (suc l) v e m m' tag tag
        → Mapped T A o.pte_template m' (suc l) frame v v' pa
        → Rounded (advance v' pa') m'
    descended :
        {child next : ℕ} {m' : Machine T A} (tag' : Tags)
        → 0 < l
        → v < next
        → next ≤ e
        → next % page_size T ≡ 0
        → ((w : ℕ) → v ≤ w → w < next → slot T (suc l) w ≡ slot T (suc l) v)
        → Effect T A live (suc l) v e m m' tag tag'
        → tag' child ≡ some (l, slot T (suc l) v)
        → kind T l (m'.table frame (index T (suc l) v)) ≡ pointer child
        → Rounded (descend child next) m'

  abbrev pub Failed : PagingError → Machine T A → Type 0
  Failed error m' = (tag' : Tags) × Effect T A live (suc l) v e m m' tag tag'

module _ (T : TableMeta) (A : FrameAllocator) (o : MapOptions) where
  map_entry-after :
      (m : Machine T A) (frame i : ℕ) (config : PteConfig) (v pa size : ℕ)
      → read_entry T A frame i m ≡ ok (m.table frame i) m
      → T.valid (m.table frame i) ≡ false
      → v + size < usize_mod
      → pa + size < usize_mod
      → map_entry T A o frame i config v pa size m
        ≡ ok (advance (v + size) (pa + size)) (after T A m frame i (T.from_config config) v o.flush)
  unfolding map_entry after store_entry flush_if checked
  map_entry-after m frame i config v pa size read free fits fits' =
      rw (read, free)
        (elim (Bool-cases o.flush) [
          | inl f ↦ rw (f, lt→ltb _ _ fits, lt→ltb _ _ fits')
          | inr f ↦ rw (f, lt→ltb _ _ fits, lt→ltb _ _ fits')
        ])

module _ (T : TableMeta) (A : FrameAllocator) (o : MapOptions) (live : A.State → PhysAddr → Bool)
    (g : GeometryLaws T) (l frame v pa e : ℕ) (m : Machine T A) (tag : Tags)
    (c : Consistent T A live m tag) (h : suc l ≤ table_levels T)
    (t : tag frame ≡ some (suc l, region T (suc l) v)) where
  module _ {m' : Machine T A} {pte : T.Pte} (w : Wrote T A m m' frame (index T (suc l) v) pte)
      (aligned : v % 2 ^ shift T (suc l) ≡ 0) (leaf : kind T l pte ≡ mapping) where
    entry-Effect :
        (hi : ℕ) → v + 2 ^ shift T (suc l) ≤ hi → Effect T A live (suc l) v hi m m' tag tag
    entry-Effect hi fits = record {
      tags = λ p t'. t';
      consistent = Wrote-Consistent T A c w t (λ q k. cc (leaf, k));
      above = λ p k r j t' above. w.elsewhere p j (λ (ep, _).
          lt_irrefl (suc l) (subst (λ x. suc l < x) (tag_eq (sym t' ∙ ap tag ep ∙ t)).0 above));
      others = λ a out k p h' t'.
          lookup-Agree T A m m' tag c a
            (Wrote-Agree T A c w t a (λ same. out (in_range hi fits a same))) k p h' t';
    }
      where
        in_range :
            (hi : ℕ)
            → v + 2 ^ shift T (suc l) ≤ hi
            → (a : ℕ)
            → slot T (suc l) a ≡ slot_at T (suc l) (region T (suc l) v) (index T (suc l) v)
            → (v ≤ a) × (a < hi)
        in_range hi fits a same =
            omega (
              arith,
              block_of_slot T (suc l) v a aligned (same ∙ sym (slot-eq-slot_at T (suc l) v)),
            )

    entry-Mapped :
        ((a : ℕ)
          → v ≤ a
          → a < v + 2 ^ shift T (suc l)
          → Maps T o.pte_template a (pa + (a - v)) (pte, suc l))
        → Mapped T A o.pte_template m' (suc l) frame v (v + 2 ^ shift T (suc l)) pa
    entry-Mapped gives a lo hi =
        let same = (slot_of_block T (suc l) v a aligned lo hi).0 in
        let read : m'.table frame (index T (suc l) a) ≡ pte =
          ap (m'.table frame) (index_of_slot T (suc l) v a same) ∙ w.here in
        (
          (pte, suc l),
          lookup_mapping T A m' l frame a (ap (kind T l) read ∙ leaf)
              ∙ ap (λ x. some (x, suc l)) read,
          gives a lo hi,
        )

  -- A mapping of a whole slot, from its first address on.
  pub map_entry-Rounded :
      (config : PteConfig) (size : ℕ)
      → size ≡ 2 ^ shift T (suc l)
      → v % size ≡ 0
      → (v + size) % page_size T ≡ 0
      → v + size ≤ e
      → e < usize_mod
      → pa + (e - v) < usize_mod
      → kind T l (T.from_config config) ≡ mapping
      → ((w : ℕ)
          → v ≤ w
          → w < v + size
          → Maps T o.pte_template w (pa + (w - v)) (T.from_config config, suc l))
      → Ensures
          (Rounded T A o live l frame v pa e m tag)
          (Failed T A o live l frame v pa e m tag)
          (map_entry T A o frame (index T (suc l) v) config v pa size m)
  unfolding map_entry
  map_entry-Rounded config size sized aligned next fits small small' leaf gives =
      let i = index T (suc l) v in
      let read = read_entry_lem T A g m frame v (suc l) (omega arith) h in
      elim (Bool-cases (T.valid (m.table frame i))) [
        | inl used ↦ rw (read, used) (fails (tag, Effect-refl T A live (suc l) v e c))
        | inr free ↦
            let w = after-Wrote T A m frame i (T.from_config config) v o.flush in
            let aligned' : v % 2 ^ shift T (suc l) ≡ 0 = rw (← sized) aligned in
            subst
              (Ensures (Rounded T A o live l frame v pa e m tag)
                (Failed T A o live l frame v pa e m tag))
              (sym (
                map_entry-after T A o m frame i config v pa size read free (omega arith)
                  (omega arith)))
              (returns (
                advanced (omega (arith, pow-pos (shift T (suc l)))) fits next (omega arith)
                  (entry-Effect w aligned' leaf e (omega arith))
                  (rw sized (entry-Mapped w aligned' leaf (rw (← sized) gives)))))
      ]
