-- ===== src/Paging/Map/Writes.antt =====
-- What a write of one entry, and the link of a new table, do to a consistent memory.
use sparreal_os.Prelude.{
  ℕ, suc, ◌≡◌, sym, ap, ◌∙◌, ◌⊎◌, inl, inr, ◌≢◌, Bool, true, false, Option, some, arith, refl,
  ==_self, ◌∷◌, if◌then◌else◌,
}
use sparreal_os.Paging.Config.{PhysAddr}
use sparreal_os.Paging.Frame.{write_entry}
use sparreal_os.Paging.Geometry.Slots.{slot, index, region, slot_at, slot-eq-slot_at}
use sparreal_os.Paging.Map.Tags.{Tags, Consistent, Agree}
use sparreal_os.Paging.Meta.{TableMeta, FrameAllocator, Machine}
use sparreal_os.Paging.Translate.Lookup.{pointer, kind}

-- Whether an entry is the one that is written.
pub entry-cases : (p j frame i : ℕ) → ((p ≡ frame) × (j ≡ i)) ⊎ ¬ ((p ≡ frame) × (j ≡ i))
entry-cases p j frame i = ground arith

pub tag_eq :
    {a b c d : ℕ} → ◌≡◌ {A = Option (ℕ × ℕ)} (some (a, b)) (some (c, d)) → (a ≡ c) × (b ≡ d)
tag_eq h = ground arith

module _ (T : TableMeta) (A : FrameAllocator) where
  -- `m'` is `m` with one entry of `frame` written.
  pub record Wrote (m m' : Machine T A) (frame i : ℕ) (e : T.Pte) : Type 0 where
    pub here : m'.table frame i ≡ e
    pub elsewhere : (p j : ℕ) → ¬ ((p ≡ frame) × (j ≡ i)) → m'.table p j ≡ m.table p j
    pub frames : m'.frames ≡ m.frames

  module _ {live : A.State → PhysAddr → Bool} {m m' : Machine T A} {frame i l r : ℕ} {e : T.Pte}
      {tag : Tags} (c : Consistent T A live m tag) (w : Wrote m m' frame i e)
      (t : tag frame ≡ some (suc l, r)) where
    -- An entry that is no pointer keeps the memory consistent.
    pub Wrote-Consistent : ((q : ℕ) → ¬ (kind T l e ≡ pointer q)) → Consistent T A live m' tag
    Wrote-Consistent leaf = record {
      child = λ p k r' j {q} t' h k'. elim (entry-cases p j frame i) [
        | inl (ep, ej) ↦
            let level : suc k ≡ suc l = (tag_eq (sym t' ∙ ap tag ep ∙ t)).0 in
            let written : m'.table p j ≡ e = cc w.here in
            let level' : k ≡ l = omega arith in absurd (leaf q (cc k'))
        | inr other ↦ c.child p k r' j t' h (ap (kind T k) (sym (w.elsewhere p j other)) ∙ k')
      ];
      owned = λ p t'. rw w.frames (c.owned p t');
    }

    -- An address of another slot does not see the write.
    pub Wrote-Agree : (a : ℕ) → slot T (suc l) a ≢ slot_at T (suc l) r i → Agree T A m m' tag c a
    Wrote-Agree a out p k t' = elim (entry-cases p (index T (suc k) a) frame i) [
      | inl (ep, ej) ↦
          let level : (suc k ≡ suc l) × (region T (suc k) a ≡ r) =
            tag_eq (sym t' ∙ ap tag ep ∙ t) in
          let level' : k ≡ l = omega arith in absurd (out (cc (slot-eq-slot_at T (suc k) a)))
      | inr other ↦ inl (w.elsewhere p (index T (suc k) a) other)
    ]

module _ (T : TableMeta) (A : FrameAllocator) where
  -- The memory behind a round that has written an entry.
  unfoldable pub after : Machine T A → ℕ → ℕ → T.Pte → ℕ → Bool → Machine T A
  after m frame i pte v flush =
      if flush
      then record (write_entry T A frame i pte m) {
        flushed = v ∷ (write_entry T A frame i pte m).flushed;
      }
      else write_entry T A frame i pte m

  pub after-Wrote :
      (m : Machine T A) (frame i : ℕ) (pte : T.Pte) (v : ℕ) (flush : Bool)
      → Wrote T A m (after m frame i pte v flush) frame i pte
  unfolding after write_entry
  after-Wrote m frame i pte v true = record {
    here = rw (==_self frame, ==_self i);
    elsewhere = λ p j other. ground arith;
    frames = refl;
  }
  after-Wrote m frame i pte v false = record {
    here = rw (==_self frame, ==_self i);
    elsewhere = λ p j other. ground arith;
    frames = refl;
  }
