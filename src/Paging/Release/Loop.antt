-- ===== src/Paging/Release/Loop.antt =====
-- `deallocate_recursive` hands back the tables that can be reached, and no others.
use native.Mathlib.Nat.{le_refl}
use sparreal_os.Prelude.{
  ℕ, zero, suc, ◌≤◌, ◌<◌, ◌≡◌, refl, sym, ◌∙◌, subst, ◌⊎◌, inl, inr, Bool, false, not, some, ◌&&◌,
  ◌==◌, ==_self, Bool-cases, arith,
}
use sparreal_os.Prelude.Outcome.{Run, Ensures, returns, bind, mono}
use sparreal_os.Paging.Config.{PhysAddr, PagingError}
use sparreal_os.Paging.Map.Tags.{Tags, Consistent}
use sparreal_os.Paging.Meta.{
  TableMeta, FrameAllocator, Machine, M, table_levels, EntryLaws, FrameLaws,
}
use sparreal_os.Paging.Release.{clear_children, deallocate_recursive}
use sparreal_os.Paging.Release.Children
use sparreal_os.Paging.Release.Reach.{Reach, self, below}
use sparreal_os.Paging.Translate.Lookup.{pointer, kind}
use sparreal_os.Paging.Unmap.{release}
use sparreal_os.Paging.Unmap.Slots.{kind_zero_level}
use sparreal_os.Paging.Walk.Entries.{WalkLaws}

zero-cases : (n : ℕ) → (n ≡ 0) ⊎ (0 < n)
zero-cases n = ground arith

&&_false : (b : Bool) → (b && false) ≡ false
&&_false b = ground arith

not_and : (a b : Bool) → a ≡ false → (not a && b) ≡ false → b ≡ false
not_and a b h e = ground arith

last-cases : (n i : ℕ) → i < suc n → (i < n) ⊎ (i ≡ n)
last-cases n i lt = ground arith

module _ (T : TableMeta) (A : FrameAllocator) (laws : EntryLaws T)
    (fl : FrameLaws T laws.phys_limit A) (full : WalkLaws T) (m : Machine T A)
    (goal : PhysAddr → Type 0) (tag : Tags) (c : Consistent T A fl.live m tag) where
  abbrev Fades : Machine T A → Machine T A → Type 0
  Fades = Children.Fades T A laws fl full m goal tag c

  abbrev P : Machine T A → Type 0
  P = Children.P T A laws fl full m goal tag c

  abbrev DeadChild : ℕ → PhysAddr → ℕ → Machine T A → Type 0
  DeadChild = Children.DeadChild T A laws fl full m goal tag c

  abbrev Works : ℕ → PhysAddr → Machine T A → Run PagingError (Machine T A) (Unit {0}) → Type 0
  Works = Children.Works T A laws fl full m goal tag c

  abbrev Wanted : ℕ → PhysAddr → Type 0
  Wanted = Children.Wanted T A laws fl full m goal tag c

  -- The loop over the first `n` entries.
  module _ (l p r : ℕ) (t : tag p ≡ some (suc l, r)) (work : PhysAddr → M T A (Unit {0}))
      (works : (i : ℕ)
        → i < T.entries
        → (q : PhysAddr) → kind T l (m.table p i) ≡ pointer q
        → (s : Machine T A) → P s
        → Works l q s (work q s)) where
    clear_children-Dead :
        (n : ℕ)
        → n ≤ T.entries
        → (s : Machine T A) → P s
        → Ensures
            (λ _ s'. P s' × ((i : ℕ) → i < n → DeadChild l p i s') × Fades s s')
            (λ _ _. ⊥)
            (clear_children T A work (suc l) p n s)
    unfolding clear_children
    clear_children-Dead zero h s pruned =
        returns (pruned, (λ i lt. absurd (omega (arith, lt))), λ x dead. dead)
    clear_children-Dead (suc n) h s pruned =
        bind
          (Children.clear_child-Round T A laws fl full m goal tag c l p r n t h work s pruned
            (λ q points. works n h q points s pruned))
          (λ _ s1 (pruned1, last, fades1).
            mono (clear_children-Dead n (omega (arith, h)) s1 pruned1)
              (λ _ s2 (pruned2, rest, fades2). (
                pruned2,
                (λ i lt. elim (last-cases n i lt) [
                  | inl less ↦ rest i less
                  | inr e ↦ λ q points.
                      Children.persist T A laws fl full m goal tag c l q s1 s2 fades2
                        (last q (subst (λ x. kind T l (m.table p x) ≡ pointer q) e points))
                ]),
                λ x dead. fades2 x (fades1 x dead),
              ))
              (λ e s' no. no))
          (λ e s' no. no)

  -- The table itself follows its children.
  module _ (l p : ℕ) (s s' : Machine T A) (dead : (i : ℕ) → i < T.entries → DeadChild l p i s')
      (fades : Fades s s') where
    abbrev after : Machine T A
    after = record s' { frames = A.dealloc_frame p s'.frames }

    release-fades : (x : PhysAddr) → fl.live s'.frames x ≡ false → fl.live after.frames x ≡ false
    release-fades x gone = rw (fl.dealloc_live s'.frames p x, gone) (&&_false _)

    released : fl.live after.frames p ≡ false
    released = rw (fl.dealloc_live s'.frames p p, ==_self p) refl

    release-reached : (x : PhysAddr) → Reach T A m (suc l) p x → fl.live after.frames x ≡ false
    release-reached x self = released
    release-reached x (below j h k reach) = release-fades x (dead j h _ k x reach)

    release-only :
        goal p
        → P s'
        → (x : PhysAddr) → fl.live after.frames x ≡ false
        → (fl.live m.frames x ≡ false) ⊎ goal x
    release-only wanted pruned x gone = elim (Bool-cases (x == p)) [
      | inl same ↦ let e : p ≡ x = ground arith in inr (subst goal e wanted)
      | inr other ↦
          let was : fl.live s'.frames x ≡ false =
            not_and (x == p) _ other (sym (fl.dealloc_live s'.frames p x) ∙ gone) in
          pruned.only x was
    ]

    release-Works : goal p → P s' → Works (suc l) p s (release T A p s')
    unfolding release
    release-Works wanted pruned = returns (
      record {
        entry = λ p' l' r' j t' h'.
            Children.unlinked_other T A laws fl full m goal tag c s' after refl release-fades
              (pruned.entry p' l' r' j t' h');
        fewer = λ x gone. release-fades x (pruned.fewer x gone);
        only = release-only wanted pruned;
      },
      release-reached,
      λ x gone. release-fades x (fades x gone),
    )

  pub deallocate_recursive-Works :
      (l p r : ℕ)
      → l ≤ table_levels T
      → 0 < l
      → tag p ≡ some (l, r)
      → Wanted l p
      → (s : Machine T A) → P s
      → Works l p s (deallocate_recursive T A l p s)
  unfolding deallocate_recursive
  deallocate_recursive-Works zero p r h pos t wanted s pruned = absurd (omega (arith, pos))
  deallocate_recursive-Works (suc l) p r h pos t wanted s pruned =
      bind
        (clear_children-Dead l p r t (deallocate_recursive T A l)
          (λ i lt q points s1 pruned1. elim (zero-cases l) [
            | inl e ↦ absurd (
                kind_zero_level T A m (m.table p i)
                  (subst (λ x. kind T x (m.table p i) ≡ pointer q) e points))
            | inr pos' ↦
                deallocate_recursive-Works l q _ (omega (arith, h)) pos'
                  (c.child p l r i t (rw (← full.full (suc l) pos h) lt) points)
                  (λ x reach. wanted x (below i lt points reach)) s1 pruned1
          ])
          T.entries (le_refl T.entries) s pruned)
        (λ _ s' (pruned', dead, fades). release-Works l p s s' dead fades (wanted p self) pruned')
        (λ e s' no. no)
