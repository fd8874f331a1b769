-- ===== src/Malloc/Mm/Lists/Removal.antt =====
-- `remove_from_list` of malloclab/mm.c on the list of addresses.
use mathlib.Core.Path.{subst}
use mathlib.Core.List.{append_assoc}
use csapp.Common.{
  last-cases, ℕ, ◌+◌, ◌≡◌, ◌⊎◌, refl, sym, inl, inr, List, [], ◌∷◌, ◌++◌, All, All-map, All-append,
  arith,
}
use csapp.Malloc.Word.{Mm, done}
use csapp.Malloc.Mm.{remove_from_list}
use csapp.Malloc.Mm.Ring.{
  Chain, Far, Spread, Clear, removed, Chain-removed, Chain-before-removed, Chain-split, Chain-join,
  Far-sym, Spread-split, Spread-join, Apart-cons, Apart-with,
}
use csapp.Malloc.Mm.Lists.{
  IsNode, Ring, Relinked, remove_from_list-run, next_in, next_in-Chain, next_in-All, All-split,
  Apart-each,
}

module _ (head : ℕ) where
  -- What a removal of b gives, for the blocks that stay.
  abbrev Removes : Mm → ℕ → List ℕ → List ℕ → Type 0
  Removes m b xs rest =
      (m' : Mm) × (remove_from_list head b m ≡ done tt m')
      × Ring head m' rest
      × Relinked head (head ∷ xs) m m'

  Removes-front : (m : Mm) (b : ℕ) (zs : List ℕ) → Ring head m (b ∷ zs) → Removes m b (b ∷ zs) zs
  unfolding Spread Chain
  Removes-front m b zs r =
      let n : ℕ = m.word (b + 8) in
      let ch = r.chain.1 in
      let e : n ≡ next_in head zs = next_in-Chain head m.word b zs ch in
      let n_node : IsNode head m.memory n =
        subst (IsNode head m.memory) (sym e)
          (next_in-All head (IsNode head m.memory) zs r.nodes.0 r.nodes.1.1) in
      (
        record m { word = removed m.word head n },
        remove_from_list-run head m b head n r.chain.0.1 refl r.nodes.1.0 r.nodes.0 n_node
            (Far-sym head b r.spread.0.0),
        record {
          chain =
              Chain-removed m.word head zs head b r.spread.0.1 r.spread.1.1 (inl refl) r.spread.0.1
                r.chain;
          spread = (r.spread.0.1, r.spread.1.1);
          nodes = (r.nodes.0, r.nodes.1.1);
        },
        record {
          same_memory = refl;
          same_words = λ q (ch, (cb, cz)).
              let cn : Clear q n = subst (Clear q) (sym e) (next_in-All head (Clear q) zs ch cz) in
              ground arith;
        },
      )

  Removes-behind :
      (m : Mm) (b : ℕ) (ys : List ℕ) (p : ℕ) (zs : List ℕ)
      → Ring head m (ys ++ (p ∷ b ∷ zs))
      → Removes m b (ys ++ (p ∷ b ∷ zs)) (ys ++ (p ∷ zs))
  unfolding Spread Chain
  Removes-behind m b ys p zs r =
      let n : ℕ = m.word (b + 8) in
      let (before, behind) = Chain-split m.word head ys p (b ∷ zs) head r.chain in
      let e : n ≡ next_in head zs = next_in-Chain head m.word b zs behind.1 in
      let (sy, sz, a) = Spread-split ys (p ∷ b ∷ zs) r.spread.1 in
      let (py, a') = Apart-cons ys p (b ∷ zs) a in
      let (by, ay) = Apart-cons ys b zs a' in
      let (hy, hp, hz) = All-split head (Far head) ys p (b ∷ zs) r.spread.0 in
      let (ny, np, nz) = All-split head (IsNode head m.memory) ys p (b ∷ zs) r.nodes.1 in
      let n_node : IsNode head m.memory n =
        subst (IsNode head m.memory) (sym e)
          (next_in-All head (IsNode head m.memory) zs r.nodes.0 nz.1) in
      let n_far : Far n p =
        subst (λ x. Far x p) (sym e)
          (next_in-All head (λ x. Far x p) zs hp
            (All-map (Far p) (λ x. Far x p) zs (Far-sym p) sz.0.1)) in
      let n_head : (n ≡ head) ⊎ Far n head =
        subst (λ x. (x ≡ head) ⊎ Far x head) (sym e)
          (next_in-All head (λ x. (x ≡ head) ⊎ Far x head) zs (inl refl)
            (All-map (Far head) (λ x. (x ≡ head) ⊎ Far x head) zs (λ x f. inr (Far-sym head x f))
              hz.1)) in
      let n_ys : All (Far n) ys =
        subst (λ x. All (Far x) ys) (sym e)
          (next_in-All head (λ x. All (Far x) ys) zs hy (Apart-each head ys zs ay)) in
      let ph : Far p head = Far-sym head p hp in
      (
        record m { word = removed m.word p n },
        remove_from_list-run head m b p n behind.0.1 refl nz.0 np n_node (Far-sym p b sz.0.0),
        record {
          chain =
              Chain-join (removed m.word p n) head ys p zs head
                (Chain-before-removed m.word head ys p n hp py n_head n_far n_ys before)
                (Chain-removed m.word p zs head b sz.0.1 sz.1.1 (inr ph) hz.1 behind);
          spread = (
            All-append (Far head) ys (p ∷ zs) hy (hp, hz.1),
            Spread-join ys (p ∷ zs) sy (sz.0.1, sz.1.1) (Apart-with ys p zs py ay),
          );
          nodes = (r.nodes.0, All-append (IsNode head m.memory) ys (p ∷ zs) ny (np, nz.1));
        },
        record {
          same_memory = refl;
          same_words = λ q (ch, cs).
              let (cy, cp, cz) = All-split head (Clear q) ys p (b ∷ zs) cs in
              let cn : Clear q n =
                subst (Clear q) (sym e) (next_in-All head (Clear q) zs ch cz.1) in
              ground arith;
        },
      )

  -- `remove_from_list(b)` takes the block out of the list, wherever it stands.
  pub remove_from_list-Ring :
      (m : Mm) (b : ℕ) (ys zs : List ℕ)
      → Ring head m (ys ++ (b ∷ zs))
      → (m' : Mm) × (remove_from_list head b m ≡ done tt m')
        × Ring head m' (ys ++ zs)
        × Relinked head (head ∷ (ys ++ (b ∷ zs))) m m'
  remove_from_list-Ring m b ys zs r = elim (last-cases ys) [
    | inl e ↦
        subst (λ l. Ring head m (l ++ (b ∷ zs)) → Removes m b (l ++ (b ∷ zs)) (l ++ zs)) (sym e)
          (Removes-front m b zs) r
    | inr (xs, p, e) ↦
        subst (λ l. Ring head m (l ++ (b ∷ zs)) → Removes m b (l ++ (b ∷ zs)) (l ++ zs)) (sym e)
          (rw (append_assoc xs (p ∷ []) (b ∷ zs), append_assoc xs (p ∷ []) zs)
            (Removes-behind m b xs p zs))
          r
  ]
