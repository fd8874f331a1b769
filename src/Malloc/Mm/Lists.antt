-- ===== src/Malloc/Mm/Lists.antt =====
-- The list of free blocks of malloclab/mm.c as a list of addresses, and `insert_to_list`.
pub mod Removal
use mathlib.Core.Path.{subst}
use mathlib.Core.List.{append_assoc}
use csapp.Common.{
  ℕ, ◌+◌, ◌≡◌, ◌⊎◌, refl, sym, ap, inl, inr, true, List, [], ◌∷◌, ◌++◌, All, All-map, All-append,
  arith,
}
use csapp.Malloc.Memlib.{Memory}
use csapp.Malloc.Word.{Mm, done, load, store, reaches, update}
use csapp.Malloc.Mm.{insert_to_list, remove_from_list}
use csapp.Malloc.Mm.Ring.{
  Chain, Far, Spread, Clear, inserted, removed, Chain-inserted, Chain-before, Chain-removed,
  Chain-before-removed, Chain-split, Chain-join, Far-sym, Apart, Spread-split, Spread-join,
  Apart-cons, Apart-with,
}

module _ (head : ℕ) where
  -- The header of a block lies in the memory.
  abbrev pub IsNode : Memory → ℕ → Type 0
  IsNode m b =
      (reaches head m b ≡ true) × (reaches head m (b + 4) ≡ true) × (reaches head m (b + 8) ≡ true)

  -- The list through `head` is xs, in both directions; its headers are in memory, each of its own.
  pub record Ring (m : Mm) (xs : List ℕ) : Type 0 where
    pub chain : Chain m.word head xs head
    pub spread : Spread (head ∷ xs)
    pub nodes : All (IsNode m.memory) (head ∷ xs)

  -- From m to m' no word changes but links of the blocks xs.
  pub record Relinked (xs : List ℕ) (m m' : Mm) : Type 0 where
    pub same_memory : m'.memory ≡ m.memory
    pub same_words : (q : ℕ) → All (Clear q) xs → m'.word q ≡ m.word q

  pub insert_to_list-run :
      (m : Mm) (b p : ℕ)
      → IsNode m.memory b
      → IsNode m.memory p
      → IsNode m.memory (m.word (p + 8))
      → Far b p
      → insert_to_list head b p m
        ≡ done tt (record m { word = inserted m.word b p (m.word (p + 8)) })
  unfolding insert_to_list load store
  insert_to_list-run m b p (b0, b4, b8) (p0, p4, p8) (n0, n4, n8) f = ground arith

  pub remove_from_list-run :
      (m : Mm) (b p n : ℕ)
      → m.word (b + 4) ≡ p
      → m.word (b + 8) ≡ n
      → IsNode m.memory b
      → IsNode m.memory p
      → IsNode m.memory n
      → Far b p
      → remove_from_list head b m ≡ done tt (record m { word = removed m.word p n })
  unfolding remove_from_list load store
  remove_from_list-run m b p n e f (b0, b4, b8) (p0, p4, p8) (n0, n4, n8) g =
      let next_kept : update m.word (p + 8) n (b + 8) ≡ n = ground arith in
      let prev_kept : update m.word (p + 8) n (b + 4) ≡ p = ground arith in
      rw (b4, b8, e, f, p8, b8, b4, next_kept, prev_kept, n4) refl

  -- The block behind p in the chain.
  abbrev pub next_in : List ℕ → ℕ
  next_in [] = head
  next_in (z ∷ zs) = z

  pub next_in-Chain : (w : ℕ → ℕ) (p : ℕ) (zs : List ℕ) → Chain w p zs head → w (p + 8) ≡ next_in zs
  unfolding Chain
  next_in-Chain w p [] l = l.0
  next_in-Chain w p (z ∷ zs) (l, ch) = l.0

  pub next_in-All : (P : ℕ → Type 0) (zs : List ℕ) → P head → All P zs → P (next_in zs)
  next_in-All P [] h a = h
  next_in-All P (z ∷ zs) h a = a.0

  pub All-split :
      (P : ℕ → Type 0) (ys : List ℕ) (p : ℕ) (zs : List ℕ)
      → All P (ys ++ (p ∷ zs))
      → All P ys × P p × All P zs
  All-split P [] p zs (h, t) = (tt, h, t)
  All-split P (y ∷ ys) p zs (h, t) = let (a, b, c) = All-split P ys p zs t in ((h, a), b, c)

  pub Apart-each : (ys zs : List ℕ) → Apart ys zs → All (λ x. All (Far x) ys) zs
  unfolding Apart
  Apart-each ys [] a = tt
  Apart-each ys (z ∷ zs) a = let (f, t) = Apart-cons ys z zs a in (f, Apart-each ys zs t)

  -- `insert_to_list(b, &head)` puts the block in front of the list.
  pub insert_to_list-front :
      (m : Mm) (b : ℕ) (zs : List ℕ)
      → Ring m zs
      → IsNode m.memory b
      → All (Far b) (head ∷ zs)
      → (m' : Mm) × (insert_to_list head b head m ≡ done tt m')
        × Ring m' (b ∷ zs)
        × Relinked (b ∷ head ∷ zs) m m'
  unfolding Spread
  insert_to_list-front m b zs r node far =
      let n : ℕ = m.word (head + 8) in
      let e : n ≡ next_in zs = next_in-Chain m.word head zs r.chain in
      let n_node : IsNode m.memory n =
        subst (IsNode m.memory) (sym e) (next_in-All (IsNode m.memory) zs r.nodes.0 r.nodes.1) in
      (
        record m { word = inserted m.word b head n },
        insert_to_list-run m b head node r.nodes.0 n_node far.0,
        record {
          chain =
              Chain-inserted m.word head zs head b r.spread.0 r.spread.1 (inl refl) r.spread.0 far.0
                far.0 far.1 r.chain;
          spread = ((Far-sym b head far.0, r.spread.0), (far.1, r.spread.1));
          nodes = (r.nodes.0, (node, r.nodes.1));
        },
        record {
          same_memory = refl;
          same_words = λ q (cb, (ch, cz)).
              let cn : Clear q n = subst (Clear q) (sym e) (next_in-All (Clear q) zs ch cz) in
              ground arith;
        },
      )

  -- `insert_to_list(b, p)` puts the block behind the block p of the list.
  pub insert_to_list-behind :
      (m : Mm) (b : ℕ) (ys : List ℕ) (p : ℕ) (zs : List ℕ)
      → Ring m (ys ++ (p ∷ zs))
      → IsNode m.memory b
      → All (Far b) (head ∷ (ys ++ (p ∷ zs)))
      → (m' : Mm) × (insert_to_list head b p m ≡ done tt m')
        × Ring m' (ys ++ (p ∷ b ∷ zs))
        × Relinked (b ∷ head ∷ (ys ++ (p ∷ zs))) m m'
  unfolding Spread
  insert_to_list-behind m b ys p zs r node far =
      let n : ℕ = m.word (p + 8) in
      let (before, behind) = Chain-split m.word head ys p zs head r.chain in
      let e : n ≡ next_in zs = next_in-Chain m.word p zs behind in
      let (sy, sz, a) = Spread-split ys (p ∷ zs) r.spread.1 in
      let (py, ay) = Apart-cons ys p zs a in
      let (hy, hp, hz) = All-split (Far head) ys p zs r.spread.0 in
      let (by, bp, bz) = All-split (Far b) ys p zs far.1 in
      let (ny, np, nz) = All-split (IsNode m.memory) ys p zs r.nodes.1 in
      let n_node : IsNode m.memory n =
        subst (IsNode m.memory) (sym e) (next_in-All (IsNode m.memory) zs r.nodes.0 nz) in
      let n_far : Far n p =
        subst (λ x. Far x p) (sym e)
          (next_in-All (λ x. Far x p) zs hp (All-map (Far p) (λ x. Far x p) zs (Far-sym p) sz.0)) in
      let n_head : (n ≡ head) ⊎ Far n head =
        subst (λ x. (x ≡ head) ⊎ Far x head) (sym e)
          (next_in-All (λ x. (x ≡ head) ⊎ Far x head) zs (inl refl)
            (All-map (Far head) (λ x. (x ≡ head) ⊎ Far x head) zs (λ x f. inr (Far-sym head x f))
              hz)) in
      let n_ys : All (Far n) ys =
        subst (λ x. All (Far x) ys) (sym e)
          (next_in-All (λ x. All (Far x) ys) zs hy (Apart-each ys zs ay)) in
      let ph : Far p head = Far-sym head p hp in
      (
        record m { word = inserted m.word b p n },
        insert_to_list-run m b p node np n_node bp,
        record {
          chain =
              Chain-join (inserted m.word b p n) head ys p (b ∷ zs) head
                (Chain-before m.word head ys p n b hp py n_head n_far n_ys far.0 bp by before)
                (Chain-inserted m.word p zs head b sz.0 sz.1 (inr ph) hz bp far.0 bz behind);
          spread = (
            All-append (Far head) ys (p ∷ b ∷ zs) hy (hp, (Far-sym b head far.0, hz)),
            Spread-join ys (p ∷ b ∷ zs) sy ((Far-sym b p bp, sz.0), (bz, sz.1))
                (Apart-with ys p (b ∷ zs) py (Apart-with ys b zs by ay)),
          );
          nodes = (r.nodes.0, All-append (IsNode m.memory) ys (p ∷ b ∷ zs) ny (np, (node, nz)));
        },
        record {
          same_memory = refl;
          same_words = λ q (cb, (ch, cs)).
              let (cy, cp, cz) = All-split (Clear q) ys p zs cs in
              let cn : Clear q n = subst (Clear q) (sym e) (next_in-All (Clear q) zs ch cz) in
              ground arith;
        },
      )
