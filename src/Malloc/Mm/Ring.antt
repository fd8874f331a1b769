-- ===== src/Malloc/Mm/Ring.antt =====
-- The circular list of malloclab/mm.c at the level of its words: `insert_to_list` and
-- `remove_from_list` as functions of the words, and chains of links between blocks.
use mathlib.Core.Path.{subst}
use csapp.Common.{
  ℕ, ◌+◌, ◌≤◌, ◌≡◌, ◌≢◌, ◌⊎◌, sym, List, [], ◌∷◌, ◌++◌, All, All-map, All-append, arith,
}
use csapp.Malloc.Word.{update}

-- `b->next` is c and `c->prev` is b.
abbrev pub Links : (ℕ → ℕ) → ℕ → ℕ → Type 0
Links w b c = (w (b + 8) ≡ c) × (w (c + 4) ≡ b)

-- From a the links lead through the blocks xs to c, and back.
unfoldable pub Chain : (ℕ → ℕ) → ℕ → List ℕ → ℕ → Type 0
Chain w a [] c = Links w a c
Chain w a (x ∷ xs) c = Links w a x × Chain w x xs c

-- The headers of two blocks share no byte.
abbrev pub Far : ℕ → ℕ → Type 0
Far a b = (a + 12 ≤ b) ⊎ (b + 12 ≤ a)

unfoldable pub Spread : List ℕ → Type 0
Spread [] = Unit
Spread (x ∷ xs) = All (Far x) xs × Spread xs

-- The word q is no link of the block x.
abbrev pub Clear : ℕ → ℕ → Type 0
Clear q x = (q ≢ x + 4) × (q ≢ x + 8)

-- The words after `insert_to_list` of b behind p, where n is `p->next`.
abbrev pub inserted : (ℕ → ℕ) → ℕ → ℕ → ℕ → (ℕ → ℕ)
inserted w b p n = update (update (update (update w (b + 4) p) (b + 8) n) (n + 4) b) (p + 8) b

-- The words after `remove_from_list` of a block between p and n.
abbrev pub removed : (ℕ → ℕ) → ℕ → ℕ → (ℕ → ℕ)
removed w p n = update (update w (p + 8) n) (n + 4) p

pub Chain-update :
    (w : ℕ → ℕ) (a : ℕ) (xs : List ℕ) (c q v : ℕ)
    → q ≢ a + 8
    → All (Clear q) xs
    → q ≢ c + 4
    → Chain w a xs c
    → Chain (update w q v) a xs c
unfolding Chain
Chain-update w a [] c q v h k l ch = ground arith
Chain-update w a (x ∷ xs) c q v h k l ch =
    (ground (arith, ch.0.0, ch.0.1, k.0.0), Chain-update w x xs c q v (λ e. k.0.1 e) k.1 l ch.1)

Clear-Far4 : (b : ℕ) (xs : List ℕ) → All (Far b) xs → All (Clear (b + 4)) xs
Clear-Far4 b xs h = All-map (Far b) (Clear (b + 4)) xs (λ x f. (omega arith, omega arith)) h

Clear-Far8 : (b : ℕ) (xs : List ℕ) → All (Far b) xs → All (Clear (b + 8)) xs
Clear-Far8 b xs h = All-map (Far b) (Clear (b + 8)) xs (λ x f. (omega arith, omega arith)) h

-- A block b put behind p, in front of the blocks zs.
pub Chain-inserted :
    (w : ℕ → ℕ) (p : ℕ) (zs : List ℕ) (c b : ℕ)
    → All (Far p) zs
    → Spread zs
    → (p ≡ c) ⊎ Far p c
    → All (Far c) zs
    → Far b p
    → Far b c
    → All (Far b) zs
    → Chain w p zs c
    → Chain (inserted w b p (w (p + 8))) p (b ∷ zs) c
unfolding Chain Spread
Chain-inserted w p [] c b pz sp pc cz bp bc bz ch =
    subst (λ (n : ℕ). Chain (inserted w b p n) p (b ∷ []) c) (sym ch.0) (ground arith)
Chain-inserted w p (z ∷ zs) c b pz sp pc cz bp bc bz ch =
    subst (λ (n : ℕ). Chain (inserted w b p n) p (b ∷ z ∷ zs) c) (sym ch.0.0)
      (
        (ground arith, ground arith),
        (
          (ground arith, ground arith),
          Chain-update (update (update (update w (b + 4) p) (b + 8) z) (z + 4) b) z zs c (p + 8) b
              (omega arith) (Clear-Far8 p zs pz.1) (omega arith)
              (Chain-update (update (update w (b + 4) p) (b + 8) z) z zs c (z + 4) b (omega arith)
                (Clear-Far4 z zs sp.0) (omega arith)
                (Chain-update (update w (b + 4) p) z zs c (b + 8) z (omega arith)
                  (Clear-Far8 b zs bz.1) (omega arith)
                  (Chain-update w z zs c (b + 4) p (omega arith) (Clear-Far4 b zs bz.1)
                    (omega arith) ch.1))),
        ),
      )

-- The chain in front of p stays.
pub Chain-before :
    (w : ℕ → ℕ) (a : ℕ) (ys : List ℕ) (p n b : ℕ)
    → Far a p
    → All (Far p) ys
    → (n ≡ a) ⊎ Far n a
    → Far n p
    → All (Far n) ys
    → Far b a
    → Far b p
    → All (Far b) ys
    → Chain w a ys p
    → Chain (inserted w b p n) a ys p
Chain-before w a ys p n b ap py na np ny ba bp bz ch =
    Chain-update (update (update (update w (b + 4) p) (b + 8) n) (n + 4) b) a ys p (p + 8) b
      (omega arith) (Clear-Far8 p ys py) (omega arith)
      (Chain-update (update (update w (b + 4) p) (b + 8) n) a ys p (n + 4) b (omega arith)
        (Clear-Far4 n ys ny) (omega arith)
        (Chain-update (update w (b + 4) p) a ys p (b + 8) n (omega arith) (Clear-Far8 b ys bz)
          (omega arith)
          (Chain-update w a ys p (b + 4) p (omega arith) (Clear-Far4 b ys bz) (omega arith) ch)))

-- The block b taken out between p and the blocks zs.
pub Chain-removed :
    (w : ℕ → ℕ) (p : ℕ) (zs : List ℕ) (c b : ℕ)
    → All (Far p) zs
    → Spread zs
    → (p ≡ c) ⊎ Far p c
    → All (Far c) zs
    → Chain w p (b ∷ zs) c
    → Chain (removed w p (w (b + 8))) p zs c
unfolding Chain Spread
Chain-removed w p [] c b pz sp pc cz (l, ch) =
    subst (λ (n : ℕ). Chain (removed w p n) p [] c) (sym ch.0) (ground arith)
Chain-removed w p (z ∷ zs) c b pz sp pc cz (l, ch) =
    subst (λ (n : ℕ). Chain (removed w p n) p (z ∷ zs) c) (sym ch.0.0)
      (
        (ground arith, ground arith),
        Chain-update (update w (p + 8) z) z zs c (z + 4) p (omega arith) (Clear-Far4 z zs sp.0)
            (omega arith)
            (Chain-update w z zs c (p + 8) z (omega arith) (Clear-Far8 p zs pz.1) (omega arith)
              ch.1),
      )

pub Chain-before-removed :
    (w : ℕ → ℕ) (a : ℕ) (ys : List ℕ) (p n : ℕ)
    → Far a p
    → All (Far p) ys
    → (n ≡ a) ⊎ Far n a
    → Far n p
    → All (Far n) ys
    → Chain w a ys p
    → Chain (removed w p n) a ys p
Chain-before-removed w a ys p n ap py na np ny ch =
    Chain-update (update w (p + 8) n) a ys p (n + 4) p (omega arith) (Clear-Far4 n ys ny)
      (omega arith)
      (Chain-update w a ys p (p + 8) n (omega arith) (Clear-Far8 p ys py) (omega arith) ch)

-- A chain through p is a chain to p and one from p.
pub Chain-split :
    (w : ℕ → ℕ) (a : ℕ) (ys : List ℕ) (p : ℕ) (zs : List ℕ) (c : ℕ)
    → Chain w a (ys ++ (p ∷ zs)) c
    → Chain w a ys p × Chain w p zs c
unfolding Chain
Chain-split w a [] p zs c ch = ch
Chain-split w a (y ∷ ys) p zs c (l, ch) = let (h, t) = Chain-split w y ys p zs c ch in ((l, h), t)

pub Chain-join :
    (w : ℕ → ℕ) (a : ℕ) (ys : List ℕ) (p : ℕ) (zs : List ℕ) (c : ℕ)
    → Chain w a ys p
    → Chain w p zs c
    → Chain w a (ys ++ (p ∷ zs)) c
unfolding Chain
Chain-join w a [] p zs c h t = (h, t)
Chain-join w a (y ∷ ys) p zs c (l, h) t = (l, Chain-join w y ys p zs c h t)

pub Far-sym : (a b : ℕ) → Far a b → Far b a
Far-sym a b f = omega arith

-- Every block of ys is far from every block of zs.
unfoldable pub Apart : List ℕ → List ℕ → Type 0
Apart [] zs = Unit
Apart (y ∷ ys) zs = All (Far y) zs × Apart ys zs

pub Spread-split : (ys zs : List ℕ) → Spread (ys ++ zs) → Spread ys × Spread zs × Apart ys zs
unfolding Spread Apart
Spread-split [] zs s = (tt, s, tt)
Spread-split (y ∷ ys) zs (f, s) =
    let (a, b, c) = Spread-split ys zs s in ((All-left ys zs f, a), b, (All-right ys zs f, c))
  where
    All-left : (ys zs : List ℕ) → All (Far y) (ys ++ zs) → All (Far y) ys
    All-left [] zs h = tt
    All-left (x ∷ xs) zs (h, r) = (h, All-left xs zs r)

    All-right : (ys zs : List ℕ) → All (Far y) (ys ++ zs) → All (Far y) zs
    All-right [] zs h = h
    All-right (x ∷ xs) zs (h, r) = All-right xs zs r

pub Spread-join : (ys zs : List ℕ) → Spread ys → Spread zs → Apart ys zs → Spread (ys ++ zs)
unfolding Spread Apart
Spread-join [] zs a b c = b
Spread-join (y ∷ ys) zs (f, a) b (g, c) = (All-append (Far y) ys zs f g, Spread-join ys zs a b c)

-- What is apart from z ∷ zs is apart from z, and from zs.
pub Apart-cons :
    (ys : List ℕ) (z : ℕ) (zs : List ℕ) → Apart ys (z ∷ zs) → All (Far z) ys × Apart ys zs
unfolding Apart
Apart-cons [] z zs h = (tt, tt)
Apart-cons (y ∷ ys) z zs ((f, g), h) =
    let (a, b) = Apart-cons ys z zs h in ((Far-sym y z f, a), (g, b))

pub Apart-with :
    (ys : List ℕ) (z : ℕ) (zs : List ℕ) → All (Far z) ys → Apart ys zs → Apart ys (z ∷ zs)
unfolding Apart
Apart-with [] z zs a h = tt
Apart-with (y ∷ ys) z zs (f, a) (g, h) = ((Far-sym z y f, g), Apart-with ys z zs a h)
