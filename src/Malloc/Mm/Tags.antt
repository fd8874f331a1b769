-- ===== src/Malloc/Mm/Tags.antt =====
-- The reads and writes of headers and footers in malloclab/mm.c, where they stay in memory.
use csapp.Common.{ℕ, ◌+◌, ◌-◌, ◌^◌, ◌≤◌, ◌<◌, ◌≡◌, ◌≢◌, refl, true, arith}
use csapp.Malloc.Word.{Mm, done, load, store, reaches, update, sub32, add32}
use csapp.Malloc.Mm.{block_size, footer, write_footer, set_free, set_allocated, size_at}

-- The state with one word changed.
abbrev pub with_word : Mm → ℕ → ℕ → Mm
with_word m q v = record m { word = update m.word q v }

pub update-same : (w : ℕ → ℕ) (q v : ℕ) → update w q v q ≡ v
update-same w q v = ground arith

pub update-other : (w : ℕ → ℕ) (q v p : ℕ) → p ≢ q → update w q v p ≡ w p
update-other w q v p ne = ground arith

module _ (head : ℕ) where
  pub load-run :
      (m : Mm) (q v : ℕ) → reaches head m.memory q ≡ true → m.word q ≡ v → load head q m ≡ done v m
  unfolding load
  load-run m q v r e = rw (r, e) refl

  pub store-run :
      (m : Mm) (q v : ℕ)
      → reaches head m.memory q ≡ true
      → store head q v m ≡ done tt (with_word m q v)
  unfolding store
  store-run m q v r = rw r refl

  module _ (m : Mm) (b n : ℕ) (r : reaches head m.memory b ≡ true)
      (e : block_size (m.word b) ≡ n) where
    pub size_at-run : size_at head b m ≡ done n m
    unfolding size_at
    size_at-run = rw (load-run m b (m.word b) r refl, e) refl

    pub footer-run : 4 ≤ n → b + n < 2 ^ 32 → footer head b m ≡ done (b + n - 4) m
    unfolding footer
    footer-run h l =
        let f : sub32 (add32 b n) 4 ≡ b + n - 4 = omega arith in
        rw (load-run m b (m.word b) r refl, e, f) refl

    pub write_footer-run :
        4 ≤ n
        → b + n < 2 ^ 32
        → reaches head m.memory (b + n - 4) ≡ true
        → write_footer head b m ≡ done tt (with_word m (b + n - 4) n)
    unfolding write_footer
    write_footer-run h l q =
        rw (load-run m b (m.word b) r refl, footer-run h l, e, store-run m (b + n - 4) n q) refl

    pub set_free-run : set_free head b m ≡ done tt (with_word m b n)
    unfolding set_free
    set_free-run = rw (load-run m b (m.word b) r refl, e, store-run m b n r) refl

    pub set_allocated-run : set_allocated head b m ≡ done tt (with_word m b (n + 1))
    unfolding set_allocated
    set_allocated-run = rw (load-run m b (m.word b) r refl, e, store-run m b (n + 1) r) refl
