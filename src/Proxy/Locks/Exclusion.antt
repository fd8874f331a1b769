-- ===== src/Proxy/Locks/Exclusion.antt =====
-- Readers and writers of the cache of proxy.c exclude each other, and never block for ever.
use native.Mathlib.Decide.{dec_lt, ℕ_discrete}
use csapp.Common.{ℕ, ◌+◌, ◌≤◌, ◌≡◌, ◌⊎◌, refl, inl, inr, ◌==◌, if◌then◌else◌, arith}
use csapp.Proxy.Locks.{
  Lock, unlocked, Step, enters, admits_first, admits, leaves, releases_last, releases, starts_write,
  ends_write, enter, admit_first, admit, release_last, release, end_write,
}

pub data Reach : Lock → Type 0 where
  at_start : Reach unlocked
  onward : {l l' : Lock} → Reach l → Step l l' → Reach l'

-- Whether the readers hold `writer`.
abbrev readers_hold : Lock → ℕ
readers_hold l = if l.reading + l.leaving == 0 then 0 else 1

record Balanced (l : Lock) : Type 0 where
  pub one_mutex : l.mutex + l.entering + l.leaving ≡ 1
  pub counted : l.readcnt ≡ l.reading + l.entering
  pub one_writer : l.writer + l.writing + readers_hold l ≡ 1

Step-Balanced : {l l' : Lock} → Step l l' → Balanced l → Balanced l'
Step-Balanced (enters h) b = record {
  one_mutex = omega (arith, b.one_mutex);
  counted = omega (arith, b.counted);
  one_writer = b.one_writer;
}
Step-Balanced (admits_first h e w) b = record {
  one_mutex = omega (arith, b.one_mutex);
  counted = omega (arith, b.counted);
  one_writer = ground (arith, b.one_writer, b.counted, b.one_mutex);
}
Step-Balanced (admits h e) b = record {
  one_mutex = omega (arith, b.one_mutex);
  counted = omega (arith, b.counted);
  one_writer = ground (arith, b.one_writer, b.counted, b.one_mutex);
}
Step-Balanced (leaves h m) b = record {
  one_mutex = omega (arith, b.one_mutex);
  counted = omega (arith, b.counted);
  one_writer = ground (arith, b.one_writer, b.counted, b.one_mutex);
}
Step-Balanced (releases_last h e) b = record {
  one_mutex = omega (arith, b.one_mutex);
  counted = omega (arith, b.counted);
  one_writer = ground (arith, b.one_writer, b.counted, b.one_mutex);
}
Step-Balanced (releases h e) b = record {
  one_mutex = omega (arith, b.one_mutex);
  counted = omega (arith, b.counted);
  one_writer = ground (arith, b.one_writer, b.counted, b.one_mutex);
}
Step-Balanced (starts_write h) b = record {
  one_mutex = b.one_mutex;
  counted = b.counted;
  one_writer = ground (arith, b.one_writer);
}
Step-Balanced (ends_write h) b = record {
  one_mutex = b.one_mutex;
  counted = b.counted;
  one_writer = ground (arith, b.one_writer);
}

Reach-Balanced : {l : Lock} → Reach l → Balanced l
Reach-Balanced at_start = record { one_mutex = refl; counted = refl; one_writer = refl }
Reach-Balanced (onward r s) = Step-Balanced s (Reach-Balanced r)

writer_or_readers : {l : Lock} → Balanced l → (l.writing ≤ 1) × ((l.writing ≡ 0) ⊎ (l.reading ≡ 0))
writer_or_readers {l} b = elim (ℕ_discrete l.writing 0) [
  | yes e ↦ (omega arith, inl e)
  | no n ↦ (ground (arith, b.one_writer), inr (ground (arith, b.one_writer)))
]

-- A thread that holds a semaphore can always go on, so some thread has a step.
some_step : {l : Lock} → Balanced l → (l' : Lock) × Step l l'
some_step {l} b = elim (dec_lt 0 l.mutex) [
  | yes h ↦ (enter l, enters h)
  | no h ↦ elim (dec_lt 0 l.leaving) [
    | yes q ↦ elim (ℕ_discrete l.readcnt 0) [
      | yes e ↦ (release_last l, releases_last q e)
      | no e ↦ (release l, releases q e)
    ]
    | no q ↦ elim (ℕ_discrete l.readcnt 1) [
      | no e ↦ (admit l, admits (omega (arith, b.one_mutex)) e)
      | yes e ↦ elim (dec_lt 0 l.writer) [
        | yes w ↦ (admit_first l, admits_first (omega (arith, b.one_mutex)) e w)
        | no w ↦ (end_write l, ends_write (ground (arith, b.one_writer, b.counted, b.one_mutex)))
      ]
    ]
  ]
]

-- In every state that readers and writers of the cache reach, one thread at most writes, and none
-- reads while it does; and there is no deadlock: some thread has a step.
pub Reach_exclusive :
    {l : Lock}
    → Reach l
    → (l.writing ≤ 1) × ((l.writing ≡ 0) ⊎ (l.reading ≡ 0)) × ((l' : Lock) × Step l l')
Reach_exclusive r =
    let b = Reach-Balanced r in
    let (one, either) = writer_or_readers b in (one, either, some_step b)
