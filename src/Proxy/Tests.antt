-- ===== src/Proxy/Tests.antt =====
-- The connection buffer and the cache of proxy.c on small runs, and the theorems at inputs that
-- meet their hypotheses.
use csapp.Common.{
  ℕ, ◌≤◌, ◌⊎◌, ◌≡◌, zero, suc, refl, sym, ap, false, none, some, List, [], ◌∷◌, ◌++◌, length,
  replicate, get_elem?, arith,
}
use mathlib.Core.Option.{some-injective}
use csapp.Proxy.Buffer.{
  Buffer, buffer_size, init_buffer, reserve, put, post_item, Step, reserves, puts, posts_item,
}
use csapp.Proxy.Buffer.Fifo.{Run, begin, onward, contents, Run-fifo, Run_open}
use csapp.Proxy.Store.{CacheLine, Cache, cache_lines, cache_init, find_cache_hit, write_cache}
use csapp.Proxy.Store.Written.{Stamped, Written, write_cache-Written}
use csapp.Proxy.Store.Served.{write_all, cache_init-write_all}
use csapp.Proxy.Locks.{Lock, Step as LockStep, unlocked, start_write, starts_write}
use csapp.Proxy.Locks.Exclusion.{at_start, onward as and_on, Reach_exclusive}

abbrev blank : ℕ → ℕ
blank i = 0

abbrev one_put : Buffer
one_put = post_item (put 7 (reserve (init_buffer blank)))

-- One connection is put.
one_put-Run : Run blank (([] ++ []) ++ (7 ∷ []) ++ []) (([] ++ []) ++ [] ++ []) one_put
unfolding reserve put post_item
one_put-Run =
    onward (onward (onward begin (reserves (omega arith))) (puts 7 (omega arith)))
      (posts_item (omega arith))

Run-fifo_example : (7 ∷ [] ≡ [] ++ contents one_put) × (length (contents one_put) ≤ buffer_size)
Run-fifo_example = Run-fifo one_put-Run

Run_open_example : (ins outs : List ℕ) × (b' : Buffer) × Step one_put ins outs b'
Run_open_example = Run_open one_put-Run

abbrev unused : CacheLine
unused = record { buf = blank; url = []; size = 0; valid = false; timestamp = 0 }

abbrev empty_cache : Cache
empty_cache = record { line = replicate cache_lines unused; current_time = 0 }

abbrev home : List ℕ
home = b'/' ∷ b'a' ∷ []

abbrev page : List ℕ
page = b'h' ∷ b'i' ∷ []

never_valid :
    (n i : ℕ) (l : CacheLine) → get_elem? (replicate n unused) i ≡ some l → l.valid ≡ false
never_valid zero i l e = absurd (cc e)
never_valid (suc n) zero l e = sym (ap (λ (y : CacheLine). y.valid) (some-injective _ l e))
never_valid (suc n) (suc i) l e = never_valid n i l e

empty_cache-Stamped : Stamped empty_cache
empty_cache-Stamped = record {
  size = refl;
  past = λ i l g v. absurd (ground (arith, never_valid cache_lines i l g));
  distinct = λ i j l m g k v u e. absurd (ground (arith, never_valid cache_lines i l g));
}

write_cache-Written_example :
    (c' : Cache) × (write_cache page home 2 empty_cache ≡ some c')
    × Written empty_cache page home 2 c'
write_cache-Written_example =
    write_cache-Written empty_cache empty_cache-Stamped page home 2 (omega arith) (omega arith)
      (omega arith)

home_missing : find_cache_hit home empty_cache ≡ none
unfolding find_cache_hit
home_missing = refl

cache_init-write_all_example :
    (c' : Cache) × (write_all ((page, home, 2) ∷ (page, page, 102401) ∷ []) (cache_init empty_cache)
      ≡ some c')
    × Stamped c'
cache_init-write_all_example =
    cache_init-write_all empty_cache ((page, home, 2) ∷ (page, page, 102401) ∷ []) (omega arith)
      refl

-- A writer holds the lock.
abbrev one_writer : Lock
one_writer = start_write unlocked

Reach_exclusive_example :
    (one_writer.writing ≤ 1)
    × ((one_writer.writing ≡ 0) ⊎ (one_writer.reading ≡ 0))
    × ((l' : Lock) × LockStep one_writer l')
Reach_exclusive_example = Reach_exclusive (and_on at_start (starts_write (omega arith)))
