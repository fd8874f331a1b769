-- ===== src/Proxy/Locks.antt =====
-- proxylab/proxy.c: the lock of the cache that `doit` takes to read a line and `write_cache` to
-- write one, as the steps of the threads that run them. The fields after `readcnt` count the
-- threads at a point: in the section under `mutex` before the read (`entering`) or after it
-- (`leaving`), at the read (`reading`), and at the write (`writing`).
pub mod Exclusion
use csapp.Common.{ℕ, ◌+◌, ◌-◌, ◌<◌, ◌≡◌, ◌≢◌}

pub record Lock : Type 0 where
  pub mutex : ℕ
  pub writer : ℕ
  pub readcnt : ℕ
  pub entering : ℕ
  pub reading : ℕ
  pub leaving : ℕ
  pub writing : ℕ

-- The semaphores as `cache_init` leaves them.
abbrev pub unlocked : Lock
unlocked = record {
  mutex = 1;
  writer = 1;
  readcnt = 0;
  entering = 0;
  reading = 0;
  leaving = 0;
  writing = 0;
}

-- `P(&mutex)` and `readcnt++`.
abbrev pub enter : Lock → Lock
enter l = record l { mutex = l.mutex - 1; readcnt = l.readcnt + 1; entering = l.entering + 1 }

-- `P(&writer)` of the first reader, and `V(&mutex)`.
abbrev pub admit_first : Lock → Lock
admit_first l = record l {
  writer = l.writer - 1;
  mutex = l.mutex + 1;
  entering = l.entering - 1;
  reading = l.reading + 1;
}

-- `V(&mutex)` of a reader that is not the first.
abbrev pub admit : Lock → Lock
admit l = record l { mutex = l.mutex + 1; entering = l.entering - 1; reading = l.reading + 1 }

-- `P(&mutex)` and `readcnt--`, after the read.
abbrev pub leave : Lock → Lock
leave l = record l {
  mutex = l.mutex - 1;
  readcnt = l.readcnt - 1;
  reading = l.reading - 1;
  leaving = l.leaving + 1;
}

-- `V(&writer)` of the last reader, and `V(&mutex)`.
abbrev pub release_last : Lock → Lock
release_last l = record l { writer = l.writer + 1; mutex = l.mutex + 1; leaving = l.leaving - 1 }

abbrev pub release : Lock → Lock
release l = record l { mutex = l.mutex + 1; leaving = l.leaving - 1 }

-- `P(&writer)` and `V(&writer)` of `write_cache`.
abbrev pub start_write : Lock → Lock
start_write l = record l { writer = l.writer - 1; writing = l.writing + 1 }

abbrev pub end_write : Lock → Lock
end_write l = record l { writer = l.writer + 1; writing = l.writing - 1 }

pub data Step (l : Lock) : Lock → Type 0 where
  enters : 0 < l.mutex → Step l (enter l)
  admits_first : 0 < l.entering → l.readcnt ≡ 1 → 0 < l.writer → Step l (admit_first l)
  admits : 0 < l.entering → l.readcnt ≢ 1 → Step l (admit l)
  leaves : 0 < l.reading → 0 < l.mutex → Step l (leave l)
  releases_last : 0 < l.leaving → l.readcnt ≡ 0 → Step l (release_last l)
  releases : 0 < l.leaving → l.readcnt ≢ 0 → Step l (release l)
  starts_write : 0 < l.writer → Step l (start_write l)
  ends_write : 0 < l.writing → Step l (end_write l)
