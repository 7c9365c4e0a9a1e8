-- ===== src/RwLock.antt =====
-- `ushared_mutex` of core/usync.cpp and core/usync.h, the implementation that the header selects: two
-- atomic counters, two semaphores and a mutex for the writers. Each atomic access is one function;
-- an `int` is its 32-bit pattern. A semaphore is its number of permits.
pub mod World
pub mod Writers
pub mod Readers
pub mod Safety
mod Tests
use uco.Prelude.{ℕ, ◌+◌, ◌-◌, ◌%◌, ◌^◌, Bool, true, false, not, ◌==◌, if◌then◌else◌}
use uco.Prelude.Word.{int_lt}

pub record RwLock : Type 0 where
  pub readers : ℕ
  pub reader_wait : ℕ
  pub reader_sema : ℕ
  pub writer_sema : ℕ

-- The constructor.
unfoldable pub new_lock : RwLock
new_lock = record { readers = 0; reader_wait = 0; reader_sema = 0; writer_sema = 0 }

-- `kMaxReaders`, and its negation.
abbrev pub max_readers : ℕ
max_readers = 2 ^ 30

abbrev pub minus_max : ℕ
minus_max = 2 ^ 32 - 2 ^ 30

unfoldable pub int_add : ℕ → ℕ → ℕ
int_add a b = (a + b) % 2 ^ 32

unfoldable pub int_neg : ℕ → ℕ
int_neg a = (2 ^ 32 - a) % 2 ^ 32

-- `lock`, from `w_.lock()` on: the sign is put up; the readers that were there come with it.
unfoldable pub announce : RwLock → RwLock × ℕ
announce m = (record m { readers = int_add m.readers minus_max }, m.readers)

-- `reader_wait_.fetch_add(r) != -r`: the writer has to wait.
unfoldable pub count_readers : ℕ → RwLock → RwLock × Bool
count_readers r m =
    (record m { reader_wait = int_add m.reader_wait r }, not (m.reader_wait == int_neg r))

-- `try_lock`, with `w_` taken: the exchange of 0.
unfoldable pub try_announce : RwLock → RwLock × Bool
try_announce m = if m.readers == 0 then (record m { readers = minus_max }, true) else (m, false)

-- `unlock`: the sign is taken down; the number of readers to release comes with it.
unfoldable pub withdraw : RwLock → RwLock × ℕ
withdraw m = (record m { readers = int_add m.readers max_readers }, int_add m.readers max_readers)

-- `lock_shared`: the reader has to wait.
unfoldable pub enter_shared : RwLock → RwLock × Bool
enter_shared m = (record m { readers = int_add m.readers 1 }, int_lt m.readers 0)

-- `try_lock_shared`: its exchange, once the counter has not changed since it was read.
unfoldable pub try_enter_shared : RwLock → RwLock × Bool
try_enter_shared m =
    if int_lt m.readers 0 then (m, false) else (record m { readers = int_add m.readers 1 }, true)

-- What `unlock_shared` does after its first access.
pub data Leave : Type 0 where
  left fatal counting : Leave

unfoldable pub leave_shared : RwLock → RwLock × Leave
leave_shared m = (
  record m { readers = int_add m.readers (2 ^ 32 - 1) },
  if int_lt 0 m.readers then left else if m.readers == 0 then fatal else counting,
)

-- `reader_wait_.fetch_sub(1) == 1`: the last reader, which signals the writer.
unfoldable pub depart : RwLock → RwLock × Bool
depart m = (record m { reader_wait = int_add m.reader_wait (2 ^ 32 - 1) }, m.reader_wait == 1)
