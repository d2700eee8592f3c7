-- ===== src/Server/Spool.antt =====
-- The budget of bytes that uploads may spool on the local disk at once: `SpoolBudget` of
-- src/server.rs. The semaphore is a library's: a record of operations and its documented laws.
pub mod Bounds
use mr_boxington_cache.Prelude.{
  ℕ, ◌+◌, ◌-◌, ◌*◌, ◌/◌, ◌≤◌, ◌<◌, min, ◌≡◌, Bool, true, false, Option, none, some, Result, ok, err,
  leb, ltb, if◌then◌else◌,
}
use mr_boxington_cache.Prelude.Bytes.{text}
use mr_boxington_cache.Server.Errors.{ApiError, too_large, unavailable}

-- `Semaphore::new`, `available_permits`, `try_acquire_many_owned`, and the drop of a permit.
pub record Semaphores (S : Type 0) : Type 0 where
  pub max_permits : ℕ
  pub create : ℕ → S
  pub available : S → ℕ
  pub try_acquire_many : ℕ → S → Option S
  pub release : ℕ → S → S

pub record IsSemaphore {S : Type 0} (o : Semaphores S) : Type 0 where
  pub available-create : (n : ℕ) → n ≤ o.max_permits → o.available (o.create n) ≡ n
  pub acquired :
      (n : ℕ) (s s' : S) → o.try_acquire_many n s ≡ some s' → o.available s' + n ≡ o.available s
  pub refused : (n : ℕ) (s : S) → o.try_acquire_many n s ≡ none → o.available s < n
  pub available-release : (n : ℕ) (s : S) → o.available (o.release n s) ≡ o.available s + n

-- `u64::div_ceil(1024)`
abbrev pub kibibytes : ℕ → ℕ
kibibytes bytes = (bytes + 1023) / 1024

-- `usize` and `u32`
abbrev pub usize_max : ℕ
usize_max = 18446744073709551615

abbrev pub u32_max : ℕ
u32_max = 4294967295

-- How many permits the semaphore of a budget has.
abbrev pub permits_of : ℕ → ℕ → ℕ
permits_of max_permits max_bytes =
    min (if leb (kibibytes max_bytes) usize_max then kibibytes max_bytes else usize_max) max_permits

-- No budget when `max_bytes` is zero.
unfoldable pub new : {S : Type 0} → Semaphores S → ℕ → Option S
new o max_bytes =
    if ltb 0 max_bytes then some (o.create (permits_of o.max_permits max_bytes)) else none

reserve_permits : {S : Type 0} → Semaphores S → ℕ → S → Result ApiError (Option ℕ) × Option S
reserve_permits o permits s = elim (o.try_acquire_many permits s) [
  | none ↦ (err (unavailable (text "upload spool is full, retry later")), some s)
  | some s' ↦ (ok (some permits), some s')
]

-- The permit that it returns holds that many of the semaphore's until `drop`.
unfoldable pub reserve :
    {S : Type 0} → Semaphores S → ℕ → Option S → Result ApiError (Option ℕ) × Option S
unfolding reserve_permits
reserve o bytes none = (ok none, none)
reserve o bytes (some s) =
    if leb (kibibytes bytes) u32_max
    then reserve_permits o (kibibytes bytes) s
    else (err (too_large (text "blob exceeds the upload spool")), some s)

unfoldable pub drop : {S : Type 0} → Semaphores S → Option ℕ → Option S → Option S
drop o (some permits) (some s) = some (o.release permits s)
drop o _ budget = budget
