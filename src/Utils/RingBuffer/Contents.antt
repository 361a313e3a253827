-- ===== src/Utils/RingBuffer/Contents.antt =====
-- The bytes that a ring holds, oldest first, and the invariant of `struct RING_BUFFER`.
use kernelpanic.Common.{
  ℕ, ◌+◌, ◌-◌, ◌^◌, ◌≤◌, ◌<◌, ◌≡◌, true, List, ◌++◌, arith, ltb, if◌then◌else◌, length,
  length-append,
}
use kernelpanic.Utils.RingBuffer.{Ring, is_full}
use kernelpanic.Utils.RingBuffer.Slice.{slice, length-slice}

pub record IsValid (r : Ring) : Type 0 where
  pub storage : r.size ≤ length r.buffer
  pub small : length r.buffer ≤ 2 ^ 62
  pub read_in : r.read_index < r.size
  pub write_in : r.write_index < r.size
  pub empty_at : r.empty ≡ true → r.read_index ≡ r.write_index

-- The lengths of the run from the read index on, and of the run from the start of the storage.
abbrev pub first_run : Ring → ℕ
first_run r =
    if r.empty
    then 0
    else if ltb r.read_index r.write_index
    then r.write_index - r.read_index
    else r.size - r.read_index

abbrev pub second_run : Ring → ℕ
second_run r = if r.empty then 0 else if ltb r.read_index r.write_index then 0 else r.write_index

abbrev pub contents : Ring → List ℕ
contents r = slice r.buffer r.read_index (first_run r) ++ slice r.buffer 0 (second_run r)

-- The number of bytes held.
abbrev pub count : Ring → ℕ
count r = first_run r + second_run r

pub length-contents : (r : Ring) → length (contents r) ≡ count r
length-contents r = omega (
  arith,
  length-append (slice r.buffer r.read_index (first_run r)) (slice r.buffer 0 (second_run r)),
  length-slice r.buffer r.read_index (first_run r),
  length-slice r.buffer 0 (second_run r),
)

pub count-le-size : {r : Ring} → IsValid r → count r ≤ r.size
count-le-size v = ground arith

-- A ring is full exactly when it holds `Size` bytes, and empty exactly when it holds none.
pub is_full_iff :
    {r : Ring}
    → IsValid r
    → (is_full r ≡ true → count r ≡ r.size) × (count r ≡ r.size → is_full r ≡ true)
unfolding is_full
is_full_iff v = ground arith

pub count-zero :
    {r : Ring} → IsValid r → (r.empty ≡ true → count r ≡ 0) × (count r ≡ 0 → r.empty ≡ true)
count-zero v = ground arith
