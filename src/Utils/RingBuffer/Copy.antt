-- ===== src/Utils/RingBuffer/Copy.antt =====
-- The copy loops of utils/ringbuffer.c move a slice, inside their arrays and with fuel to spare.
use kernelpanic.Common.{
  ℕ, zero, suc, ◌+◌, ◌^◌, ◌≤◌, ◌<◌, ◌≡◌, refl, ap, ap₂, ◌∙◌, ◌⊎◌, some, List, ◌∷◌, arith, length,
  get_or, set, length-set, get_or-set_self,
}
use kernelpanic.Utils.RingBuffer.{copy_out, copy_in, add_size}
use kernelpanic.Utils.RingBuffer.Slice.{slice, slice-set}

pub copy_out-slice :
    (f : ℕ) (b : List ℕ) (cur end k : ℕ)
    → end ≡ cur + k
    → end ≤ length b
    → length b ≤ 2 ^ 63
    → k < f
    → copy_out f b cur end ≡ some (slice b cur k)
unfolding copy_out
copy_out-slice zero b cur end k e h s l = absurd (omega arith)
copy_out-slice (suc f) b cur end zero e h s l = ground arith
copy_out-slice (suc f) b cur end (suc k) e h s l =
    let next : add_size cur 1 ≡ cur + 1 = omega arith in
    ground (arith, next, copy_out-slice f b (cur + 1) end k)

-- What a copy into the array leaves: the slice holds the bytes of `buff` from `index` on, and
-- slices elsewhere are as they were.
pub record CopiedIn (b b' : List ℕ) (cur k : ℕ) (buff : List ℕ) (index : ℕ) : Type 0 where
  pub same_length : length b' ≡ length b
  pub inside : slice b' cur k ≡ slice buff index k
  pub outside : (i n : ℕ) → (i + n ≤ cur) ⊎ (cur + k ≤ i) → slice b' i n ≡ slice b i n

pub copy_in-CopiedIn :
    (f : ℕ) (b : List ℕ) (cur end k : ℕ) (buff : List ℕ) (index : ℕ)
    → end ≡ cur + k
    → end ≤ length b
    → index + k ≤ length buff
    → length b ≤ 2 ^ 63
    → length buff ≤ 2 ^ 63
    → k < f
    → (b' : List ℕ) × (copy_in f b cur end buff index ≡ some (index + k, b'))
      × CopiedIn b b' cur k buff index
unfolding copy_in
copy_in-CopiedIn zero b cur end k buff index e h hb s sb l = absurd (omega arith)
copy_in-CopiedIn (suc f) b cur end zero buff index e h hb s sb l =
    (b, ground arith, record { same_length = refl; inside = refl; outside = λ i n o. refl })
copy_in-CopiedIn (suc f) b cur end (suc k) buff index e h hb s sb l =
    let next : add_size cur 1 ≡ cur + 1 = omega arith in
    let next' : add_size index 1 ≡ index + 1 = omega arith in
    let c = get_or buff index 0 in
    let len : length (set b cur c) ≡ length b = length-set b cur c in
    let (b', done, is) =
      copy_in-CopiedIn f (set b cur c) (cur + 1) end k buff (index + 1) (omega arith) (omega arith)
        (omega arith) (omega arith) sb (omega arith) in
    (
      b',
      ground arith,
      record {
        same_length = is.same_length ∙ len;
        inside =
            ap₂ ◌∷◌
              (ap (λ l. get_or l 0 0) (is.outside cur 1 (omega arith))
                ∙ get_or-set_self b cur c 0 (omega arith))
              is.inside;
        outside = λ i n o. is.outside i n (omega arith) ∙ slice-set b cur c i n (omega arith);
      },
    )
