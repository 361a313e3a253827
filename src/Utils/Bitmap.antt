-- ===== src/Utils/Bitmap.antt =====
-- utils/bitmap.c and utils/bitmap.h: a buffer of words as the sequence of its bits. The bit at an
-- index is bit BitmapOffset(index) of the word BitmapIndex(index), so the bits of word i are those
-- from i * word_size on.
pub mod Flags
mod Tests
use kernelpanic.Common.{
  ℕ, zero, suc, ◌+◌, ◌-◌, ◌*◌, ◌/◌, ◌%◌, ◌^◌, ◌≤◌, ◌<◌, min, ◌≡◌, refl, sym, ap, ap₂, ◌∙◌, subst,
  ◌≢◌, ◌⊎◌, inl, inr, Bool, true, false, not, ◌&&◌, ◌||◌, Option, none, some, List, [], ◌∷◌, ◌++◌,
  append-nil, append_assoc, arith, ltb, leb, ◌==◌, if◌then◌else◌, Bool-cases, ltb→lt, ltb→le,
  eqb→eq, eqb→ne, eqb_of_ne, eqb_refl, length, get_or, set, take, drop, replicate, length-append,
  length-set, length-replicate, length-take, length-drop, take-append-drop, get_or-set_self,
  get_or-set_ne, length-snoc, prefix_of_append, All, All-append, All-front, All-map, All-zip,
  Distinct, Distinct-snoc,
}

-- `BitmapWordSize`, for an int of 32 bits.
abbrev pub word_size : ℕ
word_size = 32

-- `BitmapSize`: the words needed for some number of bits.
abbrev pub size : ℕ → ℕ
size elements = elements / word_size + (if elements % word_size == 0 then 0 else 1)

-- `BitmapGet`
abbrev pub get : List Bool → ℕ → Bool
get map index = get_or map index false

-- `BitmapOn`
abbrev pub on : List Bool → ℕ → List Bool
on map index = set map index true

-- `BitmapOff`
abbrev pub off : List Bool → ℕ → List Bool
off map index = set map index false

-- The bits of `BitmapClear`, from a bit on: all of the first words.
abbrev pub clear_bits : ℕ → List Bool → List Bool
clear_bits zero map = map
clear_bits (suc n) [] = []
clear_bits (suc n) (b ∷ map) = false ∷ clear_bits n map

-- `BitmapClear`
unfoldable pub clear : List Bool → (num_bits : ℕ) → List Bool
clear map num_bits = clear_bits (size num_bits * word_size) map

-- `(INDEX) -1` and `(INDEX) -2`, for a size_t of 64 bits.
abbrev pub minus_one : ℕ
minus_one = 2 ^ 64 - 1

abbrev pub minus_two : ℕ
minus_two = 2 ^ 64 - 2

-- `map[index] != 0`: one of the bits from the first bit of the word on is set.
unfoldable pub word_is_set : (bits first : ℕ) → List Bool → Bool
word_is_set zero first map = false
word_is_set (suc bits) first map = get map first || word_is_set bits (first + 1) map

-- `BitmapGetFirstFlag`: the loop over the offsets, on the turns left; none if it ends.
unfoldable pub offset_loop : (turns index offset : ℕ) → List Bool → Option ℕ
offset_loop zero index offset map = none
offset_loop (suc turns) index offset map =
    let rest = offset_loop turns index (offset + 1) map in
    if get map (index * word_size + offset) then some (index * word_size + offset) else rest

-- `BitmapGetFirstFlag`: the loop over the words, on the turns left.
unfoldable pub word_loop : (turns index : ℕ) → List Bool → ℕ
unfolding word_is_set offset_loop
word_loop zero index map = minus_one
word_loop (suc turns) index map =
    let rest = word_loop turns (index + 1) map in
    if word_is_set word_size (index * word_size) map
    then elim (offset_loop word_size index 0 map) [ none ↦ minus_two | some found ↦ found ]
    else rest

-- `BitmapGetFirstFlag`
unfoldable pub get_first_flag : List Bool → (num_bits : ℕ) → ℕ
unfolding word_loop
get_first_flag map num_bits = word_loop (size num_bits) 0 map
