-- ===== src/Utils/Bitmap/Tests.antt =====
-- Runs of utils/bitmap.c.
use kernelpanic.Common.{◌*◌, ◌≡◌, refl, ◌≢◌, Bool, true, false, List, ◌∷◌, ◌++◌, arith, replicate}
use kernelpanic.Utils.Bitmap.{word_size, size, minus_one, minus_two, get_first_flag}
use kernelpanic.Utils.Bitmap.Flags.{Searched, get_first_flag_lem}

-- Two words, with the flags 34 and 35.
abbrev words : List Bool
words = replicate 34 false ++ true ∷ true ∷ replicate 28 false

get_first_flag_lem_example :
    Searched (get_first_flag words 40) words (size 40 * word_size)
    × (get_first_flag words 40 ≢ minus_two)
get_first_flag_lem_example = get_first_flag_lem words 40 (omega arith)

second_word : get_first_flag words 40 ≡ 34
unfolding get_first_flag
second_word = refl

first_word_only : get_first_flag words 20 ≡ minus_one
unfolding get_first_flag
first_word_only = refl
