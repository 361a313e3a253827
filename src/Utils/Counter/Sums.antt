-- ===== src/Utils/Counter/Sums.antt =====
-- What a context sees of the additions.
mod Tests
use kernelpanic.Common.{
  ℕ, zero, suc, ◌+◌, ◌-◌, ◌*◌, ◌/◌, ◌%◌, ◌^◌, ◌≤◌, ◌<◌, min, ◌≡◌, refl, sym, ap, ap₂, ◌∙◌, subst,
  ◌≢◌, ◌⊎◌, inl, inr, Bool, true, false, not, ◌&&◌, ◌||◌, Option, none, some, List, [], ◌∷◌, ◌++◌,
  append-nil, append_assoc, arith, ltb, leb, ◌==◌, if◌then◌else◌, Bool-cases, ltb→lt, ltb→le,
  eqb→eq, eqb→ne, eqb_of_ne, eqb_refl, length, get_or, set, take, drop, replicate, length-append,
  length-set, length-replicate, length-take, length-drop, take-append-drop, get_or-set_self,
  get_or-set_ne, length-snoc, prefix_of_append, All, All-append, All-front, All-map, All-zip,
  Distinct, Distinct-snoc,
}
use kernelpanic.Utils.Counter.{Counter, init, context_init, check, add}

abbrev pub add_all : List ℕ → Counter → Counter
add_all [] c = c
add_all (d ∷ ds) c = add_all ds (add c d)

abbrev pub sum : List ℕ → ℕ
sum [] = 0
sum (d ∷ ds) = d + sum ds

added :
    (ds : List ℕ) (c : Counter) → c.val < 2 ^ 64 → (add_all ds c).val ≡ (c.val + sum ds) % 2 ^ 64
unfolding add
added [] c b = omega arith
added (d ∷ ds) c b = omega (arith, added ds (record { val = (c.val + d) % 2 ^ 64 }) (omega arith))

-- CounterCheck with a context that was brought up to date before some additions returns their sum,
-- if it is below 2 ^ 64, also when the counter has wrapped.
pub check_lem :
    (ds : List ℕ) (c : Counter)
    → c.val < 2 ^ 64
    → sum ds < 2 ^ 64
    → (check (add_all ds c) (context_init c)).0 ≡ sum ds
unfolding check context_init
check_lem ds c b h = omega (arith, added ds c b)
