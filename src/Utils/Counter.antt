-- ===== src/Utils/Counter.antt =====
-- utils/counter.c: a count that contexts look at from time to time.
pub mod Sums
use kernelpanic.Common.{
  ℕ, zero, suc, ◌+◌, ◌-◌, ◌*◌, ◌/◌, ◌%◌, ◌^◌, ◌≤◌, ◌<◌, min, ◌≡◌, refl, sym, ap, ap₂, ◌∙◌, subst,
  ◌≢◌, ◌⊎◌, inl, inr, Bool, true, false, not, ◌&&◌, ◌||◌, Option, none, some, List, [], ◌∷◌, ◌++◌,
  append-nil, append_assoc, arith, ltb, leb, ◌==◌, if◌then◌else◌, Bool-cases, ltb→lt, ltb→le,
  eqb→eq, eqb→ne, eqb_of_ne, eqb_refl, length, get_or, set, take, drop, replicate, length-append,
  length-set, length-replicate, length-take, length-drop, take-append-drop, get_or-set_self,
  get_or-set_ne, length-snoc, prefix_of_append, All, All-append, All-front, All-map, All-zip,
  Distinct, Distinct-snoc,
}

-- `struct COUNTER`, `struct COUNTER_CONTEXT`
pub record Counter : Type 0 where
  pub val : ℕ

-- `CounterInit`
unfoldable pub init : Counter
init = record { val = 0 }

-- `CounterContextInit`
unfoldable pub context_init : Counter → Counter
context_init c = record { val = c.val }

-- `CounterCheck`: the count that is returned, and the context.
unfoldable pub check : Counter → (context : Counter) → ℕ × Counter
check c context = ((c.val + 2 ^ 64 - context.val) % 2 ^ 64, record { val = c.val })

-- `CounterAdd`
unfoldable pub add : Counter → ℕ → Counter
add c diff = record { val = (c.val + diff) % 2 ^ 64 }
