-- ===== src/Kernel/Watchdog/Notify.antt =====
-- When WatchdogNotify pets the watchdog.
use kernelpanic.Common.{
  ℕ, zero, suc, ◌<◌, ◌≡◌, refl, sym, ap, ◌∙◌, ◌≢◌, ◌⊎◌, inl, inr, Bool, true, false, List, [], ◌∷◌,
  arith, leb, ◌==◌, if◌then◌else◌, Bool-cases, eqb→eq, eqb→ne, length, get_or, set, replicate,
  length-set, get_or-set_self, get_or-set_ne, ◌+◌, ◌^◌,
}
use kernelpanic.Common.Outcome.{ok}
use kernelpanic.Kernel.Isr.Masks
use kernelpanic.Kernel.Isr.Nesting.{enable-disable}
use kernelpanic.Kernel.Watchdog.{
  flag_bits, flag_max_index, flag_none, flag_get_bit, flag_on, flag_get, flags_equal,
  watchdog_level, Watchdog, notify,
}

abbrev bit : List Bool → ℕ → Bool
bit mask j = get_or mask j false

-- Every flag of one mask is in the other.
abbrev pub Within : List Bool → List Bool → Type 0
Within a b = (j : ℕ) → bit a j ≡ true → bit b j ≡ true

on_nothing : (mask : List Bool) → flag_on mask (replicate (length mask) false) ≡ mask
unfolding flag_on
on_nothing [] = refl
on_nothing (true ∷ mask) = ap (λ l. true ∷ l) (on_nothing mask)
on_nothing (false ∷ mask) = ap (λ l. false ∷ l) (on_nothing mask)

flag_on-bit :
    (mask : List Bool) (i : ℕ)
    → flag_on mask (set (replicate (length mask) false) i true) ≡ set mask i true
unfolding flag_on
flag_on-bit [] i = refl
flag_on-bit (true ∷ mask) zero = ap (λ l. true ∷ l) (on_nothing mask)
flag_on-bit (false ∷ mask) zero = ap (λ l. true ∷ l) (on_nothing mask)
flag_on-bit (true ∷ mask) (suc i) = ap (λ l. true ∷ l) (flag_on-bit mask i)
flag_on-bit (false ∷ mask) (suc i) = ap (λ l. false ∷ l) (flag_on-bit mask i)

get_nothing : (mask : List Bool) (n : ℕ) → flag_get (replicate n false) mask ≡ false
unfolding flag_get
get_nothing mask zero = refl
get_nothing [] (suc n) = refl
get_nothing (b ∷ mask) (suc n) = get_nothing mask n

flag_get-bit :
    (mask : List Bool) (n i : ℕ)
    → i < n
    → flag_get (set (replicate n false) i true) mask ≡ bit mask i
unfolding flag_get
flag_get-bit mask zero i h = absurd (omega arith)
flag_get-bit [] (suc n) zero h = refl
flag_get-bit [] (suc n) (suc i) h = refl
flag_get-bit (true ∷ mask) (suc n) zero h = refl
flag_get-bit (false ∷ mask) (suc n) zero h = get_nothing mask n
flag_get-bit (b ∷ mask) (suc n) (suc i) h = flag_get-bit mask n i (omega arith)

-- The comparison of two masks, one within the other.
abbrev Compared : List Bool → List Bool → Type 0
Compared a b =
    (flags_equal a b ≡ true) × Within b a
    ⊎ (j : ℕ) × (flags_equal a b ≡ false) × (bit b j ≡ true) × (bit a j ≡ false)

compared : (a b : List Bool) → length a ≡ length b → Within a b → Compared a b
unfolding flags_equal
compared [] [] e w = inl (refl, λ j h. h)
compared [] (y ∷ b) e w = absurd (omega arith)
compared (x ∷ a) [] e w = absurd (omega arith)
compared (true ∷ a) (true ∷ b) e w = elim (compared a b (omega arith) (λ j h. w (suc j) h)) [
  | inl same ↦ inl (same.0, both a b same.1)
  | inr apart ↦ inr (suc apart.0, apart.1, apart.2, apart.3)
]
  where
    both : (a b : List Bool) → Within b a → Within (true ∷ b) (true ∷ a)
    both a b w zero h = refl
    both a b w (suc j) h = w j h
compared (false ∷ a) (false ∷ b) e w = elim (compared a b (omega arith) (λ j h. w (suc j) h)) [
  | inl same ↦ inl (same.0, both a b same.1)
  | inr apart ↦ inr (suc apart.0, apart.1, apart.2, apart.3)
]
  where
    both : (a b : List Bool) → Within b a → Within (false ∷ b) (false ∷ a)
    both a b w zero h = h
    both a b w (suc j) h = w j h
compared (false ∷ a) (true ∷ b) e w = inr (0, refl, refl, refl)
compared (true ∷ a) (false ∷ b) e w = absurd (cc (w 0 refl))

-- The state between two calls, in which the interrupt level's count can go up once more.
pub record IsValid (w : Watchdog) : Type 0 where
  pub desired_bits : length w.desired_mask ≡ flag_bits
  pub cur_bits : length w.cur_mask ≡ flag_bits
  pub within : Within w.cur_mask w.desired_mask
  pub isr : Masks.IsValid w.isr
  pub few : w.isr.disabled_count watchdog_level + 1 < 2 ^ 64

-- All players have shown up: the watchdog is petted and the count begins anew.
pub record Pets (index : ℕ) (w : Watchdog) : Type 0 where
  pub returns : notify index w ≡ ok (record w { cur_mask = flag_none }, true)
  pub is_valid : IsValid (record w { cur_mask = flag_none })
  pub all_ran : (j : ℕ) → bit w.desired_mask j ≡ true → (j ≡ index) ⊎ (bit w.cur_mask j ≡ true)

-- Some player is missing: the flag is noted.
pub record Notes (index : ℕ) (w : Watchdog) : Type 0 where
  pub missing : ℕ
  pub returns : notify index w ≡ ok (record w { cur_mask = set w.cur_mask index true }, false)
  pub is_valid : IsValid (record w { cur_mask = set w.cur_mask index true })
  pub is_desired : bit w.desired_mask missing ≡ true
  pub is_other : missing ≢ index
  pub not_yet : bit w.cur_mask missing ≡ false

notify_runs :
    (index : ℕ) (w : Watchdog) (pet : Bool)
    → IsValid w
    → index < flag_bits
    → bit w.desired_mask index ≡ true
    → flags_equal (set w.cur_mask index true) w.desired_mask ≡ pet
    → notify index w
      ≡ ok (record w { cur_mask = if pet then flag_none else set w.cur_mask index true }, pet)
unfolding notify
notify_runs index w pet v h d e =
    let in_range : leb index flag_max_index ≡ true = ground arith in
    let here : flag_get (flag_get_bit index) w.desired_mask ≡ true =
      flag_get-bit w.desired_mask flag_bits index h ∙ d in
    let cur : flag_on w.cur_mask (flag_get_bit index) ≡ set w.cur_mask index true =
      ap (λ n. flag_on w.cur_mask (set (replicate n false) index true)) (sym v.cur_bits)
      ∙ flag_on-bit w.cur_mask index in
    let back = enable-disable w.isr watchdog_level v.isr (omega arith) v.few in
    rw (in_range, here, cur, back, e) refl

none_set : (n j : ℕ) → bit (replicate n false) j ≡ false
none_set zero j = refl
none_set (suc n) zero = refl
none_set (suc n) (suc j) = none_set n j

bit-set_self : (mask : List Bool) (i : ℕ) → i < length mask → bit (set mask i true) i ≡ true
bit-set_self mask i h = get_or-set_self mask i true false h

-- From a valid state WatchdogNotify of a desired flag fails no check. It pets the watchdog and
-- clears the mask if every other desired flag is set in the mask; if one is missing it only sets the
-- flag. The state stays valid.
pub notify_lem :
    (index : ℕ) (w : Watchdog)
    → IsValid w
    → index < flag_bits
    → bit w.desired_mask index ≡ true
    → Pets index w ⊎ Notes index w
notify_lem index w v h d =
    elim (compared (set w.cur_mask index true) w.desired_mask
      (length-set w.cur_mask index true ∙ v.cur_bits ∙ sym v.desired_bits) still) [
        | inl same ↦ inl (record {
          returns = notify_runs index w true v h d same.0;
          is_valid = record {
            desired_bits = v.desired_bits;
            cur_bits = refl;
            within = λ j on. absurd (true-ne-false (sym on ∙ none_set flag_bits j));
            isr = v.isr;
            few = v.few;
          };
          all_ran = λ j wanted. elim (Bool-cases (j == index)) [
            | inl e ↦ inl (eqb→eq j index e)
            | inr ne ↦ inr (
                sym (get_or-set_ne w.cur_mask index j true false (λ e. eqb→ne j index ne (sym e)))
                ∙ same.1 j wanted)
          ];
        })
        | inr apart ↦ inr (record {
          missing = apart.0;
          returns = notify_runs index w false v h d apart.1;
          is_valid = record {
            desired_bits = v.desired_bits;
            cur_bits = length-set w.cur_mask index true ∙ v.cur_bits;
            within = still;
            isr = v.isr;
            few = v.few;
          };
          is_desired = apart.2;
          is_other = other apart.0 apart.3;
          not_yet =
              sym (
                get_or-set_ne w.cur_mask index apart.0 true false
                  (λ e. other apart.0 apart.3 (sym e)))
              ∙ apart.3;
        })
      ]
  where
    still : Within (set w.cur_mask index true) w.desired_mask
    still j on = elim (Bool-cases (j == index)) [
      | inl e ↦ ap (bit w.desired_mask) (eqb→eq j index e) ∙ d
      | inr ne ↦
          v.within j (
            sym (get_or-set_ne w.cur_mask index j true false (λ e. eqb→ne j index ne (sym e))) ∙ on)
    ]

    true-ne-false : true ≢ false
    true-ne-false h = cc

    other : (j : ℕ) → bit (set w.cur_mask index true) j ≡ false → j ≢ index
    other j off e = true-ne-false (
        sym (bit-set_self w.cur_mask index (omega (arith, v.cur_bits)))
        ∙ ap (bit (set w.cur_mask index true)) (sym e)
        ∙ off)
