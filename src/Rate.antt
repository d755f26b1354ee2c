-- ===== src/Rate.antt =====
-- The rate limits of src/tpg_rate.c and inc/tpg_rate.h: a rate per second is spread over slots, one for
-- each interval of the second, and a runner may start in an interval what its slot has left. An
-- infinite rate is the largest uint32_t.
pub mod Spread
pub mod Divide
pub mod Share
pub mod Interval
pub mod Timer
mod Tests
use mathlib.Core.Option
use warp.Prelude.{
  ℕ, zero, suc, ◌+◌, ◌-◌, ◌/◌, ◌%◌, ◌^◌, Bool, true, false, ◌&&◌, not, Option, none, some, List, [],
  ◌∷◌, length, get_or, set, replicate, ltb, leb, ◌==◌, if◌then◌else◌,
}

-- GCFG_RATE_MAX_SLOT_COUNT.
abbrev pub max_slot_count : ℕ
max_slot_count = 10000

-- TPG_RATE_LIM_INFINITE_VAL.
abbrev pub infinite_val : ℕ
infinite_val = 4294967295

-- `rate_limit_cfg_t`.
pub record Cfg : Type 0 where
  pub rlc_count : ℕ
  pub rlc_target : ℕ
  pub rlc_slots : List ℕ

-- `rate_limit_t`.
pub record Limit : Type 0 where
  pub rl_current_rate : ℕ
  pub rl_count : ℕ
  pub rl_current_index : ℕ
  pub rl_max_burst : ℕ
  pub rl_slots : List ℕ

-- The search of the first slot with the value: its index, or the number of slots.
unfoldable pub index_of : ℕ → List ℕ → ℕ
index_of v [] = 0
index_of v (x ∷ xs) = if x == v then 0 else suc (index_of v xs)

-- The search of a slot to start at, with `min_value` raised until there is one.
unfoldable pub find_index : ℕ → ℕ → List ℕ → Option (ℕ × ℕ)
unfolding index_of
find_index zero min_value slots = none
find_index (suc fuel) min_value slots =
    let rest = find_index fuel (suc min_value) slots in
    if index_of min_value slots == length slots
    then rest
    else some (index_of min_value slots, min_value)

-- `for (i = index; i < count && rate; i += step)`, with the slots and the rate that is left.
unfoldable pub spread : ℕ → ℕ → ℕ → ℕ → List ℕ → List ℕ × ℕ
spread zero i step rate slots = (slots, rate)
spread (suc fuel) i step rate slots =
    let rest =
      spread fuel (i + step) step (rate - 1) (set slots i ((get_or slots i 0 + 1) % 2 ^ 32)) in
    if ltb i (length slots) && not (rate == 0) then rest else (slots, rate)

-- `while (rate)`.
unfoldable pub spread_rest : ℕ → ℕ → ℕ → ℕ → List ℕ → Option (List ℕ)
spread_rest zero step min_value rate slots = if rate == 0 then some slots else none
spread_rest (suc fuel) step min_value rate slots =
    let start = find_index (suc (get_or slots 0 0)) min_value slots in
    let rest = λ (s : ℕ × ℕ).
      let p = spread (length slots) s.0 step rate slots in
      spread_rest fuel (suc step) s.1 p.1 p.0 in
    if rate == 0 then some slots else elim start [ some s ↦ rest s | none ↦ none ]

-- The slots that a rate needs, at most GCFG_RATE_MAX_SLOT_COUNT.
unfoldable pub slot_count : ℕ → ℕ
slot_count rate = if ltb rate max_slot_count then rate else max_slot_count

-- The equal parts of a rate and its rest, over some slots.
unfoldable pub divide : ℕ → ℕ → Option (List ℕ)
divide count rate =
    let min_value = rate / count in
    let rest = rate % count in
    if rest == 0
    then some (replicate count min_value)
    else spread_rest rest (count / rest) min_value rest (replicate count min_value)

-- `tpg_rate_t` is a rate, or none for an infinite one. `rate_limit_cfg_init`; `none` is a model that runs
-- out of fuel.
unfoldable pub rate_limit_cfg_init : Option ℕ → Option Cfg
rate_limit_cfg_init none =
    some record { rlc_count = 1; rlc_target = infinite_val; rlc_slots = infinite_val ∷ [] }
rate_limit_cfg_init (some rate) =
    if rate == 0
    then some record { rlc_count = 1; rlc_target = 0; rlc_slots = 0 ∷ [] }
    else Option.map (λ s. record { rlc_count = slot_count rate; rlc_target = rate; rlc_slots = s })
        (divide (slot_count rate) rate)

-- The inner loop of `rate_limit_init`, from slot `i`: the slots of the limit, those of the
-- configuration, and what is still desired.
unfoldable pub take : ℕ → ℕ → ℕ → ℕ → List ℕ → List ℕ → List ℕ × List ℕ × ℕ
take zero i step desired slots left = (slots, left, desired)
take (suc fuel) i step desired slots left =
    let keep = take fuel (i + step) step desired slots left in
    let one =
      take fuel (i + step) step (desired - 1) (set slots i ((get_or slots i 0 + 1) % 2 ^ 32))
        (set left i (get_or left i 0 - 1)) in
    if ltb i (length left) && not (desired == 0)
    then (if get_or left i 0 == 0 then keep else one)
    else (slots, left, desired)

-- The first slot with something left.
unfoldable pub first_left : List ℕ → ℕ
first_left [] = 0
first_left (x ∷ xs) = if x == 0 then suc (first_left xs) else 0

-- `while (desired)`, with the slots of the limit and of the configuration.
unfoldable pub take_all : ℕ → ℕ → ℕ → List ℕ → List ℕ → Option (List ℕ × List ℕ)
take_all zero step desired slots left = if desired == 0 then some (slots, left) else none
take_all (suc fuel) step desired slots left =
    let t = take (length left) (first_left left) step desired slots left in
    let next = suc step % length left in
    let rest = take_all fuel (if next == 0 then 1 else next) t.2 t.0 t.1 in
    if desired == 0 then some (slots, left) else rest

-- What `rate_limit_init` ends in: 0, with the changed configuration, or -ENOMEM.
pub data Init : Type 0 where
  ready : Limit → Cfg → Init
  nomem : Limit → Init
  no_fuel : Init

abbrev pub zero_limit : Limit
zero_limit = record {
  rl_current_rate = 0;
  rl_count = 0;
  rl_current_index = 0;
  rl_max_burst = 0;
  rl_slots = [];
}

-- `rate_limit_init`; the first argument tells whether the memory of the slots was there.
unfoldable pub rate_limit_init : Bool → Cfg → ℕ → ℕ → ℕ → Init
rate_limit_init allocated cfg displacement desired max_burst =
    let zeroes = replicate cfg.rlc_count 0 in
    if desired == 0
    then ready zero_limit cfg
    else if not allocated
    then nomem zero_limit
    else if desired == infinite_val
    then ready
        (record {
          rl_current_rate = infinite_val;
          rl_count = 1;
          rl_current_index = 0;
          rl_max_burst = max_burst % 2 ^ 16;
          rl_slots = set zeroes 0 infinite_val;
        })
        cfg
    else elim (take_all desired displacement desired zeroes cfg.rlc_slots) [
      | some p ↦
          ready
            (record {
              rl_current_rate = get_or p.0 0 0;
              rl_count = cfg.rlc_count % 2 ^ 16;
              rl_current_index = 0;
              rl_max_burst = max_burst % 2 ^ 16;
              rl_slots = p.0;
            })
            (record cfg { rlc_slots = p.1 })
      | none ↦ no_fuel
    ]
