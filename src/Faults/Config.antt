-- ===== src/Faults/Config.antt =====
-- simulator/faults.py: `FaultConfig`, and the choice of a fault for a response.
-- A finite float is the integer multiple of 2 ^ -1074 that it is exactly, so comparisons of floats
-- are comparisons of integers; NaN and the infinities are not modelled.
use e3on_canserver.Base.{
  ℕ, ◌*◌, ◌%◌, ◌^◌, ◌≡◌, Bool, false, not, Option, none, some, List, arith, ltb, if◌then◌else◌,
  length, get_or,
}
use e3on_canserver.Base.Int.{ℤ, pos, negsuc, ltb_ℤ}
use e3on_canserver.Isotp.{Bytes}
use e3on_canserver.Faults.{FaultType, sf_faults, mf_faults, apply_fault}

-- 2 ^ 1074, the number 1.0.
unfoldable pub one_float : ℕ
one_float = 2 ^ 1074

abbrev pub delay_max_ms : ℤ
delay_max_ms = pos 200

abbrev pub error_pct_max : ℤ
error_pct_max = pos (20 * one_float)

-- Python's `min(a, b)` and `max(a, b)`: the first argument, unless the second is better.
abbrev pub min_ℤ : ℤ → ℤ → ℤ
min_ℤ a b = if ltb_ℤ b a then b else a

abbrev pub max_ℤ : ℤ → ℤ → ℤ
max_ℤ a b = if ltb_ℤ a b then b else a

pub record FaultConfig : Type 0 where
  pub delay_ms : ℤ
  pub error_pct : ℤ

unfoldable pub clamp : ℤ → ℤ → ℤ
clamp x hi = max_ℤ (pos 0) (min_ℤ x hi)

-- `FaultConfig(…)` with `__post_init__`
unfoldable pub make_config : ℤ → ℤ → FaultConfig
unfolding clamp
make_config delay pct = record {
  delay_ms = clamp delay delay_max_ms;
  error_pct = clamp pct error_pct_max;
}

-- A value of the device's entry wins over the command line, that over 0.
unfoldable pub choose_setting : Option ℤ → Option ℤ → ℤ
choose_setting (some entry) cli = entry
choose_setting none (some cli) = cli
choose_setting none none = pos 0

-- `from_config`, for the entry's "delay" and "errors" as numbers.
unfoldable pub from_config : Option ℤ → Option ℤ → Option ℤ → Option ℤ → FaultConfig
unfolding make_config choose_setting
from_config entry_delay entry_errors cli_delay cli_errors =
    make_config (choose_setting entry_delay cli_delay) (choose_setting entry_errors cli_errors)

unfoldable pub has_delay : FaultConfig → Bool
has_delay c = ltb_ℤ (pos 0) c.delay_ms

unfoldable pub has_errors : FaultConfig → Bool
has_errors c = ltb_ℤ (pos 0) c.error_pct

-- The draws of one response: `random.random() * 100.0`, `random.choice` and `random.randint`.
pub record Draws : Type 0 where
  pub roll : ℕ
  pub pick : ℕ
  pub value : ℕ

-- `random.choice(pool)` takes an element of the pool.
unfoldable pub choice : ℕ → List FaultType → FaultType
choice r pool = get_or pool (r % length pool) FaultType.wrong_did

unfoldable pub maybe_inject : FaultConfig → Draws → List Bytes → List Bytes
unfolding has_errors choice
maybe_inject c d frames =
    if not (has_errors c)
    then frames
    else if not (ltb_ℤ (pos d.roll) c.error_pct)
    then frames
    else apply_fault (choice d.pick (if ltb 1 (length frames) then mf_faults else sf_faults))
        d.value frames

abbrev pub IsWithin : ℤ → ℤ → Type 0
IsWithin hi x = (ltb_ℤ x (pos 0) ≡ false) × (ltb_ℤ hi x ≡ false)

clamp-IsWithin : (x : ℤ) (hi : ℕ) → IsWithin (pos hi) (clamp x (pos hi))
unfolding clamp
clamp-IsWithin x hi = ground arith

clamp_keeps : (x : ℤ) (hi : ℕ) → IsWithin (pos hi) x → clamp x (pos hi) ≡ x
unfolding clamp
clamp_keeps (pos n) hi h = ground arith
clamp_keeps (negsuc n) hi h = ground arith

-- Whatever the device's entry and the command line say, the delay lies between 0 and 200 ms and
-- the error rate between 0 and 20 percent.
pub from_config-IsWithin :
    (entry_delay entry_errors cli_delay cli_errors : Option ℤ)
    → IsWithin delay_max_ms (from_config entry_delay entry_errors cli_delay cli_errors).delay_ms
      × IsWithin error_pct_max (from_config entry_delay entry_errors cli_delay cli_errors).error_pct
unfolding from_config
from_config-IsWithin entry_delay entry_errors cli_delay cli_errors = (
  clamp-IsWithin (choose_setting entry_delay cli_delay) 200,
  clamp-IsWithin (choose_setting entry_errors cli_errors) (20 * one_float),
)

-- A delay and an error rate in the device's entry that lie in their ranges are taken as they are,
-- whatever the command line says.
pub from_config_entry :
    (delay errors : ℤ) (cli_delay cli_errors : Option ℤ)
    → IsWithin delay_max_ms delay
    → IsWithin error_pct_max errors
    → from_config (some delay) (some errors) cli_delay cli_errors
      ≡ record { delay_ms = delay; error_pct = errors }
unfolding from_config
from_config_entry delay errors cli_delay cli_errors h k =
    rw (clamp_keeps delay 200 h, clamp_keeps errors (20 * one_float) k)

-- With an error rate of 0 no response is ever changed, whatever is drawn.
pub maybe_inject_clean :
    (c : FaultConfig) (d : Draws) (frames : List Bytes)
    → has_errors c ≡ false
    → maybe_inject c d frames ≡ frames
unfolding maybe_inject
maybe_inject_clean c d frames h = rw h
