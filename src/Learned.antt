-- ===== src/Learned.antt =====
-- src/omnicursor/pattern_writer.py: the learned patterns and how a session changes them.
-- Weights are in thousandths (the code rounds every weight that it writes to three places), scores
-- in ten-thousandths, times in microseconds. Arithmetic on them is exact.
pub mod Steps
pub mod Session
pub mod Sorting
pub mod Overflow
pub mod Index
pub mod Metrics
pub mod Touch
pub mod Decay
pub mod Upsert
pub mod Failure
pub mod Weights
mod Tests
use omnicursor.Prelude.{ℕ, Option, none, some, get_or}
use omnicursor.Text.{Text, codes}

-- A pattern as `_load_patterns` leaves it: the two counters and the identifier are there.
pub record Pattern : Type 0 where
  pub pattern_id : Text
  pub pattern : Option Text
  pub domain : Option Text
  pub weight : Option ℕ
  pub success_count : Option ℕ
  pub injection_count : ℕ
  pub utilization_successes : ℕ
  pub last_seen : Option ℕ
  pub description : Option Text

abbrev pub hard_floor : ℕ
hard_floor = 5500

abbrev pub initial_weight : ℕ
initial_weight = 600

abbrev pub weight_increment : ℕ
weight_increment = 50

abbrev pub weight_cap : ℕ
weight_cap = 950

-- `WEIGHT_INCREMENT * UTILIZATION_SUCCESS_WEIGHT_MULTIPLIER`
abbrev pub boosted_increment : ℕ
boosted_increment = 75

abbrev pub weight_floor : ℕ
weight_floor = 100

-- `DECAY_DAYS`, in microseconds
abbrev pub decay_period : ℕ
decay_period = 2592000000000

abbrev pub decay_amount : ℕ
decay_amount = 100

abbrev pub max_patterns_per_domain : ℕ
max_patterns_per_domain = 20

abbrev pub evict_min_injections : ℕ
evict_min_injections = 10

-- `p.get("domain", "general")`
abbrev pub domain_of : Pattern → Text
domain_of p = get_or p.domain (codes "general")

-- `p.get("weight", 0)`
abbrev pub weight_of : Pattern → ℕ
weight_of p = get_or p.weight 0
