-- ===== src/Metrics/Generic.antt =====
-- metrics/generic/generic.go: counters and gauges without locks, changed by compare-and-swap.
-- `V` stands for the 64 bits of a float64, which math.Float64bits and Float64frombits carry over
-- unchanged, `plus` for the addition of floats on them, and `same` for the comparison of bits.
pub mod Interleaving
use kit_go.Prelude.{String, Bool, List, Option, none, some, if◌then◌else◌}
use kit_go.Metrics.Lv.{with_values}

pub record Counter (V : Type 0) : Type 0 where
  pub bits : V
  pub name : String
  pub lvs : List String

pub record Gauge (V : Type 0) : Type 0 where
  pub bits : V
  pub name : String
  pub lvs : List String

-- What a goroutine does: Add of Counter and of Gauge, ValueReset of Counter, Set of Gauge.
pub data Op (V : Type 0) : Type 0 where
  adds : V → Op V
  resets : Op V
  sets : V → Op V

-- Where the goroutine is: before its load, behind it with the bits that it loaded, or back, with
-- the bits that it replaced.
pub data Thread (V : Type 0) : Type 0 where
  ready : Op V → Thread V
  loaded : Op V → V → Thread V
  finished : Op V → V → Thread V

-- After an atomic action: the goroutine, the bits, and the operation if it took effect.
pub record Turn (V : Type 0) : Type 0 where
  pub thread : Thread V
  pub bits : V
  pub effect : Option (Op V)

module _ {V : Type 0} where
  pub new_counter : V → String → Counter V
  new_counter zero_bits name = record { bits = zero_bits; name = name; lvs = List.[] }

  -- Counter.With, whose result starts from the bits of the moment.
  pub with_counter : List String → Counter V → Counter V
  with_counter label_values c = record c { lvs = with_values c.lvs label_values }

  -- Counter.Value, of the bits that a load finds, and Counter.LabelValues
  pub counter_value : Counter V → V
  counter_value c = c.bits

  pub counter_label_values : Counter V → List String
  counter_label_values c = c.lvs

  pub new_gauge : V → String → Gauge V
  new_gauge zero_bits name = record { bits = zero_bits; name = name; lvs = List.[] }

  -- Gauge.With
  pub with_gauge : List String → Gauge V → Gauge V
  with_gauge label_values g = record g { lvs = with_values g.lvs label_values }

  -- Gauge.Value and Gauge.LabelValues
  pub gauge_value : Gauge V → V
  gauge_value g = g.bits

  pub gauge_label_values : Gauge V → List String
  gauge_label_values g = g.lvs

  -- The second half of a compare-and-swap loop: the swap, or the way back to the load.
  swap : (V → V → Bool) → Op V → V → V → V → Turn V
  swap same op old new bits =
      if same bits old
      then record { thread = finished op old; bits = new; effect = some op }
      else record { thread = ready op; bits = bits; effect = none }

  pub load : Op V → V → Turn V
  load op bits = record { thread = loaded op bits; bits = bits; effect = none }

  -- Counter.Add behind its load; Gauge.Add is the same loop.
  pub add_swap : (V → V → Bool) → (V → V → V) → V → V → V → Turn V
  unfolding swap
  add_swap same plus delta old bits = swap same (adds delta) old (plus old delta) bits

  -- Counter.ValueReset behind its load.
  pub reset_swap : (V → V → Bool) → V → V → V → Turn V
  unfolding swap
  reset_swap same zero_bits old bits = swap same resets old zero_bits bits

  -- Gauge.Set
  pub store : V → V → Turn V
  store value bits = record {
    thread = finished (sets value) bits;
    bits = value;
    effect = some (sets value);
  }
