-- ===== src/Service/Modifiers.antt =====
-- The modifier value that `GenerateModifierValue` hands to the engine.
use chromiumos_devenv.Common.{ℕ, ◌/◌, ◌%◌, ◌<◌, ◌≡◌, refl, Bool, true, false, ◌||◌, arith, ◌==◌}
use chromiumos_devenv.Platform.Host.{ModifierState}
use chromiumos_devenv.Service.{generate_modifier_value}

abbrev flags : ModifierState → Bool → Bool → Bool → ModifierState
flags m s g c = record m { shift = s; alt_graph = g; caps_lock = c }

abbrev HasBits : ℕ → Bool → Bool → Bool → Type 0
HasBits v s g c = (v < 8) × ((v % 2 == 1) ≡ s) × ((v / 2 % 2 == 1) ≡ g) × ((v / 4 == 1) ≡ c)

flags-HasBits :
    (m : ModifierState) (s g c d : Bool)
    → HasBits (generate_modifier_value (flags m s g c) d) s (g || d) c
unfolding generate_modifier_value
flags-HasBits m true true true true = (omega arith, refl, refl, refl)
flags-HasBits m true true true false = (omega arith, refl, refl, refl)
flags-HasBits m true true false true = (omega arith, refl, refl, refl)
flags-HasBits m true true false false = (omega arith, refl, refl, refl)
flags-HasBits m true false true true = (omega arith, refl, refl, refl)
flags-HasBits m true false true false = (omega arith, refl, refl, refl)
flags-HasBits m true false false true = (omega arith, refl, refl, refl)
flags-HasBits m true false false false = (omega arith, refl, refl, refl)
flags-HasBits m false true true true = (omega arith, refl, refl, refl)
flags-HasBits m false true true false = (omega arith, refl, refl, refl)
flags-HasBits m false true false true = (omega arith, refl, refl, refl)
flags-HasBits m false true false false = (omega arith, refl, refl, refl)
flags-HasBits m false false true true = (omega arith, refl, refl, refl)
flags-HasBits m false false true false = (omega arith, refl, refl, refl)
flags-HasBits m false false false true = (omega arith, refl, refl, refl)
flags-HasBits m false false false false = (omega arith, refl, refl, refl)

-- The value is below 8, so it selects a key map, and its three bits are exactly shift, AltGr (the
-- modifier's, or the right Alt key's) and caps lock.
pub generate_modifier_value-bits :
    (m : ModifierState) (down : Bool)
    → (generate_modifier_value m down < 8)
      × ((generate_modifier_value m down % 2 == 1) ≡ m.shift)
      × ((generate_modifier_value m down / 2 % 2 == 1) ≡ (m.alt_graph || down))
      × ((generate_modifier_value m down / 4 == 1) ≡ m.caps_lock)
generate_modifier_value-bits m down = flags-HasBits m m.shift m.alt_graph m.caps_lock down
