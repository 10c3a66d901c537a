-- ===== src/Target/Motor/Refines.antt =====
-- The board's motor driver behaves as the host's, and its registers drive nothing at output zero.
use real_time_embedded_motio.Base.{ℕ, ◌≡◌, refl, Bool, true, false, arith}
use real_time_embedded_motio.Float.{Float, nought, one, minus_one}
use real_time_embedded_motio.Drivers.Motor.{
  Motor, motor_set_output, motor_disable, motor_safety_inhibit, motor_safety_block_negative,
  saturate,
}
use real_time_embedded_motio.Target.Motor.{
  Bridge, apply_output, apply_if_ready, limit_duty, bridge_set_output, bridge_disable,
  bridge_safety_inhibit, bridge_safety_block_negative,
}

module _ {F : Type 0} ⦃f : Float F⦄ where
  -- The variables that the two drivers share.
  abbrev pub gate_of : Bridge F → Motor F
  gate_of m = record {
    initialized = m.initialized;
    output = m.output;
    requested = m.requested;
    inhibited = m.inhibited;
    negative_blocked = m.negative_blocked;
  }

  -- At output zero the channel is off and the compare value is 0.
  pub record IsQuiet (m : Bridge F) : Type 0 where
    pub channel_off : f.eq m.output nought ≡ true → m.channel ≡ false
    pub no_duty : f.eq m.output nought ≡ true → m.duty ≡ 0

  limit_duty-saturate : (duty : F) → f.lt one minus_one ≡ false → limit_duty duty ≡ saturate duty
  unfolding limit_duty saturate
  limit_duty-saturate duty h = ground arith

  module _ (truncate : F → ℕ) where
    apply_output-IsQuiet : (m : Bridge F) → IsQuiet (apply_output truncate m)
    unfolding apply_output
    apply_output-IsQuiet m = ground arith

    gate_of-apply_output : (m : Bridge F) → gate_of (apply_output truncate m) ≡ gate_of m
    unfolding apply_output
    gate_of-apply_output m = refl

    -- Where 1 < -1 does not hold: each operation of an initialized driver has the result of the
    -- host's and changes the shared variables as the host's does, and it keeps the channel off and
    -- the compare value 0 while the output is zero.
    pub bridge-Refines :
        (m : Bridge F) (duty : F) (flag : Bool)
        → f.lt one minus_one ≡ false
        → m.initialized ≡ true
        → IsQuiet m
        → let (set, result) = bridge_set_output truncate m duty in
          let (host_set, host_result) = motor_set_output (gate_of m) duty in
          (gate_of set ≡ host_set)
          × (result ≡ host_result)
          × IsQuiet set
          × (gate_of (bridge_disable truncate m) ≡ motor_disable (gate_of m))
          × IsQuiet (bridge_disable truncate m)
          × (gate_of (bridge_safety_inhibit truncate m flag)
              ≡ motor_safety_inhibit (gate_of m) flag)
          × IsQuiet (bridge_safety_inhibit truncate m flag)
          × (gate_of (bridge_safety_block_negative truncate m flag)
              ≡ motor_safety_block_negative (gate_of m) flag)
          × IsQuiet (bridge_safety_block_negative truncate m flag)
    unfolding bridge_set_output bridge_disable bridge_safety_inhibit bridge_safety_block_negative
        apply_if_ready apply_output motor_set_output motor_disable motor_safety_inhibit
        motor_safety_block_negative
    bridge-Refines m duty flag h ready q = ground (arith, limit_duty-saturate duty h)
