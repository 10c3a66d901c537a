-- ===== src/Motion/Dwell.antt =====
-- The dwell of a move: updates in and out of the band.
use real_time_embedded_motio.Base.{
  ℕ, ◌+◌, ◌≤◌, ◌<◌, ◌≡◌, true, Option, none, some, arith, u32, ℤ, ◌-ℤ◌, List, [], ◌∷◌, Bool, false,
  ◌&&◌,
}
use real_time_embedded_motio.Float.{Float}
use real_time_embedded_motio.Application.{AppState}
use real_time_embedded_motio.Drivers.Motor.{Motor}
use real_time_embedded_motio.Pid.{PidController, pid_update}
use real_time_embedded_motio.Motion.Types.{MotionController}
use real_time_embedded_motio.Motion.Defs.{
  in_band, settle, track, apply_update, drive, rest, motion_update,
}

-- The length of the unbroken run of cycles in the band at the end of a history, whose latest cycle
-- comes first.
unfoldable pub trailing : List Bool → ℕ
trailing [] = 0
trailing (true ∷ h) = trailing h + 1
trailing (false ∷ h) = 0

-- Before its latest cycle no run of the history was `dwell` long.
unfoldable pub IsUnsettled : ℕ → List Bool → Type 0
IsUnsettled dwell [] = Unit
IsUnsettled dwell (b ∷ h) = (trailing h < dwell) × IsUnsettled dwell h

-- The dwell count after a sample in or out of the band.
abbrev dwell_after : Bool → ℕ → ℕ
dwell_after true n = n + 1
dwell_after false n = 0

module _ {F : Type 0} ⦃f : Float F⦄ where
  -- What a drive of the motor leaves alone when it succeeds.
  record SameMove (m w : MotionController F) : Type 0 where
    state_same : w.snapshot.state ≡ m.snapshot.state
    stable_same : w.snapshot.stable_cycles ≡ m.snapshot.stable_cycles
    completed_same : w.snapshot.completed_moves ≡ m.snapshot.completed_moves
    target_same : w.snapshot.target ≡ m.snapshot.target
    config_same : w.config ≡ m.config

  apply_update-SameMove :
      (o : Option (PidController F × F)) (motor : Motor F) (m : MotionController F)
      → (apply_update o motor m).0 ≡ true
      → SameMove m (apply_update o motor m).2
  unfolding apply_update
  apply_update-SameMove none motor m h = ground arith
  apply_update-SameMove (some (pid, output)) motor m h = ground arith

  -- Whether the sample of a controller has the error and the velocity of the band.
  abbrev pub samples_band : MotionController F → Bool
  samples_band m =
      f.le (f.fabs m.snapshot.velocity) m.config.completion_velocity
      && f.le (f.fabs (f.of_int (m.snapshot.target -ℤ m.snapshot.position))) m.config.tolerance

  -- One successful update of a move: the dwell count, or the completion.
  record Dwells (m w : MotionController F) : Type 0 where
    config_kept : w.config ≡ m.config
    waits :
        dwell_after (samples_band m) m.snapshot.stable_cycles < m.config.dwell_cycles
        → (w.snapshot.state ≡ AppState.moving)
          × (w.snapshot.stable_cycles ≡ dwell_after (samples_band m) m.snapshot.stable_cycles)
          × (w.snapshot.completed_moves ≡ m.snapshot.completed_moves)
    completes :
        m.config.dwell_cycles ≤ dwell_after (samples_band m) m.snapshot.stable_cycles
        → (w.snapshot.state ≡ AppState.idle)
          × (w.snapshot.completed_moves ≡ u32 (m.snapshot.completed_moves + 1))

  track-Dwells :
      (m : MotionController F)
      → m.snapshot.state ≡ AppState.moving
      → m.config.dwell_cycles < 4294967296
      → m.snapshot.stable_cycles < m.config.dwell_cycles
      → Dwells m (track m)
  unfolding track settle in_band
  track-Dwells m s hd hs = ground arith

  motion_update-Dwells :
      (dt : F) (motor : Motor F) (m : MotionController F)
      → m.snapshot.state ≡ AppState.moving
      → m.config.dwell_cycles < 4294967296
      → m.snapshot.stable_cycles < m.config.dwell_cycles
      → (motion_update dt motor m).0 ≡ true
      → Dwells m (motion_update dt motor m).2
  unfolding motion_update drive rest
  motion_update-Dwells dt motor m s hd hs done = ground (
    arith,
    track-Dwells m s hd hs,
    apply_update-SameMove
        (pid_update (track m).pid (f.of_int (track m).snapshot.target)
          (f.of_int (track m).snapshot.position) dt)
        motor (track m),
  )

  -- The controller after a sample of a position and a velocity.
  abbrev pub observed : MotionController F → ℤ → F → MotionController F
  observed m position velocity = record m {
    snapshot = record (m.snapshot) { position = position; velocity = velocity };
  }

  -- Cycles with any samples and successful updates, and which of them were in the band, the latest
  -- first.
  pub data Cycles (m : MotionController F) : List Bool → MotionController F → Type 0 where
    start : Cycles m [] m
    cycle :
        {h : List Bool} {u w : MotionController F} (position : ℤ) (velocity dt : F)
        (motor motor' : Motor F)
        → Cycles m h u
        → motion_update dt motor (observed u position velocity) ≡ (true, motor', w)
        → Cycles m (samples_band (observed u position velocity) ∷ h) w

  -- After cycles of a move with a history.
  pub record Progress (m : MotionController F) (h : List Bool) (w : MotionController F)
      : Type 0 where
    pub config_kept : w.config ≡ m.config
    pub still_moving :
        trailing h < m.config.dwell_cycles
        → (w.snapshot.state ≡ AppState.moving)
          × (w.snapshot.stable_cycles ≡ trailing h)
          × (w.snapshot.completed_moves ≡ m.snapshot.completed_moves)
    pub completed :
        m.config.dwell_cycles ≤ trailing h
        → (w.snapshot.state ≡ AppState.idle)
          × (w.snapshot.completed_moves ≡ u32 (m.snapshot.completed_moves + 1))

  -- A move whose dwell count is 0, with a positive 32-bit `dwell_cycles`, over successful cycles in
  -- and out of the band in any order, up to and with the first whose unbroken run of cycles in the
  -- band is `dwell_cycles` long: while the run is shorter the axis is moving, its dwell count is the
  -- length of the run, which is 0 after a cycle out of the band, and no move more is completed; when
  -- the run is that long it is IDLE, with one more.
  pub Cycles-Progress :
      {m w : MotionController F} {h : List Bool}
      → m.snapshot.state ≡ AppState.moving
      → m.snapshot.stable_cycles ≡ 0
      → 0 < m.config.dwell_cycles
      → m.config.dwell_cycles < 4294967296
      → Cycles m h w
      → IsUnsettled m.config.dwell_cycles h
      → Progress m h w
  unfolding trailing IsUnsettled
  Cycles-Progress s z p hd start u = ground arith
  Cycles-Progress {m = m} s z p hd
        (cycle {h = h} {u = u} position velocity dt motor motor' before e) (short, earlier) =
      let seen = observed u position velocity in
      ground (arith, Cycles-Progress s z p hd before earlier, motion_update-Dwells dt motor seen)
