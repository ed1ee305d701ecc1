-- ===== src/VcuControl/Tests.antt =====
-- The decoder asked for 25 frames a second.
use vcu.Prelude.{◌≡◌, [], ◌∷◌, true}
use vcu.Prelude.Outcome.{done}
use vcu.RtpDataManager.Thread.{h265}
use vcu.VcuControl.{VcuControl, init_call, open_call, push_call, control_calls, instance_of}
use vcu.VcuControl.Rate.{no_rate, control_calls-no_rate}

control_calls-no_rate_example :
    (v : VcuControl) × (control_calls
        (init_call h265 25 ∷ open_call ∷ push_call (1 ∷ []) ∷ [])
        (instance_of h265)
      ≡ done v)
    × (no_rate v.told ≡ true)
control_calls-no_rate_example =
    control_calls-no_rate h265 h265 25 (open_call ∷ push_call (1 ∷ []) ∷ [])
