-- ===== src/VcuControl.antt =====
-- src/vcuControl.cpp: the control of the hardware decoder. The decoder itself is not part of the
-- repository: what it is told is recorded, oldest first. A call through the null pointer is an overrun.
pub mod Rate
mod Tests
use vcu.Prelude.{ℕ, List, [], ◌∷◌, ◌++◌, Bool, true, false, ◌==◌, if◌then◌else◌}
use vcu.RtpDataManager.Thread.{CodecType}
use vcu.Prelude.Outcome.{Outcome, done, overrun, ◌>>=◌}

pub data Status : Type 0 where
  open_status close_status err_status : Status

-- The calls of `AllegroVcu`, by the bytes of the data pushed.
pub data Command : Type 0 where
  create delete_vcu open_vcu clear_vcu close_vcu : Command
  init_vcu : CodecType → Command
  set_rate : ℕ → Command
  push : List ℕ → Command

pub record VcuControl : Type 0 where
  pub fps : ℕ
  pub codec_type : CodecType
  pub status : Status
  pub has_vcu : Bool
  pub told : List Command

-- `static VCUControl ins;`; `codec_type` has no value before `init`
unfoldable pub instance_of : CodecType → VcuControl
instance_of codec = record {
  fps = 0;
  codec_type = codec;
  status = close_status;
  has_vcu = false;
  told = [];
}

abbrev pub tell : List Command → VcuControl → VcuControl
tell cs v = record v { told = v.told ++ cs }

-- `new AllegroVcu`, its `init` and the frame rate
unfoldable pub start : VcuControl → VcuControl
start v = record v {
  has_vcu = true;
  told =
      v.told ++ (create ∷ init_vcu v.codec_type ∷ (if v.fps == 0 then [] else set_rate v.fps ∷ []));
}

-- `init(_type, _pf, _fps)`: `fps = fps` assigns the member to itself.
unfoldable pub init_control : CodecType → ℕ → VcuControl → Outcome VcuControl
init_control codec fps v = elim v.status [
  | open_status ↦ done v
  | _ ↦ done (start (record v { codec_type = codec; fps = v.fps }))
]

abbrev pub with_vcu : VcuControl → VcuControl → Outcome VcuControl
with_vcu v next = if v.has_vcu then done next else overrun

unfoldable pub open_control : VcuControl → Outcome VcuControl
open_control v = with_vcu v (record (tell (open_vcu ∷ []) v) { status = open_status })

unfoldable pub push_data : List ℕ → VcuControl → Outcome VcuControl
push_data pdata v = with_vcu v (tell (push pdata ∷ []) v)

unfoldable pub clear_control : VcuControl → Outcome VcuControl
clear_control v = with_vcu v (tell (clear_vcu ∷ []) v)

unfoldable pub close_control : VcuControl → Outcome VcuControl
close_control v = with_vcu v (record (tell (close_vcu ∷ []) v) { status = close_status })

unfoldable pub restart_control : VcuControl → Outcome VcuControl
restart_control v =
    with_vcu v (record (tell (open_vcu ∷ []) (start (tell (close_vcu ∷ delete_vcu ∷ []) v))) {
      status = open_status;
    })

pub data ControlCall : Type 0 where
  init_call : CodecType → ℕ → ControlCall
  open_call clear_call close_call restart_call : ControlCall
  push_call : List ℕ → ControlCall

unfoldable pub control_call : ControlCall → VcuControl → Outcome VcuControl
control_call (init_call codec fps) v = init_control codec fps v
control_call open_call v = open_control v
control_call clear_call v = clear_control v
control_call close_call v = close_control v
control_call restart_call v = restart_control v
control_call (push_call pdata) v = push_data pdata v

unfoldable pub control_calls : List ControlCall → VcuControl → Outcome VcuControl
control_calls [] v = done v
control_calls (c ∷ cs) v = do v' ← control_call c v; control_calls cs v'
