-- ===== src/VcuControl/Rate.antt =====
-- The frame rate that is asked for never reaches the decoder.
use vcu.Prelude.{ℕ, ◌≡◌, refl, List, [], ◌∷◌, ◌++◌, Bool, true, false, arith}
use vcu.Prelude.Outcome.{done}
use vcu.RtpDataManager.Thread.{CodecType}
use vcu.VcuControl.{
  Status, open_status, close_status, err_status, Command, create, delete_vcu, open_vcu, clear_vcu,
  close_vcu, init_vcu, set_rate, push, VcuControl, instance_of, start, init_control, open_control,
  push_data, clear_control, close_control, restart_control, ControlCall, init_call, open_call,
  clear_call, close_call, restart_call, push_call, control_call, control_calls, tell, with_vcu,
}

-- Whether no frame rate was set.
abbrev pub no_rate : List Command → Bool
no_rate [] = true
no_rate (set_rate n ∷ cs) = false
no_rate (create ∷ cs) = no_rate cs
no_rate (delete_vcu ∷ cs) = no_rate cs
no_rate (open_vcu ∷ cs) = no_rate cs
no_rate (clear_vcu ∷ cs) = no_rate cs
no_rate (close_vcu ∷ cs) = no_rate cs
no_rate (init_vcu c ∷ cs) = no_rate cs
no_rate (push p ∷ cs) = no_rate cs

no_rate-append :
    (cs ds : List Command) → no_rate cs ≡ true → no_rate ds ≡ true → no_rate (cs ++ ds) ≡ true
no_rate-append [] ds p q = q
no_rate-append (set_rate n ∷ cs) ds p q = ground arith
no_rate-append (create ∷ cs) ds p q = no_rate-append cs ds p q
no_rate-append (delete_vcu ∷ cs) ds p q = no_rate-append cs ds p q
no_rate-append (open_vcu ∷ cs) ds p q = no_rate-append cs ds p q
no_rate-append (clear_vcu ∷ cs) ds p q = no_rate-append cs ds p q
no_rate-append (close_vcu ∷ cs) ds p q = no_rate-append cs ds p q
no_rate-append (init_vcu c ∷ cs) ds p q = no_rate-append cs ds p q
no_rate-append (push b ∷ cs) ds p q = no_rate-append cs ds p q

-- A decoder exists, and no frame rate was stored or set.
record IsUnset (v : VcuControl) : Type 0 where
  created : v.has_vcu ≡ true
  unset : v.fps ≡ 0
  never : no_rate v.told ≡ true

start-IsUnset : (v : VcuControl) → v.fps ≡ 0 → no_rate v.told ≡ true → IsUnset (start v)
unfolding start
start-IsUnset v e n = record {
  created = refl;
  unset = e;
  never = rw e (no_rate-append v.told _ n refl);
}

init-IsUnset :
    (codec : CodecType) (fps : ℕ) (v : VcuControl) (s : Status)
    → v.status ≡ s
    → IsUnset v
    → (v' : VcuControl) × (init_control codec fps v ≡ done v') × IsUnset v'
unfolding init_control
init-IsUnset codec fps v open_status e u = (v, rw e refl, u)
init-IsUnset codec fps v close_status e u =
    let v' = record v { codec_type = codec } in
    (start v', rw e refl, start-IsUnset v' u.unset u.never)
init-IsUnset codec fps v err_status e u =
    let v' = record v { codec_type = codec } in
    (start v', rw e refl, start-IsUnset v' u.unset u.never)

tell-IsUnset :
    (v : VcuControl) (cs : List Command) (s : Status)
    → IsUnset v
    → no_rate cs ≡ true
    → IsUnset (record (tell cs v) { status = s })
tell-IsUnset v cs s u n = record {
  created = u.created;
  unset = u.unset;
  never = no_rate-append v.told cs u.never n;
}

guarded :
    (v next : VcuControl)
    → IsUnset v
    → IsUnset next
    → (v' : VcuControl) × (with_vcu v next ≡ done v') × IsUnset v'
guarded v next u n = let there = u.created in (next, rw there refl, n)

call-IsUnset :
    (c : ControlCall) (v : VcuControl)
    → IsUnset v
    → (v' : VcuControl) × (control_call c v ≡ done v') × IsUnset v'
unfolding control_call open_control push_data clear_control close_control restart_control
call-IsUnset (init_call codec fps) v u = init-IsUnset codec fps v v.status refl u
call-IsUnset open_call v u = guarded v _ u (tell-IsUnset v (open_vcu ∷ []) open_status u refl)
call-IsUnset clear_call v u = guarded v _ u (tell-IsUnset v (clear_vcu ∷ []) v.status u refl)
call-IsUnset close_call v u = guarded v _ u (tell-IsUnset v (close_vcu ∷ []) close_status u refl)
call-IsUnset (push_call b) v u = guarded v _ u (tell-IsUnset v (push b ∷ []) v.status u refl)
call-IsUnset restart_call v u =
    let closed = tell (close_vcu ∷ delete_vcu ∷ []) v in
    let ended = tell-IsUnset v (close_vcu ∷ delete_vcu ∷ []) v.status u refl in
    let started = start-IsUnset closed ended.unset ended.never in
    guarded v _ u (tell-IsUnset (start closed) (open_vcu ∷ []) open_status started refl)

calls-IsUnset :
    (cs : List ControlCall) (v : VcuControl)
    → IsUnset v
    → (v' : VcuControl) × (control_calls cs v ≡ done v') × IsUnset v'
unfolding control_calls
calls-IsUnset [] v u = (v, refl, u)
calls-IsUnset (c ∷ cs) v u =
    let (v1, ran, u1) = call-IsUnset c v u in
    let (v2, later, u2) = calls-IsUnset cs v1 u1 in (v2, rw ran later, u2)

-- Whatever frame rate `init` is given first and whatever calls follow, none goes through a null pointer, and the decoder is
-- never told a frame rate.
pub control_calls-no_rate :
    (any codec : CodecType) (fps : ℕ) (cs : List ControlCall)
    → (v : VcuControl) × (control_calls (init_call codec fps ∷ cs) (instance_of any) ≡ done v)
      × (no_rate v.told ≡ true)
unfolding control_calls control_call init_control instance_of
control_calls-no_rate any codec fps cs =
    let (v, ran, u) =
      calls-IsUnset cs (start (record (instance_of any) { codec_type = codec }))
        (start-IsUnset _ refl refl) in
    (v, ran, u.never)
