-- ===== src/DataControl/Tests.antt =====
-- Calls on the queue of pictures.
use vcu.Prelude.{ℕ, ◌*◌, ◌≤◌, ◌≡◌, List, [], ◌∷◌, ◌++◌, map, length}
use vcu.DataControl.{RgbData, Call, set_call, get_call, calls, empty_queue}
use vcu.DataControl.Ledger.{picture, calls_lem}

abbrev shot : ℕ → RgbData
shot n = record { rgb = 4096 * n; rgb_size = 519168; pic_id = n }

abbrev busy : List Call
busy = set_call (shot 1) ∷ set_call (shot 2) ∷ get_call ∷ set_call (shot 3) ∷ []

calls_lem_example :
    (map picture (calls busy empty_queue).gone ++ (calls busy empty_queue).rgb_queue
      ≡ shot 1 ∷ shot 2 ∷ shot 3 ∷ [])
    × (length (calls busy empty_queue).rgb_queue ≤ 11)
calls_lem_example = calls_lem busy
