-- ===== src/Examples/Js.antt =====
-- Runs of `stringify`.
use red_team_agent_orchestra.Common.{◌≡◌, refl}
use red_team_agent_orchestra.Js.{num, arr, obj, undefined, null, nil, cons, end, prop, stringify}

stringify_object :
    stringify (
      obj (
        prop "a\"b"
          (num 85)
          (prop "u" undefined (prop "l" (arr (cons (num 1200) (cons null nil))) end))))
    ≡ "{\"a\\\"b\":0.85,\"l\":[12,null]}"
unfolding stringify
stringify_object = refl
