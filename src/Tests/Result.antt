-- ===== src/Tests/Result.antt =====
-- Runs of client/src/result.ts on JSON values.
use data_plane_gateway.Prelude.{◌≡◌, ◌↔◌, refl, true, false, none, some}
use data_plane_gateway.Text.{codes}
use data_plane_gateway.Js.{returned, thrown, message}
use data_plane_gateway.Json.{Json, num, str, arr, cons, nil, truthy}
use data_plane_gateway.Json.Stringify.{json_value, stringify}
use data_plane_gateway.Result.{Result, new_ok, ok, err, unwrap, unwrap_err}
use data_plane_gateway.Result.Laws.{new_ok_falsy, ok_iff_unwrap}

abbrev one : Json
one = num (codes "1")

-- [v]
abbrev singleton : Json → Json
singleton v = arr (cons v nil)

abbrev ok_one : Result Json Json
ok_one = record { value = some one; error = none }

new_ok_falsy_example :
    (ok (new_ok {E = Json} (str (codes ""))) ≡ false)
    × (err (new_ok {E = Json} (str (codes ""))) ≡ false)
    × (unwrap (new_ok {E = Json} (str (codes "")))
        ≡ thrown (message (codes "Attempted to unwrap an Result, but found error: undefined")))
    × (unwrap_err (new_ok {E = Json} (str (codes "")))
        ≡ thrown (message (codes "Attempted to unwrap an Result error, but found value: \"\"")))
unfolding truthy stringify
new_ok_falsy_example = new_ok_falsy (str (codes "")) refl

ok_iff_unwrap_example :
    ((ok ok_one ≡ true) ↔ ((v : Json) × (unwrap ok_one ≡ returned v)))
    × ((err ok_one ≡ true) ↔ ((x : Json) × (unwrap_err ok_one ≡ returned x)))
ok_iff_unwrap_example = ok_iff_unwrap ok_one
