-- ===== src/Tests/Json.antt =====
-- Runs of `JSON.parse`, as client/src uses it.
use data_plane_gateway.Prelude.{◌≡◌, refl, true, none, some}
use data_plane_gateway.Text.{codes, text_eq}
use data_plane_gateway.Json.{null, bool, num, str, arr, obj, nil, cons, end, field}
use data_plane_gateway.Json.Parse.{parse}

parse_object :
    parse (codes " {\"a\" : [1], \"b\": null, \"a\": true} ")
    ≡ some (obj (field (codes "a") (bool true) (field (codes "b") null end)))
unfolding parse text_eq
parse_object = refl

parse_array :
    parse (codes "[1, -2.5e+3, \"x\\u0041\\n\", [], {}]")
    ≡ some (
        arr (
          cons (num (codes "1")) (
            cons
              (num (codes "-2.5e+3"))
              (cons (str (codes "xA\n")) (cons (arr nil) (cons (obj end) nil))))))
unfolding parse text_eq
parse_array = refl

parse_bad : parse (codes "[1,]") ≡ none
unfolding parse text_eq
parse_bad = refl
