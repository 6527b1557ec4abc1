-- ===== src/Json/Subscript.antt =====
-- `key in value` and `value[key]` for a value that may be of any type.
use clawrium.Prelude.{String, Bool, Result, ok, err, type_error}
use clawrium.Json.{Json, Dict, null, obj, arr, str, has}
use clawrium.Json.Lists.{has_item}
use clawrium.Text.{codes, has_sub}

-- `key in value`
unfoldable pub holds_key : String → Json → Result Bool
holds_key key (obj d) = ok (has key d)
holds_key key (arr xs) = ok (has_item key xs)
holds_key key (str s) = ok (has_sub (codes key) (codes s))
holds_key key _ = err type_error

-- The dict that a text subscripts. A list, a text or a number raises `TypeError`.
unfoldable pub mapping : Json → Result Dict
mapping (obj d) = ok d
mapping null = err type_error
mapping _ = err type_error
