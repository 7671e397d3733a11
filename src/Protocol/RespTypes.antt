-- ===== src/Protocol/RespTypes.antt =====
-- The values of include/keva/protocol/resp_types.hpp, as one tagged union.
use keva_db.Base.{ℕ, suc, Bool, true, false, List, [], ◌∷◌, Bytes}
use keva_db.Base.Int.{ℤ}

-- `RespValue`, with a constructor for each `RespType`; `RespValues` is its vector of elements.
mutual
  pub data RespValue : Type 0 where
    simple_string : Bytes → RespValue
    error : Bytes → RespValue
    integer : ℤ → RespValue
    bulk_string : Bytes → RespValue
    array : RespValues → RespValue
    nil : RespValue

  pub data RespValues : Type 0 where
    none_left : RespValues
    value : RespValue → RespValues → RespValues

abbrev pub is_array : RespValue → Bool
is_array (array vs) = true
is_array _ = false

abbrev pub is_bulk_string : RespValue → Bool
is_bulk_string (bulk_string s) = true
is_bulk_string _ = false

-- The field `str`, which is empty where the type has no text.
abbrev pub str : RespValue → Bytes
str (simple_string s) = s
str (error s) = s
str (bulk_string s) = s
str _ = []

-- The fields `str` of the elements: what the handlers read of a command.
abbrev pub strs : RespValues → List Bytes
strs none_left = []
strs (value v vs) = str v ∷ strs vs

-- The field `elements`.
abbrev pub elements : RespValue → RespValues
elements (array vs) = vs
elements _ = none_left

unfoldable pub count_values : RespValues → ℕ
count_values none_left = 0
count_values (value v vs) = suc (count_values vs)
