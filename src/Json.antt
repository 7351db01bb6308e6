-- ===== src/Json.antt =====
-- The JSON values of request bodies and of the columns of type Json. The keys of an object are taken to be
-- different, as JSON.parse leaves them. A number that is no integer is the integer below it and its digits.
use intereng_api.Base.{ℕ, String, Bool, Option, none, some, List, [], ◌∷◌, ◌===◌, if◌then◌else◌}
use intereng_api.Base.Int.{ℤ}

pub data Number : Type 0 where
  whole : ℤ → Number
  fraction : ℤ → ℕ → Number

mutual
  pub data Json : Type 0 where
    null : Json
    boolean : Bool → Json
    number : Number → Json
    text : String → Json
    array : Items → Json
    object : Fields → Json

  pub data Items : Type 0 where
    no_items : Items
    item : Json → Items → Items

  pub data Fields : Type 0 where
    no_fields : Fields
    field : String → Json → Fields → Fields

abbrev pub items : Items → List Json
items no_items = []
items (item v vs) = v ∷ items vs

abbrev pub keys : Fields → List String
keys no_fields = []
keys (field k v fs) = k ∷ keys fs

-- record[key]; `none` is undefined.
unfoldable pub at : String → Fields → Option Json
at k no_fields = none
at k (field j v fs) = if j === k then some v else at k fs
