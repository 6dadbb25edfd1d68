-- ===== src/Value.antt =====
-- The values of a payload: what JSON holds, with `undefined` and dates. A number is its digits as
-- `String` prints them, and so is a date; an object is its entries in the order of insertion.
use nodejs_template.Text.{Text}

mutual
  pub data Value : Type 0 where
    undefined : Value
    null : Value
    bool_false : Value
    bool_true : Value
    num : Text → Value
    str : Text → Value
    date : Text → Value
    arr : Items → Value
    obj : Fields → Value

  pub data Items : Type 0 where
    nil : Items
    cons : Value → Items → Items

  pub data Fields : Type 0 where
    end : Fields
    field : Text → Value → Fields → Fields
