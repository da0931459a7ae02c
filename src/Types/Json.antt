-- ===== src/Types/Json.antt =====
-- Values of type `unknown`: what `JSON.parse` returns, and reads of a property.
-- A number is one that the server writes (a natural number), or NaN or an infinity.
use agentchat_take_home.Base.{ℕ, Text, Bool, Option, none, some, ◌==◌, text_eq, if◌then◌else◌}

pub data Number : Type 0 where
  finite : ℕ → Number
  not_finite : Number

mutual
  pub data Json : Type 0 where
    null : Json
    boolean : Bool → Json
    number : Number → Json
    string : Text → Json
    array : Items → Json
    object : Fields → Json

  pub data Items : Type 0 where
    nil : Items
    cons : Json → Items → Items

  pub data Fields : Type 0 where
    end : Fields
    field : Text → Json → Fields → Fields

abbrev pub lookup : Text → Fields → Option Json
lookup k end = none
lookup k (field j v fs) = let rest = lookup k fs in if j == k then some v else rest

-- `o[k]`; `none` is undefined. Reads on null throw: the callers test for null first.
abbrev pub property : Text → Json → Option Json
property k (object fs) = lookup k fs
property k v = none

-- A property that is a string.
abbrev pub string_property : Text → Json → Option Text
string_property k v = elim (property k v) [ some (string s) ↦ some s | _ ↦ none ]
