-- ===== src/Value.antt =====
-- The values that the program sends, records and configures: what JSON carries, and bytes.
pub mod Typed
pub mod Json
use psyexp_net.Prelude.{
  String, Bool, List, [], ◌∷◌, Option, none, some, ℕ, ◌==◌, string_eq, if◌then◌else◌,
}
use psyexp_net.Floats.{ℤ}

mutual
  pub data Value (F : Type 0) : Type 0 where
    null : Value F
    bool : Bool → Value F
    int : ℤ → Value F
    float : F → Value F
    str : String → Value F
    bytes : List ℕ → Value F
    arr : Items F → Value F
    obj : Fields F → Value F

  pub data Items (F : Type 0) : Type 0 where
    nil : Items F
    cons : Value F → Items F → Items F

  pub data Fields (F : Type 0) : Type 0 where
    end : Fields F
    field : String → Value F → Fields F → Fields F

module _ {F : Type 0} where
  -- d.get(k)
  abbrev pub lookup : String → Fields F → Option (Value F)
  lookup k end = none
  lookup k (field j v fs) = if j == k then some v else lookup k fs

  -- payload.get(k) and payload[k] of a payload that is no dictionary find nothing
  abbrev pub item : String → Value F → Option (Value F)
  item k (obj fs) = lookup k fs
  item k _ = none

  -- d[k] = v, and {**d, k: v}
  unfoldable pub put_field : String → Value F → Fields F → Fields F
  put_field k v end = field k v end
  put_field k v (field j w fs) = if j == k then field j v fs else field j w (put_field k v fs)

  -- {**d, **more}
  unfoldable pub put_fields : Fields F → Fields F → Fields F
  unfolding put_field
  put_fields end d = d
  put_fields (field k v more) d = put_fields more (put_field k v d)

  abbrev pub items : List (Value F) → Items F
  items [] = nil
  items (v ∷ vs) = cons v (items vs)

  abbrev pub list_of : Items F → List (Value F)
  list_of nil = []
  list_of (cons v vs) = v ∷ list_of vs

  -- a text or None
  abbrev pub opt_str : Option String → Value F
  opt_str none = null
  opt_str (some s) = str s

  abbrev pub opt_float : Option F → Value F
  opt_float none = null
  opt_float (some x) = float x

  -- an int or None
  abbrev pub opt_int : Option ℤ → Value F
  opt_int none = null
  opt_int (some n) = int n
