-- ===== src/Value/Typed.antt =====
-- Values read at the types that the program's classes declare. A value of another type is a TypeError
-- here, where Python would keep it.
use psyexp_net.Prelude.{
  String, ℕ, Bool, false, true, Option, none, some, List, [], ◌∷◌, map, ◌≡◌, refl, contains,
  string_eq, not, ◌&&◌, ◌==◌, nat_beq, is_empty, if◌then◌else◌,
}
use psyexp_net.Errors.{Result, ok, err, type_error, value_error, attribute_error, need, ◌>>=◌}
use psyexp_net.Floats.{ℤ, pos, negsuc, Floats}
use psyexp_net.Value.{
  Value, null, bool, int, float, str, bytes, arr, obj, Items, nil, cons, Fields, field, end,
  opt_str, opt_int, opt_float, items,
}

module _ {F : Type 0} where
  abbrev pub as_str : Value F → Result String
  as_str (str s) = ok s
  as_str _ = err type_error

  abbrev pub as_opt_str : Value F → Result (Option String)
  as_opt_str null = ok none
  as_opt_str (str s) = ok (some s)
  as_opt_str _ = err type_error

  abbrev pub as_bool : Value F → Result Bool
  as_bool (bool b) = ok b
  as_bool _ = err type_error

  abbrev pub as_ℤ : Value F → Result ℤ
  as_ℤ (int n) = ok n
  as_ℤ _ = err type_error

  abbrev pub as_ℕ : Value F → Result ℕ
  as_ℕ (int (pos n)) = ok n
  as_ℕ _ = err type_error

  abbrev pub as_opt_ℤ : Value F → Result (Option ℤ)
  as_opt_ℤ null = ok none
  as_opt_ℤ (int n) = ok (some n)
  as_opt_ℤ _ = err type_error

  abbrev pub as_opt_float : Value F → Result (Option F)
  as_opt_float null = ok none
  as_opt_float (float x) = ok (some x)
  as_opt_float _ = err type_error

  abbrev pub as_fields : Value F → Result (Fields F)
  as_fields (obj fs) = ok fs
  as_fields _ = err type_error

  abbrev pub bytes_items : Items F → Result (List (List ℕ))
  bytes_items nil = ok []
  bytes_items (cons (bytes b) vs) = do rest ← bytes_items vs; ok (b ∷ rest)
  bytes_items (cons _ vs) = err type_error

  abbrev pub as_bytes_list : Value F → Result (List (List ℕ))
  as_bytes_list (arr vs) = bytes_items vs
  as_bytes_list _ = err type_error

  abbrev pub str_items : Items F → Result (List String)
  str_items nil = ok []
  str_items (cons (str s) vs) = do rest ← str_items vs; ok (s ∷ rest)
  str_items (cons _ vs) = err type_error

  abbrev pub as_str_list : Value F → Result (List String)
  as_str_list (arr vs) = str_items vs
  as_str_list _ = err type_error

  -- A keyword argument, or its default.
  abbrev pub keyword : {A : Type 0} → (Value F → Result A) → A → Option (Value F) → Result A
  keyword read default none = ok default
  keyword read default (some v) = read v

  -- Cls(**d) accepts the keywords of the class only.
  abbrev pub only : List String → Fields F → Bool
  only ks end = true
  only ks (field k v fs) = let rest = only ks fs in if contains k ks then rest else false

module _ (F : Type 0) where
  pub as_opt_str-opt_str : (o : Option String) → as_opt_str (opt_str {F = F} o) ≡ ok o
  as_opt_str-opt_str none = refl
  as_opt_str-opt_str (some s) = refl

  pub as_opt_ℤ-opt_int : (o : Option ℤ) → as_opt_ℤ (opt_int {F = F} o) ≡ ok o
  as_opt_ℤ-opt_int none = refl
  as_opt_ℤ-opt_int (some s) = refl

  pub as_opt_float-opt_float : (o : Option F) → as_opt_float (opt_float o) ≡ ok o
  as_opt_float-opt_float none = refl
  as_opt_float-opt_float (some s) = refl

  pub bytes_items-bytes : (bs : List (List ℕ)) → bytes_items {F = F} (items (map bytes bs)) ≡ ok bs
  bytes_items-bytes [] = refl
  bytes_items-bytes (b ∷ bs) = rw (bytes_items-bytes bs)

module _ {F : Type 0} ⦃fl : Floats F⦄ where
  open fl use {lit, le, of_ℤ, parse_float}

  -- float(v)
  abbrev pub to_float : Value F → Result F
  to_float (float x) = ok x
  to_float (int n) = ok (of_ℤ n)
  to_float (bool true) = ok (lit 1 1)
  to_float (bool false) = ok (lit 0 1)
  to_float (str s) = need value_error (parse_float s)
  to_float _ = err type_error

  -- not v
  abbrev pub falsy : Value F → Bool
  falsy null = true
  falsy (bool b) = not b
  falsy (int (pos n)) = nat_beq n 0
  falsy (int (negsuc n)) = false
  falsy (float x) = le x (lit 0 1) && le (lit 0 1) x
  falsy (str s) = s == ""
  falsy (bytes b) = is_empty b
  falsy (arr nil) = true
  falsy (arr (cons v vs)) = false
  falsy (obj end) = true
  falsy (obj (field k v d)) = false

  -- v or {}, of which items are then read
  abbrev pub or_empty : Value F → Result (Fields F)
  or_empty (obj d) = ok d
  or_empty v = if falsy v then ok end else err attribute_error
