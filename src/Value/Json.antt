-- ===== src/Value/Json.antt =====
-- What json.dumps, as psyexp_net/logging/recorder.py calls it, makes a text of: a value without bytes.
-- It raises a TypeError for any other.
use psyexp_net.Prelude.{
  String, Bool, true, false, ◌&&◌, Option, none, some, List, [], ◌∷◌, map, ◌≡◌, refl,
}
use psyexp_net.Value.{
  Value, null, bool, int, float, str, bytes, arr, obj, Items, nil, cons, Fields, field, end, items,
  opt_str, opt_float, opt_int,
}
use psyexp_net.Floats.{ℤ}

module _ {F : Type 0} where
  unfoldable mutual
    pub is_json : Value F → Bool
    is_json (bytes b) = false
    is_json (arr vs) = items_json vs
    is_json (obj fs) = fields_json fs
    is_json null = true
    is_json (bool b) = true
    is_json (int n) = true
    is_json (float x) = true
    is_json (str s) = true

    pub items_json : Items F → Bool
    items_json nil = true
    items_json (cons v vs) = is_json v && items_json vs

    pub fields_json : Fields F → Bool
    fields_json end = true
    fields_json (field k v fs) = is_json v && fields_json fs

pub is_json-opt_str : (F : Type 0) (o : Option String) → is_json {F = F} (opt_str o) ≡ true
unfolding is_json
is_json-opt_str F none = refl
is_json-opt_str F (some s) = refl

pub is_json-opt_float : {F : Type 0} (o : Option F) → is_json (opt_float o) ≡ true
unfolding is_json
is_json-opt_float none = refl
is_json-opt_float (some x) = refl

pub is_json-opt_int : (F : Type 0) (o : Option ℤ) → is_json {F = F} (opt_int o) ≡ true
unfolding is_json
is_json-opt_int F none = refl
is_json-opt_int F (some n) = refl

pub items_json-texts :
    (F : Type 0) (ts : List String) → items_json {F = F} (items (map str ts)) ≡ true
unfolding items_json is_json
items_json-texts F [] = refl
items_json-texts F (t ∷ ts) = items_json-texts F ts

pub items_json-map :
    {F A : Type 0} (f : A → Value F)
    → ((a : A) → is_json (f a) ≡ true)
    → (xs : List A) → items_json (items (map f xs)) ≡ true
unfolding items_json
items_json-map f h [] = refl
items_json-map f h (x ∷ xs) = rw (h x) (items_json-map f h xs)
