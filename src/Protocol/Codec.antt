-- ===== src/Protocol/Codec.antt =====
-- psyexp_net/protocol/codec.py: messages as JSON, with bytes wrapped as base64. The json and base64
-- modules are parameters.
pub mod Laws
use psyexp_net.Prelude.{String, ℕ, List, Option, none, some, string_eq}
use psyexp_net.Errors.{Result, ok, err, protocol, attribute_error, value_error, type_error, ◌>>=◌}
use psyexp_net.Value.{
  Value, null, bool, int, float, str, bytes, arr, obj, Items, nil, cons, Fields, field, end, lookup,
}
use psyexp_net.Value.Typed.{as_fields}
use psyexp_net.Protocol.Message.{Message, to_dict, from_dict}

-- base64.b64encode(b).decode("ascii"), and base64.b64decode(s.encode("ascii")), with `none` for the
-- ValueError of a text that is no base64.
pub record Base64 : Type 0 where
  pub b64encode : List ℕ → String
  pub b64decode : String → Option (List ℕ)

-- json.dumps(v, ...).encode("utf-8"), with `none` for a TypeError or a ValueError, and
-- json.loads(d.decode("utf-8")), with `none` for a UnicodeDecodeError or a JSONDecodeError.
pub record Json (F : Type 0) : Type 0 where
  pub dumps : Value F → Option (List ℕ)
  pub loads : List ℕ → Option (Value F)

module _ {F : Type 0} (b64 : Base64) where
  open b64 use {b64encode, b64decode}

  unfoldable mutual
    pub encode_obj : Value F → Value F
    encode_obj (bytes b) = obj (field "__bytes__" (str (b64encode b)) end)
    encode_obj (arr vs) = arr (encode_items vs)
    encode_obj (obj fs) = obj (encode_fields fs)
    encode_obj null = null
    encode_obj (bool b) = bool b
    encode_obj (int n) = int n
    encode_obj (float x) = float x
    encode_obj (str s) = str s

    pub encode_items : Items F → Items F
    encode_items nil = nil
    encode_items (cons v vs) = cons (encode_obj v) (encode_items vs)

    pub encode_fields : Fields F → Fields F
    encode_fields end = end
    encode_fields (field k v fs) = field k (encode_obj v) (encode_fields fs)

  -- What a dictionary with the key "__bytes__" becomes.
  abbrev pub decode_bytes : Value F → Result (Value F)
  decode_bytes (str s) = elim (b64decode s) [ none ↦ err value_error | some b ↦ ok (bytes b) ]
  decode_bytes _ = err attribute_error

  abbrev pub unwrap : Option (Value F) → Result (Fields F) → Result (Value F)
  unwrap none rest = do fs ← rest; ok (obj fs)
  unwrap (some v) rest = decode_bytes v

  unfoldable mutual
    pub decode_obj : Value F → Result (Value F)
    decode_obj (arr vs) = do vs' ← decode_items vs; ok (arr vs')
    decode_obj (obj fs) = unwrap (lookup "__bytes__" fs) (decode_fields fs)
    decode_obj null = ok null
    decode_obj (bool b) = ok (bool b)
    decode_obj (int n) = ok (int n)
    decode_obj (float x) = ok (float x)
    decode_obj (str s) = ok (str s)
    decode_obj (bytes b) = ok (bytes b)

    pub decode_items : Items F → Result (Items F)
    decode_items nil = ok nil
    decode_items (cons v vs) = do v' ← decode_obj v; vs' ← decode_items vs; ok (cons v' vs')

    pub decode_fields : Fields F → Result (Fields F)
    decode_fields end = ok end
    decode_fields (field k v fs) = do v' ← decode_obj v; fs' ← decode_fields fs; ok (field k v' fs')

module _ {F : Type 0} (b64 : Base64) (json : Json F) where
  unfoldable pub encode : Message F → Result (List ℕ)
  encode m = elim (json.dumps (encode_obj b64 (obj (to_dict m)))) [
    | none ↦ err protocol
    | some b ↦ ok b
  ]

  -- Only the failures of `loads` become a ProtocolError: those of the steps behind it pass through.
  unfoldable pub decode : (fresh : String) → List ℕ → Result (Message F)
  decode fresh b = elim (json.loads b) [
    | none ↦ err protocol
    | some v ↦ do v' ← decode_obj b64 v; fs ← as_fields v'; from_dict fresh fs
  ]
