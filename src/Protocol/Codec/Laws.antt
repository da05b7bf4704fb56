-- ===== src/Protocol/Codec/Laws.antt =====
-- The round trip of psyexp_net/protocol/codec.py, and what it does to a dictionary that looks like
-- wrapped bytes.
use psyexp_net.Prelude.{
  map, [], ◌∷◌, String, ℕ, List, Bool, false, Option, none, some, ◌≡◌, refl, arith, ◌==◌, string_eq,
}
use psyexp_net.Errors.{ok}
use psyexp_net.Value.{
  Value, null, bool, int, float, str, bytes, arr, obj, Items, nil, cons, Fields, field, end, lookup,
  opt_str, opt_float, opt_int, items,
}
use psyexp_net.Floats.{ℤ}
use psyexp_net.Protocol.Message.{Message, to_dict, header_to_dict}
use psyexp_net.Protocol.Message.Laws.{from_dict-to_dict}
use psyexp_net.Protocol.Codec.{
  Base64, Json, encode_obj, encode_items, encode_fields, decode_obj, decode_items, decode_fields,
  encode, decode,
}

-- No dictionary in the value has the key "__bytes__".
abbrev mutual
  pub IsClean : {F : Type 0} → Value F → Type 0
  IsClean (arr vs) = AreClean vs
  IsClean (obj fs) = HasCleanFields fs
  IsClean null = Unit
  IsClean (bool _) = Unit
  IsClean (int _) = Unit
  IsClean (float _) = Unit
  IsClean (str _) = Unit
  IsClean (bytes _) = Unit

  pub AreClean : {F : Type 0} → Items F → Type 0
  AreClean nil = Unit
  AreClean (cons v vs) = IsClean v × AreClean vs

  pub HasCleanFields : {F : Type 0} → Fields F → Type 0
  HasCleanFields end = Unit
  HasCleanFields (field k v fs) = ((k == "__bytes__") ≡ false) × IsClean v × HasCleanFields fs

false-false : ◌≡◌ {A = Bool} false false
false-false = refl

module _ (F : Type 0) where
  opt_str-IsClean : (o : Option String) → IsClean (opt_str {F = F} o)
  opt_str-IsClean none = tt
  opt_str-IsClean (some s) = tt

  opt_float-IsClean : (o : Option F) → IsClean (opt_float o)
  opt_float-IsClean none = tt
  opt_float-IsClean (some s) = tt

  opt_int-IsClean : (o : Option ℤ) → IsClean (opt_int {F = F} o)
  opt_int-IsClean none = tt
  opt_int-IsClean (some s) = tt

  bytes-AreClean : (bs : List (List ℕ)) → AreClean {F = F} (items (map bytes bs))
  bytes-AreClean [] = tt
  bytes-AreClean (b ∷ bs) = (tt, bytes-AreClean bs)

  header-IsClean : (m : Message F) → IsClean m.payload → IsClean (obj (to_dict m))
  unfolding to_dict header_to_dict
  header-IsClean m c = assumption (
    false-false,
    tt,
    c,
    opt_str-IsClean m.reply_to,
    opt_str-IsClean m.session_id,
    opt_str-IsClean m.run_id,
    opt_str-IsClean m.block_id,
    opt_str-IsClean m.trial_id,
    opt_float-IsClean m.server_ts,
    opt_float-IsClean m.client_ts,
    opt_int-IsClean m.deadline_ms,
    bytes-AreClean m.attachments,
  )

module _ {F : Type 0} (b64 : Base64)
    (law : (b : List ℕ) → b64.b64decode (b64.b64encode b) ≡ some b) where
  lookup-encode_fields :
      (fs : Fields F) → HasCleanFields fs → lookup "__bytes__" (encode_fields b64 fs) ≡ none
  unfolding encode_fields
  lookup-encode_fields end c = refl
  lookup-encode_fields (field k v fs) c = rw c.0 (lookup-encode_fields fs c.2)

  mutual
    unfolding encode_obj encode_items encode_fields decode_obj decode_items decode_fields

    decode-encode : (v : Value F) → IsClean v → decode_obj b64 (encode_obj b64 v) ≡ ok v
    decode-encode (arr vs) c = rw (decode-encode_items vs c)
    decode-encode (obj fs) c = rw (lookup-encode_fields fs c, decode-encode_fields fs c)
    decode-encode null c = refl
    decode-encode (bool b) c = refl
    decode-encode (int n) c = refl
    decode-encode (float x) c = refl
    decode-encode (str s) c = refl
    decode-encode (bytes b) c = ground (arith, law b)

    decode-encode_items :
        (vs : Items F) → AreClean vs → decode_items b64 (encode_items b64 vs) ≡ ok vs
    decode-encode_items nil c = refl
    decode-encode_items (cons v vs) c = rw (decode-encode v c.0, decode-encode_items vs c.1)

    decode-encode_fields :
        (fs : Fields F) → HasCleanFields fs → decode_fields b64 (encode_fields b64 fs) ≡ ok fs
    decode-encode_fields end c = refl
    decode-encode_fields (field k v fs) c = rw (decode-encode v c.1, decode-encode_fields fs c.2)

  -- Every value in which no dictionary has the key "__bytes__" is what its encoding decodes to, if
  -- base64 reads back what it wrote.
  decode_obj-encode_obj : (v : Value F) → IsClean v → decode_obj b64 (encode_obj b64 v) ≡ ok v
  decode_obj-encode_obj = decode-encode

  -- A message whose payload has no dictionary with the key "__bytes__" is encoded, and its
  -- encoding decodes to the same message, if base64 reads back what it wrote, `json.dumps` accepts
  -- the message's dictionary and `json.loads` reads it back.
  pub decode-encode_message :
      (json : Json F) (fresh : String) (m : Message F) (b : List ℕ)
      → IsClean m.payload
      → json.dumps (encode_obj b64 (obj (to_dict m))) ≡ some b
      → json.loads b ≡ some (encode_obj b64 (obj (to_dict m)))
      → (encode b64 json m ≡ ok b) × (decode b64 json fresh b ≡ ok m)
  unfolding encode decode
  decode-encode_message json fresh m b clean dumped loaded = (
    rw (dumped, encode),
    rw (
      decode,
      loaded,
      decode_obj-encode_obj (obj (to_dict m)) (header-IsClean F m clean),
      from_dict-to_dict fresh m,
    ),
  )
