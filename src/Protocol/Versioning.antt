-- ===== src/Protocol/Versioning.antt =====
-- psyexp_net/protocol/versioning.py: protocol versions and the capabilities that two sides share.
-- Python's int() of a text and its text of an int are parameters.
pub mod Laws
use Prim.Native.Char.{code}
use Prim.Native.Nat.{Ordering}
use Prim.Native.String.{◌++◌, compare}
use psyexp_net.Prelude.{
  String, ℕ, Bool, true, false, not, ◌||◌, Option, none, some, List, [], ◌∷◌, keep, contains, ltb,
  nat_beq, ◌==◌, string_eq, if◌then◌else◌,
}
use psyexp_net.Errors.{Error, Result, ok, err, version_mismatch, ◌>>=◌}
use psyexp_net.Floats.{ℤ, pos, negsuc}

-- int(s), with `none` for a ValueError, and f"{n}"
pub record IntText : Type 0 where
  pub parse_int : String → Option ℤ
  pub print_int : ℤ → String

pub record NegotiatedProtocol : Type 0 where
  pub version : String
  pub degraded : Bool
  pub capabilities : List String

abbrev pub ltz : ℤ → ℤ → Bool
ltz (pos a) (pos b) = ltb a b
ltz (pos a) (negsuc b) = false
ltz (negsuc a) (pos b) = true
ltz (negsuc a) (negsuc b) = ltb b a

abbrev pub eqz : ℤ → ℤ → Bool
eqz (pos a) (pos b) = nat_beq a b
eqz (negsuc a) (negsuc b) = nat_beq a b
eqz _ _ = false

-- min(a, b)
abbrev pub min_ℤ : ℤ → ℤ → ℤ
min_ℤ a b = if ltz b a then b else a

-- s.split(".", maxsplit=1), if that has two parts
unfoldable pub split_dot : String → Option (String × String)
split_dot String.[] = none
split_dot (String.◌∷◌ c s) =
    let rest = split_dot s in
    if nat_beq (code c) b'.'
    then some ("", s)
    else elim rest [ none ↦ none | some (a, b) ↦ some (String.◌∷◌ c a, b) ]

-- s < t: Python orders texts by code points, as the native comparison does.
abbrev pub str_lt : String → String → Bool
str_lt s t = elim (compare s t) [ Ordering.lt ↦ true | _ ↦ false ]

unfoldable pub insert : String → List String → List String
insert x [] = x ∷ []
insert x (y ∷ ys) = if x == y then y ∷ ys else if str_lt x y then x ∷ y ∷ ys else y ∷ insert x ys

-- sorted(set(xs))
unfoldable pub sorted_set : List String → List String
sorted_set [] = []
sorted_set (x ∷ xs) = insert x (sorted_set xs)

abbrev pub invalid : String → Error
invalid version = version_mismatch ("Invalid protocol version: " ++ version)

abbrev pub incompatible : String → String → Error
incompatible server client =
    version_mismatch ("Incompatible protocol versions: server=" ++ server ++ ", client=" ++ client)

module _ (text : IntText) where
  open text use {parse_int, print_int}

  -- int(part) of a version's text
  abbrev pub to_int : String → String → Result ℤ
  to_int version s = elim (parse_int s) [ none ↦ err (invalid version) | some n ↦ ok n ]

  unfoldable pub parse_protocol_version : String → Result (ℤ × ℤ)
  parse_protocol_version version = elim (split_dot version) [
    | none ↦ err (invalid version)
    | some (a, b) ↦ do major ← to_int version a; minor ← to_int version b; ok (major, minor)
  ]

  abbrev pub version_text : ℤ → ℤ → String
  version_text major minor = print_int major ++ "." ++ print_int minor

  unfoldable pub negotiate_protocol :
      String → String → List String → List String → Result NegotiatedProtocol
  negotiate_protocol server_version client_version server_capabilities client_capabilities = do
    (server_major, server_minor) ← parse_protocol_version server_version
    (client_major, client_minor) ← parse_protocol_version client_version
    let version = version_text server_major (min_ℤ server_minor client_minor)
    if not (eqz server_major client_major)
        then err (incompatible server_version client_version)
        else ok (record {
          version = version;
          degraded = not (version == server_version) || not (version == client_version);
          capabilities =
              sorted_set (keep (λ c. contains c client_capabilities) server_capabilities);
        })
