-- ===== src/Protocol/Versioning/Laws.antt =====
-- The negotiation of psyexp_net/protocol/versioning.py.
use Prim.Native.String.{◌++◌}
use text.Mathlib.TextLemmas.{nil-append, cons-append}
use psyexp_net.Prelude.{
  ◌↔◌, String, Bool, true, false, not, ◌||◌, ◌&&◌, none, some, List, [], ◌∷◌, keep, contains, ◌≡◌,
  refl, arith, inl, inr, beq_self, Bool-cases, eq_iff, ◌==◌, string_eq,
}
use psyexp_net.Errors.{ok, err}
use psyexp_net.Floats.{ℤ}
use psyexp_net.Protocol.Versioning.{
  IntText, NegotiatedProtocol, eqz, min_ℤ, split_dot, insert, sorted_set, parse_protocol_version,
  version_text, incompatible, negotiate_protocol,
}

contains-insert :
    (x y : String) (ys : List String) → contains x (insert y ys) ≡ (x == y || contains x ys)
unfolding insert
contains-insert x y [] = refl
contains-insert x y (z ∷ zs) =
    ground (arith, contains-insert x y zs, eq_iff x y, eq_iff y z, eq_iff x z)

contains-sorted_set : (x : String) (xs : List String) → contains x (sorted_set xs) ≡ contains x xs
unfolding sorted_set
contains-sorted_set x [] = refl
contains-sorted_set x (y ∷ ys) =
    ground (arith, contains-insert x y (sorted_set ys), contains-sorted_set x ys)

contains-keep :
    (x : String) (p : String → Bool) (xs : List String)
    → contains x (keep p xs) ≡ (contains x xs && p x)
contains-keep x p [] = refl
contains-keep x p (y ∷ ys) = elim (Bool-cases (x == y)) [
  | inl same ↦ rw (← (eq_iff x y).0 same) (ground (arith, contains-keep x p ys, beq_self x))
  | inr other ↦ ground (arith, contains-keep x p ys)
]

split_dot-append : (a b : String) → split_dot a ≡ none → split_dot (a ++ "." ++ b) ≡ some (a, b)
unfolding split_dot
split_dot-append String.[] b h = rw nil-append (rw cons-append (rw nil-append))
split_dot-append (String.◌∷◌ c s) b h = rw cons-append (ground (arith, split_dot-append s b))

-- What the program relies on of int() and of an int's text: the text reads back, and has no dot.
pub record IsFaithful (text : IntText) : Type 0 where
  pub parse-print : (n : ℤ) → text.parse_int (text.print_int n) ≡ some n
  pub no_dot : (n : ℤ) → split_dot (text.print_int n) ≡ none

module _ (text : IntText) (faithful : IsFaithful text) where
  pub parse-version_text :
      (major minor : ℤ)
      → parse_protocol_version text (version_text text major minor) ≡ ok (major, minor)
  unfolding parse_protocol_version
  parse-version_text major minor = ground (
    arith,
    split_dot-append (text.print_int major) (text.print_int minor) (faithful.no_dot major),
    faithful.parse-print major,
    faithful.parse-print minor,
  )

  -- If int() reads back the text of a number and that text has no dot: two sides whose versions
  -- parse, to the same major version, agree on that major version and the smaller of the minor
  -- ones, and on exactly the capabilities that both have, and the agreement is not degraded
  -- exactly when its version is the text that both sides sent. Two sides of different major
  -- versions do not agree, with the error that names both.
  pub negotiate_protocol_lem :
      (server client : String) (ours theirs : List String) (s_major s_minor c_major c_minor : ℤ)
      → parse_protocol_version text server ≡ ok (s_major, s_minor)
      → parse_protocol_version text client ≡ ok (c_major, c_minor)
      → (eqz s_major c_major ≡ false
          → negotiate_protocol text server client ours theirs ≡ err (incompatible server client))
        × (eqz s_major c_major ≡ true
            → (p : NegotiatedProtocol) × (negotiate_protocol text server client ours theirs ≡ ok p)
              × (parse_protocol_version text p.version ≡ ok (s_major, min_ℤ s_minor c_minor))
              × ((x : String) → contains x p.capabilities ≡ (contains x ours && contains x theirs))
              × ((p.degraded ≡ false) ↔ ((p.version ≡ server) × (p.version ≡ client))))
  unfolding negotiate_protocol
  negotiate_protocol_lem server client ours theirs s_major s_minor c_major c_minor s c =
      let v = version_text text s_major (min_ℤ s_minor c_minor) in
      (
        λ differ. rw (negotiate_protocol, s, c, differ),
        λ same. (
          record {
            version = v;
            degraded = not (v == server) || not (v == client);
            capabilities = sorted_set (keep (λ x. contains x theirs) ours);
          },
          rw (negotiate_protocol, s, c, same),
          parse-version_text s_major (min_ℤ s_minor c_minor),
          λ x. rw (contains-sorted_set, contains-keep),
          ground (arith, eq_iff v server, eq_iff v client),
        ),
      )
