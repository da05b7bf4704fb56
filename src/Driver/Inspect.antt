-- ===== src/Driver/Inspect.antt =====
-- `psyexp-net inspect-log`, in `main` of psyexp_net/cli/main.py: what it prints of the lines of a log. A
-- line, a kind or a trial that has another type than the recorder gives it is a TypeError here.
pub mod Laws
use psyexp_net.Prelude.{
  String, ℕ, Bool, true, false, not, ◌||◌, Option, none, some, List, length, map, ◌==◌, string_eq,
  if◌then◌else◌,
}
use psyexp_net.Config.Mapping.{nat, texts}
use psyexp_net.Errors.{Result, ok, err, attribute_error, key_error, need, ◌>>=◌}
use psyexp_net.Errors.Loops.{traverse, gather}
use psyexp_net.Floats.{Floats}
use psyexp_net.Logging.Replay.{Lines, read_lines, get_text}
use psyexp_net.Protocol.Versioning.{sorted_set}
use psyexp_net.Value.{Value, obj, Fields, field, end, lookup}
use psyexp_net.Value.Typed.{as_str, falsy}

-- a or b, for texts that may be missing
abbrev pub text_or_else : Option String → Result (Option String) → Result (Option String)
text_or_else none other = other
text_or_else (some t) other = if t == "" then other else ok (some t)

module _ {F : Type 0} where
  -- d.get(k, {}), of which something is got next
  abbrev pub dict_at : String → Fields F → Result (Fields F)
  dict_at k d = elim (lookup k d) [
    | none ↦ ok end
    | some (obj fs) ↦ ok fs
    | some v ↦ err attribute_error
  ]

  -- item["kind"]
  abbrev pub kind_of : Fields F → Result String
  kind_of item = do v ← need key_error (lookup "kind" item); as_str v

module _ {F : Type 0} ⦃fl : Floats F⦄ where
  -- item.get(k), as a condition
  abbrev pub is_given : String → Fields F → Bool
  is_given k d = elim (lookup k d) [ none ↦ false | some v ↦ not (falsy v) ]

  -- the trial of an item, if it is counted and has one
  unfoldable pub trial_of : Fields F → Result (Option String)
  trial_of item =
      if is_given "message" item || is_given "session" item
      then (do
        m ← dict_at "message" item
        h ← dict_at "header" m
        t ← get_text "trial_id" h
        text_or_else t (do s ← dict_at "session" item; get_text "trial_id" s))
      else ok none

  unfoldable pub inspect : List (Fields F) → Result (Fields F)
  unfolding trial_of sorted_set
  inspect rows = do
    trial_ids ← gather trial_of rows
    kinds ← traverse kind_of rows
    ok (
        field "rows" (nat (length rows)) (
          field "kinds" (texts (sorted_set kinds))
            (field "trial_ids" (texts (sorted_set trial_ids)) end)))

  -- the command, of the lines of the file
  unfoldable pub inspect_log : Lines F → List String → Result (Fields F)
  unfolding inspect read_lines
  inspect_log io lines = do rows ← read_lines io lines; inspect rows
