-- ===== src/Driver/Main.antt =====
-- `main`, `build_parser` and `load_config` of psyexp_net/cli/main.py. What argparse makes of the
-- arguments is input, a `Command`; what a command prints is the value that json.dumps gets, or the text.
use psyexp_net.Prelude.{String, ℕ, Bool, true, false, Option, none, some, List, [], ◌∷◌}
use psyexp_net.Config.{AppConfig, default_config}
use psyexp_net.Config.Overrides.{apply_backend_override}
use psyexp_net.Driver.Serving.{ServerOptions}
use psyexp_net.Driver.Joining.{ClientOptions}
use psyexp_net.Errors.{Result, ok, ◌>>=◌}
use psyexp_net.Floats.{Floats, pos}
use psyexp_net.Value.{Value, null, bool, int, float, str, Fields}

-- An argument: its name, its type and its choices, and whether it must be given; a flag sets True.
pub data Kind : Type 0 where
  text path whole number flag : Kind
  one_of : List String → Kind

pub record Argument (F : Type 0) : Type 0 where
  pub name : String
  pub kind : Kind
  pub required : Bool
  pub default : Value F

-- What the command line says.
pub data Command (F : Type 0) : Type 0 where
  doctor demo : (backend : Option String) → Command F
  benchmark : (backend : Option String) → (clients : ℕ) → (seconds : F) → Command F
  replay inspect_log : (file : String) → Command F
  server_start : (backend : Option String) → ServerOptions F → Command F
  client_connect : (backend : Option String) → ClientOptions F → Command F

-- getattr(args, "backend", None)
abbrev pub backend_of : {F : Type 0} → Command F → Option String
backend_of (doctor b) = b
backend_of (demo b) = b
backend_of (benchmark b n x) = b
backend_of (replay p) = none
backend_of (inspect_log p) = none
backend_of (server_start b o) = b
backend_of (client_connect b o) = b

pub data Printed (F : Type 0) : Type 0 where
  plain : String → Printed F
  json : Fields F → Printed F

-- What `main` runs, each with what it comes to; `on_config` is `from_file` of AppConfig.
pub record Tools (F : Type 0) : Type 0 where
  pub on_config : String → Result (AppConfig F)
  pub on_doctor : AppConfig F → Result String
  pub on_benchmark : AppConfig F → (clients : ℕ) → (seconds : F) → Result (Fields F)
  pub on_demo : AppConfig F → Result (Fields F)
  pub on_replay : (session_dir : String) → Result (Fields F)
  pub on_inspect : (file : String) → Result (Fields F)
  pub on_server : AppConfig F → ServerOptions F → Result (Fields F)
  pub on_client : AppConfig F → ClientOptions F → Result (Fields F)

module _ {F : Type 0} ⦃fl : Floats F⦄ where
  open fl use {lit}

  abbrev pub optional : String → Kind → Argument F
  optional name kind = record { name = name; kind = kind; required = false; default = null }

  abbrev pub needed : String → Kind → Argument F
  needed name kind = record { name = name; kind = kind; required = true; default = null }

  abbrev pub with_default : String → Kind → Value F → Argument F
  with_default name kind v = record { name = name; kind = kind; required = false; default = v }

  abbrev pub both_backends : Argument F
  both_backends = optional "--backend" (one_of ("inmemory" ∷ "zmq" ∷ []))

  abbrev pub zmq_backend : Argument F
  zmq_backend = optional "--backend" (one_of ("zmq" ∷ []))

  -- `build_parser`: the arguments of each command, after those of the program
  unfoldable pub build_parser : List (String × List (Argument F))
  build_parser =
      ("psyexp-net", optional "--config" path ∷ [])
      ∷ ("doctor", both_backends ∷ [])
      ∷ (
        "benchmark",
        with_default "--clients" whole (int (pos 4))
            ∷ with_default "--seconds" number (float (lit 2 1))
            ∷ both_backends
            ∷ [],
      )
      ∷ ("demo", both_backends ∷ [])
      ∷ ("replay", needed "session_dir" path ∷ [])
      ∷ ("inspect-log", needed "path" path ∷ [])
      ∷ (
        "server start",
        zmq_backend
            ∷ optional "--duration" number
            ∷ with_default "--publish-discovery" flag (bool false)
            ∷ with_default "--wait-for-ready" flag (bool false)
            ∷ with_default "--start-session" flag (bool false)
            ∷ with_default "--session-id" text (str "S001")
            ∷ with_default "--trial-id" text (str "T001")
            ∷ with_default "--result-role" text (str "response")
            ∷ [],
      )
      ∷ (
        "client connect",
        zmq_backend
            ∷ needed "--role" text
            ∷ needed "--client-id" text
            ∷ optional "--duration" number
            ∷ with_default "--report-on-trial-start" flag (bool false)
            ∷ [],
      )
      ∷ []

  -- `load_config`
  unfoldable pub load_config : Tools F → Option String → Result (AppConfig F)
  load_config tools none = ok default_config
  load_config tools (some file) = tools.on_config file

  abbrev pub print_json : Result (Fields F) → Result (Printed F)
  print_json r = do d ← r; ok (json d)

  -- the command itself
  unfoldable pub run_command : Tools F → AppConfig F → Command F → Result (Printed F)
  run_command tools config (doctor b) = do t ← tools.on_doctor config; ok (plain t)
  run_command tools config (benchmark b clients seconds) =
      print_json (tools.on_benchmark config clients seconds)
  run_command tools config (demo b) = print_json (tools.on_demo config)
  run_command tools config (replay session_dir) = print_json (tools.on_replay session_dir)
  run_command tools config (inspect_log file) = print_json (tools.on_inspect file)
  run_command tools config (server_start b options) = print_json (tools.on_server config options)
  run_command tools config (client_connect b options) = print_json (tools.on_client config options)

  -- `main`; `file` is the argument of --config
  unfoldable pub main : Tools F → (file : Option String) → Command F → Result (Printed F)
  unfolding load_config run_command apply_backend_override
  main tools file command = do
    config ← load_config tools file
    config' ← apply_backend_override config (backend_of command)
    run_command tools config' command
