-- ===== src/Utils/Config.antt =====
-- Where an option's value comes from: `get_env_default` and `config_else_env` of
-- src/icefarm/utils/utils.py, and `Config` of src/icefarm/worker/Config.py. The environment and the
-- parsed file are dictionaries; an option set to the empty text counts as missing.
pub mod Precedence
use i_cefarm.Prelude.{
  String, Bool, true, false, Option, none, some, List, [], ◌∷◌, if◌then◌else◌, string_key, ◌==◌,
}
use i_cefarm.Dict.{Dict, get}

-- What the function returns, or its exception; a missing value is Python's None or the empty text.
pub data Setting : Type 0 where
  value : String → Setting
  missing : Setting
  exception : Setting

-- `dict.get` behind a test of truth.
unfoldable pub lookup : Dict String String → String → Option String
lookup d name = elim (get name d) [
  | none ↦ none
  | some text ↦ if text == "" then none else some text
]

unfoldable pub get_env_default : Dict String String → String → String → String
get_env_default environ var default = elim (lookup environ var) [
  | none ↦ default
  | some text ↦ text
]

-- The sections of a file; without a file there is no parser.
abbrev pub Parser : Type 0
Parser = Option (Dict String (Dict String String))

unfoldable pub lookup_in_file : Parser → String → String → Option String
lookup_in_file none section option = none
lookup_in_file (some sections) section option = elim (get section sections) [
  | none ↦ none
  | some options ↦ lookup options option
]

-- `config_else_env`, with its `error` and its `default`.
unfoldable pub config_else_env :
    Dict String String → Parser → String → String → Bool → Option String → Setting
config_else_env environ parser option section error default =
    elim (lookup_in_file parser section option) [
      | some text ↦ value text
      | none ↦ elim (lookup environ option) [
        | some text ↦ value text
        | none ↦
            if error
            then (elim default [
              | none ↦ exception
              | some text ↦ if text == "" then exception else value text
            ])
            else missing
      ]
    ]

-- The worker's settings.
pub record Config : Type 0 where
  pub worker_name : String
  pub server_port : String
  pub virtual_server_port : String
  pub control_server_url : Option String
  pub virtual_ip : String
  pub libpg_string : String
  pub default_firmware_path : String
  pub pulse_firmware_path : String
  pub variance_firmware_path : Option String

-- A setting that must have a value: none ends `__init__` by an exception.
abbrev pub need : {A : Type 0} → Setting → (String → Option A) → Option A
need (value text) rest = rest text
need missing rest = none
need exception rest = none

abbrev pub need_some : {A : Type 0} → Option String → (String → Option A) → Option A
need_some none rest = none
need_some (some text) rest = rest text

abbrev pub to_option : Setting → Option String
to_option (value text) = some text
to_option missing = none
to_option exception = none

-- A value from the file or the environment, and else another source.
abbrev pub or_else : Option String → Option String → Option String
or_else (some text) other = some text
or_else none other = other

-- `Config.__init__`, with the environment, the parser of an existing file, and what `get_ip` finds.
unfoldable pub init : Dict String String → Parser → String → Option Config
init environ parser own_ip =
    let connection = λ (option : String) (error : Bool) (default : Option String).
      config_else_env environ parser option "Connection" error default in
    let firmware = λ (option : String) (error : Bool).
      config_else_env environ parser option "Firmware" error none in
    need_some
      (or_else (to_option (connection "ICEFARM_WORKER_NAME" false none))
        (lookup environ "HOSTNAME"))
      λ name. need (connection "ICEFARM_SERVER_PORT" true (some "8081")) λ port.
        need (connection "ICEFARM_VIRTUAL_PORT" true (some "8081")) λ virtual_port.
          need_some (lookup environ "ICEFARM_DATABASE") λ libpg.
            need (firmware "ICEFARM_DEFAULT" true) λ default_path.
              need (firmware "ICEFARM_PULSE_COUNT" true) λ pulse_path. some (record {
                worker_name = name;
                server_port = port;
                virtual_server_port = virtual_port;
                control_server_url = to_option (connection "ICEFARM_CONTROL_SERVER" false none);
                virtual_ip = elim (to_option (connection "ICEFARM_VIRTUAL_IP" false none)) [
                  | none ↦ own_ip
                  | some ip ↦ ip
                ];
                libpg_string = libpg;
                default_firmware_path = default_path;
                pulse_firmware_path = pulse_path;
                variance_firmware_path = to_option (firmware "ICEFARM_VARIANCE" false);
              })
