-- ===== src/Utils/Config/Precedence.antt =====
-- Which source wins: src/icefarm/utils/utils.py and src/icefarm/worker/Config.py.
use i_cefarm.Prelude.{
  ◌≡◌, String, Bool, true, false, Option, none, some, if◌then◌else◌, string_key, ◌&&◌, ◌||◌, arith,
  inl, inr, Option-cases,
}
use i_cefarm.Dict.{Dict}
use i_cefarm.Utils.Config.{Parser, lookup, lookup_in_file, config_else_env, init, Config}

-- Whether the worker has a source for a setting.
abbrev pub has : Option String → Bool
has none = false
has (some text) = true

abbrev pub is_set : Dict String String → Parser → String → String → Bool
is_set environ parser section option =
    if has (lookup_in_file parser section option) then true else has (lookup environ option)

abbrev pub has_config : Option Config → Bool
has_config none = false
has_config (some config) = true

-- The worker's configuration is complete exactly if it has a name, the database's address and the two
-- firmware paths: the ports have defaults, and the other settings may be missing.
init_complete :
    (environ : Dict String String) (parser : Parser) (own_ip : String)
    → has_config (init environ parser own_ip) ≡ (
        (is_set environ parser "Connection" "ICEFARM_WORKER_NAME"
          || has (lookup environ "HOSTNAME"))
        && (has (lookup environ "ICEFARM_DATABASE")
            && (is_set environ parser "Firmware" "ICEFARM_DEFAULT"
                && is_set environ parser "Firmware" "ICEFARM_PULSE_COUNT")))
unfolding init config_else_env
init_complete environ parser own_ip =
    elim (Option-cases (lookup_in_file parser "Connection" "ICEFARM_WORKER_NAME")) [
      | inl a ↦ ground (arith, a)
      | inr (name, a) ↦ ground (arith, a)
    ]
