-- ===== src/Config.antt =====
-- src/lib/config.cpp, and `init_config` of src/lib/common.cpp. A property tree that was read from a
-- file is its function `get`, which the source calls with the empty string as default.
pub mod Init
use bacs_legacy.Base.{
  ℕ, Bool, true, false, Option, none, some, Bytes, codes, ℤ, pos, ◌=ₛ◌, if◌then◌else◌,
}
use bacs_legacy.Util.Number.{s2i}

-- `boost::property_tree::ptree`, as far as it is used: the text at a key.
pub record CfgEngine : Type 0 where
  pub table : Bytes → Option Bytes

-- `CCfgEngine::get`
unfoldable pub get : CfgEngine → Bytes → Bytes
get c key = elim (c.table key) [ none ↦ codes "" | some v ↦ v ]

-- `cfgi`, `lcfgi`
unfoldable pub get_int : CfgEngine → Bytes → ℤ
unfolding get
get_int c key = s2i (get c key) (pos 0)

pub data Order : Type 0 where
  order_ascending order_descending order_random : Order

-- The global variables that `init_config` sets. `attempts` is no variable of the program: it bounds
-- the rounds of `gen_unique_filename` in this model.
pub record Settings : Type 0 where
  pub config : CfgEngine
  pub langs : CfgEngine
  pub submits_delay : ℤ
  pub compiler_timeout : ℤ
  pub compiler_memoryout : ℤ
  pub checker_timeout : ℤ
  pub max_idle_time : ℤ
  pub ping_period : ℤ
  pub ping_uri : Bytes
  pub order : Order
  pub verbose_tests_copy : Bytes
  pub verbose_tests_server : Bytes
  pub langs_config : Bytes
  pub uid : ℤ
  pub gid : ℤ
  pub attempts : ℕ

-- `cfg` and `lcfg`
abbrev pub cfg : Settings → Bytes → Bytes
cfg c key = get c.config key

abbrev pub cfgi : Settings → Bytes → ℤ
cfgi c key = get_int c.config key

abbrev pub lcfg : Settings → Bytes → Bytes
lcfg c key = get c.langs key

abbrev pub lcfgi : Settings → Bytes → ℤ
lcfgi c key = get_int c.langs key

parse_order : Bytes → Option Order
parse_order ord =
    if ord =ₛ codes "asc"
    then some order_ascending
    else if ord =ₛ codes "desc"
    then some order_descending
    else if ord =ₛ codes "rand"
    then some order_random
    else none

-- `init_config`, where `read_ini` reads a file, and `none` is the result `false`. Variables that are
-- set before a failure are not kept, since the process ends.
unfoldable pub init_config : (Bytes → Option CfgEngine) → ℕ → Option Settings
unfolding parse_order
init_config read_ini attempts = elim (read_ini (codes "bacs2.conf")) [
  | none ↦ none
  | some config ↦ elim (parse_order (get config (codes "general.order"))) [
    | none ↦ none
    | some order ↦ elim (read_ini (get config (codes "langs.config"))) [
      | none ↦ none
      | some langs ↦ some (record {
        config = config;
        langs = langs;
        submits_delay = get_int config (codes "general.check_submits_delay");
        compiler_timeout = get_int config (codes "general.compiler_timeout");
        compiler_memoryout = get_int config (codes "general.compiler_memoryout");
        checker_timeout = get_int config (codes "general.checker_timeout");
        max_idle_time = get_int config (codes "general.max_run_idle_time");
        ping_period = get_int config (codes "general.ping_period");
        ping_uri = get config (codes "general.ping_uri");
        order = order;
        verbose_tests_copy = get config (codes "general.verbose_tests_copy");
        verbose_tests_server = get config (codes "general.verbose_tests_server");
        langs_config = get config (codes "langs.config");
        uid = get_int config (codes "general.uid");
        gid = get_int config (codes "general.gid");
        attempts = attempts;
      })
    ]
  ]
]
