-- ===== src/Examples/Files.antt =====
-- Temporary files and the configuration on the small machine.
use bacs_legacy.Base.{
  ◌≡◌, refl, false, Option, some, [], ◌∷◌, Bytes, codes, pos, ◌=ₛ◌, if◌then◌else◌,
}
use bacs_legacy.System.{Server, returned}
use bacs_legacy.Util.Number.{i2s, s2i}
use bacs_legacy.Config.{Settings, CfgEngine, get, get_int, init_config}
use bacs_legacy.TempFile.{gen_unique_filename, file_exists, temp_name}
use bacs_legacy.TempFile.Names.{gen_unique_filename-fresh}
use bacs_legacy.Examples.Machine.{machine, settings, with_script, server_config, langs_config}

abbrev start : Server machine
start = with_script []

-- The name of the first temporary file is taken.
abbrev taken : Server machine
taken = record start {
  world = record {
    files = (codes "/t/_0000000.tmp", []) ∷ [];
    number = 5;
    script = [];
    locked = false;
  };
}

second_name : (gen_unique_filename machine settings taken).0 ≡ returned (codes "/t/_0000100.tmp")
unfolding gen_unique_filename get i2s temp_name
second_name = refl

gen_unique_filename-fresh_example :
    file_exists machine
      (codes "/t/_0000100.tmp")
      (gen_unique_filename machine settings taken).1.world
    ≡ false
gen_unique_filename-fresh_example =
    gen_unique_filename-fresh machine settings taken (codes "/t/_0000100.tmp") second_name

abbrev read_ini : Bytes → Option CfgEngine
read_ini fn =
    if fn =ₛ codes "bacs2.conf"
    then some (record { table = server_config })
    else some (record { table = langs_config })

abbrev configured : Settings
configured = record settings {
  submits_delay = pos 0;
  compiler_timeout = pos 0;
  checker_timeout = pos 0;
  ping_period = pos 0;
  uid = pos 0;
  gid = pos 0;
}

configures : init_config read_ini 20 ≡ some configured
unfolding init_config get get_int s2i
configures = refl
