-- ===== src/Ping.antt =====
-- `ping` of include/bacs/legacy/common.hpp: the server tells a web service what it is doing.
use bacs_legacy.Base.{
  ℕ, suc, none, some, [], ◌++◌, Bytes, codes, ℤ, pos, ◌=ₛ◌, if◌then◌else◌, length,
}
use bacs_legacy.Util.Format.{c_str, format}
use bacs_legacy.Util.Number.{i2s}
use bacs_legacy.Util.Replace.{str_replace}
use bacs_legacy.System.{Os, M, ◌>>◌, pure, run_os}
use bacs_legacy.Config.{Settings}

pub data PingType : Type 0 where
  waiting running submit_result completed userterm error : PingType

unfoldable pub ping_code : PingType → ℕ
ping_code waiting = 0
ping_code running = 1
ping_code submit_result = 5
ping_code completed = 2
ping_code userterm = 3
ping_code error = 4

-- `str_replace(result, " ", "_")`, with the fuel that `Util.Replace.Reference` shows to be enough
underscored : Bytes → Bytes
underscored s = elim (str_replace (suc (length s)) s (codes " ") (codes "_")) [
  | none ↦ s
  | some t ↦ t
]

ping_command : Bytes → PingType → Bytes → ℤ → Bytes → Bytes → Bytes
unfolding ping_code
ping_command uri type submit_id test problem_id result = format (
    codes "curl --silent --output /dev/null '"
    ++ (c_str uri
        ++ (codes "?type="
            ++ (i2s (pos (ping_code type))
                ++ (codes "&submit_id="
                    ++ (c_str submit_id
                        ++ (codes "&test="
                            ++ (i2s test
                                ++ (codes "&problem_id="
                                    ++ (c_str problem_id
                                        ++ (codes "&result="
                                            ++ (c_str result ++ codes "'"))))))))))))

module _ (os : Os) (c : Settings) where
  unfoldable pub ping : PingType → Bytes → ℤ → Bytes → Bytes → M os (Unit {0})
  unfolding underscored ping_command
  ping type submit_id test problem_id result = if c.ping_uri =ₛ [] then pure tt else do
    run_os (os.system (ping_command c.ping_uri type submit_id test problem_id (underscored result)))
    pure tt
