-- ===== src/Submission.antt =====
-- The data of `CSubmit` in src/lib/submit.cpp: the row of the database that it is made from, and the
-- query that stores the result.
pub mod Query
use bacs_legacy.Base.{
  ℕ, Bool, true, false, not, Option, none, some, List, [], ◌∷◌, ◌++◌, Bytes, codes, ℤ, pos, negsuc,
  ltb_ℤ, ltb, ◌=ₛ◌, if◌then◌else◌, take, length,
}
use bacs_legacy.Util.Format.{c_str, format}
use bacs_legacy.Util.Number.{i2s}
use bacs_legacy.Def.{Status, status_code, server_error}
use bacs_legacy.Double.{Double}
use bacs_legacy.System.{Os, M, ◌>>=◌, pure, crash}
use bacs_legacy.Config.{Settings}
use bacs_legacy.TempFile.{TempFile, unused}
use bacs_legacy.Database.Engine.{escape}
use bacs_legacy.Database.{db_qres, db_query}

module _ (d : Double) where
  -- `CSubmit`
  pub record Submission : Type 0 where
    pub sid : Bytes
    pub pid : Bytes
    pub lang : Bytes
    pub solution : Bytes
    pub test_results : Bytes
    pub acm : Bool
    pub need_info : Bool
    pub status : Status
    pub test_num_failed : ℤ
    pub info : Bytes
    pub fatal_error : Bool
    pub not_found : Bool
    pub run_file : TempFile
    pub run_cmd : Bytes
    pub max_time : d.Carrier
    pub max_memory : d.Carrier
    pub src_file : TempFile

  -- What the constructor makes without a row; `acm` and `need_info` are not set then.
  unfoldable pub blank : Bytes → Bool → Bool → Submission
  blank sid acm need_info = record {
    sid = sid;
    pid = [];
    lang = [];
    solution = [];
    test_results = [];
    acm = acm;
    need_info = need_info;
    status = server_error;
    test_num_failed = negsuc 0;
    info = [];
    fatal_error = false;
    not_found = true;
    run_file = unused;
    run_cmd = [];
    max_time = d.zero_value;
    max_memory = d.zero_value;
    src_file = unused;
  }

  -- The row of the database; a row that is too short is read behind its end, which is undefined.
  unfoldable pub fill : Submission → List Bytes → Option Submission
  fill s [] = some s
  fill s (pid ∷ lang ∷ solution ∷ need_info ∷ acm ∷ row) = some (record s {
    pid = pid;
    lang = lang;
    solution = solution;
    need_info = need_info =ₛ codes "1";
    acm = not (acm =ₛ codes "0");
    not_found = false;
  })
  fill s row = none

module _ (os : Os) (d : Double) (c : Settings) where
  -- The constructor. What the flags hold that it may leave unset are arguments.
  unfoldable pub new_submit : Bytes → Bool → Bool → M os (Submission d)
  unfolding blank fill
  new_submit sid acm need_info = do
    rr ← db_qres os (
        format (
          codes "select problem_id, lang, solution, need_info, acm from submit where submit_id = "
          ++ c_str sid))
    elim (fill d (blank d sid acm need_info) rr) [ none ↦ crash | some s ↦ pure s ]

  abbrev pub max_info_size : ℕ
  max_info_size = 16384

  -- The text that is stored, which is cut if it is too long.
  unfoldable pub clip_info : Bytes → Bytes
  clip_info info =
      if ltb max_info_size (length info)
      then take max_info_size info ++ codes "\n... too many characters"
      else info

  abbrev failed_text : ℤ → Bytes
  failed_text n = if ltb_ℤ n (pos 0) then codes "NULL" else i2s n

  -- The query of `store_result`, with the text that was escaped.
  unfoldable pub store_query : Submission d → Bytes → Bytes
  store_query s escaped =
      let s_info =
        if s.need_info then format (codes ", info = '" ++ (c_str escaped ++ codes "'")) else [] in
      let behind =
        c_str (failed_text s.test_num_failed)
        ++ (codes ", max_time_used = "
            ++ (d.print_lf s.max_time
                ++ ((if s.acm then codes ", max_memory_used = " else codes ",  max_memory_used = ")
                    ++ (d.print_lf s.max_memory
                        ++ (c_str s_info ++ (codes " where submit_id = " ++ c_str s.sid)))))) in
      format (
        codes "update submit set result = "
        ++ (i2s (pos (status_code s.status))
            ++ (if s.acm
                then codes ", test_num_failed = " ++ behind
                else codes ", school_result = '"
                  ++ (c_str s.test_results ++ (codes "' , test_num_failed=" ++ behind)))))

  unfoldable pub store_result : Submission d → M os (Bool × Submission d)
  unfolding store_query clip_info
  store_result s = do
    escaped ← if s.need_info then escape os (clip_info s.info) else pure []
    stored ← db_query os (store_query s escaped)
    pure (stored, record s { info = clip_info s.info })
