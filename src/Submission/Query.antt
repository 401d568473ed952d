-- ===== src/Submission/Query.antt =====
-- The text of the query that stores a result: `store_result` of src/lib/submit.cpp.
use bacs_legacy.Base.{
  ℕ, zero, suc, ◌<◌, ◌-◌, ◌≡◌, ◌∙◌, refl, ap, sym, Bool, true, false, [], ◌∷◌, ◌++◌, append_assoc,
  Bytes, codes, pos, length, take, if◌then◌else◌, arith,
}
use bacs_legacy.Util.Format.{c_str, format, max_big_buf}
use bacs_legacy.Util.Number.{i2s}
use bacs_legacy.Def.{status_code}
use bacs_legacy.Double.{Double}
use bacs_legacy.System.{Os}
use bacs_legacy.Config.{Settings}
use bacs_legacy.Submission.{Submission, failed_text, store_query}

take_short : (n : ℕ) (s : Bytes) → length (take n s) < n → take n s ≡ s
take_short zero s h = absurd (omega arith)
take_short (suc n) [] h = refl
take_short (suc n) (b ∷ s) h = ap (λ r. b ∷ r) (take_short n s (omega arith))

-- A text that did not fill the buffer was not cut.
format_short : (s : Bytes) → length (format s) < max_big_buf - 1 → format s ≡ s
unfolding format
format_short s h = take_short (max_big_buf - 1) s h

-- The text ends with `tail`.
abbrev EndsWith : Bytes → Bytes → Type 0
EndsWith tail s = (front : Bytes) × (s ≡ front ++ tail)

before : (a tail s : Bytes) → EndsWith tail s → EndsWith tail (a ++ s)
before a tail s (front, e) = (a ++ front, ap (λ r. a ++ r) e ∙ sym (append_assoc a front tail))

-- The part behind the status, for an ACM submission and for a school one.
rest_ends :
    (acm : Bool) (results tail behind : Bytes)
    → EndsWith tail behind
    → (more : Bytes) × ((if acm
          then codes ", test_num_failed = " ++ behind
          else codes ", school_result = '" ++ (results ++ (codes "' , test_num_failed=" ++ behind)))
        ≡ codes ", " ++ (more ++ tail))
rest_ends true results tail behind h =
    let (more, e) = before (codes "test_num_failed = ") tail behind h in
    (more, ap (λ r. codes ", " ++ r) e)
rest_ends false results tail behind h =
    let (more, e) =
      before (codes "school_result = '") tail (results ++ (codes "' , test_num_failed=" ++ behind))
        (before results tail (codes "' , test_num_failed=" ++ behind)
          (before (codes "' , test_num_failed=") tail behind h)) in
    (more, ap (λ r. codes ", " ++ r) e)

-- The numbers and the text in between.
fields_end :
    (failed time used memory info tail : Bytes)
    → EndsWith tail
        (failed ++ (codes ", max_time_used = " ++ (time ++ (used ++ (memory ++ (info ++ tail))))))
fields_end failed time used memory info tail = before failed tail _ (
    before (codes ", max_time_used = ") tail _ (
      before time tail _
        (before used tail _ (before memory tail _ (before info tail tail ([], refl))))))

module _ (os : Os) (d : Double) (c : Settings) where
  -- A query that did not fill the buffer of `format` is an update of the table of the submissions: it
  -- sets the result to the number of the status of the submission, and ends with the condition that
  -- the number of the row is the one of the submission.
  pub store_query-names :
      (s : Submission d) (escaped : Bytes)
      → length (store_query os d c s escaped) < max_big_buf - 1
      → (more : Bytes) × (store_query os d c s escaped
          ≡ codes "update submit set result = "
            ++ (i2s (pos (status_code s.status))
                ++ (codes ", " ++ (more ++ (codes " where submit_id = " ++ c_str s.sid)))))
  unfolding store_query
  store_query-names s escaped h =
      let info =
        c_str (
          if s.need_info
          then format (codes ", info = '" ++ (c_str escaped ++ codes "'"))
          else []) in
      let tail = codes " where submit_id = " ++ c_str s.sid in
      let used = if s.acm then codes ", max_memory_used = " else codes ",  max_memory_used = " in
      let (more, e) = rest_ends s.acm (c_str s.test_results) tail _ (
        fields_end (c_str (failed_text os d c s.test_num_failed)) (d.print_lf s.max_time) used
          (d.print_lf s.max_memory) info tail) in
      (
        more,
        format_short _ h
            ∙ ap
                (λ r.
                  codes "update submit set result = " ++ (i2s (pos (status_code s.status)) ++ r))
                e,
      )
