-- ===== src/Def/Names.antt =====
-- `status_to_str` of src/lib/helper.cpp, on the number of a status.
use Prim.Native.String.{String}
use text.Mathlib.Text.{◌==◌ as str_eq}
use bacs_legacy.Base.{
  Bytes, codes, List, [], ◌∷◌, ap, ℕ, ◌≡◌, refl, Option, none, some, ◌==◌, if◌then◌else◌,
}
use bacs_legacy.Def.{
  Status, server_error, accepted, compile_error, memory_limit, time_limit, runtime_error,
  wrong_answer, presentation_error, security_violation, invalid_problem, realtime_limit,
  output_limit, compile_time_limit, pending, running, invalid_lang, checker_error, status_code,
}

-- The status that has a number: the labels of the `switch`.
status_of_code : ℕ → Option Status
status_of_code n =
    if n == 0
    then some server_error
    else if n == 1
    then some accepted
    else if n == 2
    then some compile_error
    else if n == 3
    then some memory_limit
    else if n == 4
    then some time_limit
    else if n == 5
    then some runtime_error
    else if n == 6
    then some wrong_answer
    else if n == 7
    then some presentation_error
    else if n == 8
    then some security_violation
    else if n == 9
    then some invalid_problem
    else if n == 10
    then some realtime_limit
    else if n == 11
    then some output_limit
    else if n == 12
    then some compile_time_limit
    else if n == 100
    then some pending
    else if n == 101
    then some running
    else if n == 102
    then some invalid_lang
    else if n == 103
    then some checker_error
    else none

name : Status → String
name server_error = "Internal server error"
name accepted = "Accepted"
name compile_error = "Compilation error"
name memory_limit = "Memory limit exceeded"
name time_limit = "Time limit exceeded"
name runtime_error = "Runtime error"
name wrong_answer = "Wrong answer"
name presentation_error = "Presentation error"
name security_violation = "Security violation"
name invalid_problem = "Invalid problem id"
name realtime_limit = "Real time limit exceeded"
name pending = "Pending check"
name running = "Running"
name output_limit = "Output limit exceeded"
name compile_time_limit = "Compilation time limit exceeded"
name invalid_lang = "Invalid language"
name checker_error = "Checker error"

pub status_to_str : ℕ → String
unfolding name status_of_code
status_to_str n = elim (status_of_code n) [ some s ↦ name s | none ↦ "Unknown" ]

-- The text of a status, as bytes.
unfoldable pub status_text : Status → Bytes
status_text s = codes (status_to_str (status_code s))

abbrev statuses : List Status
statuses =
    server_error ∷ accepted ∷ compile_error ∷ memory_limit ∷ time_limit ∷ runtime_error
    ∷ wrong_answer ∷ presentation_error ∷ security_violation ∷ invalid_problem ∷ realtime_limit
    ∷ output_limit ∷ compile_time_limit ∷ pending ∷ running ∷ invalid_lang ∷ checker_error ∷ []

-- The first status in a list that is printed as `s`.
named : String → List Status → Option Status
named s [] = none
named s (t ∷ ts) = if str_eq (name t) s then some t else named s ts

status_of_code-status_code : (s : Status) → status_of_code (status_code s) ≡ some s
unfolding status_of_code status_code
status_of_code-status_code server_error = refl
status_of_code-status_code _ = refl

named-name : (s : Status) → named (name s) statuses ≡ some s
unfolding named name
named-name server_error = refl
named-name _ = refl

status_to_str-name : (s : Status) → status_to_str (status_code s) ≡ name s
unfolding status_to_str
status_to_str-name s = rw (status_of_code-status_code s, status_to_str)

-- Two statuses with the same text are the same: the text that is sent for a result says which
-- result it is.
status_to_str_injective :
    (s t : Status) → status_to_str (status_code s) ≡ status_to_str (status_code t) → s ≡ t
status_to_str_injective s t h =
    let e : named (name s) statuses ≡ named (name t) statuses =
      ap (λ x. named x statuses) (cc (status_to_str-name s, status_to_str-name t)) in
    cc (named-name s, named-name t)
