-- ===== src/Log.antt =====
-- `CLogEngine` of src/lib/log.cpp.
pub mod Output
use bacs_legacy.Base.{
  Bool, true, false, not, ◌&&◌, Option, none, some, List, [], ◌∷◌, ◌++◌, Bytes, codes, ℤ, ◌=ₛ◌,
  if◌then◌else◌,
}
use bacs_legacy.Util.{get_time_str}
use bacs_legacy.Util.Number.{i2s}
use bacs_legacy.Util.Format.{c_str, format}
use bacs_legacy.System.{LogEntryData}

-- `FILE *f`: the null pointer, with which the global object starts, an open file, or a closed one
pub data Handle : Type 0 where
  null opened closed : Handle

-- The object, and what was written to the console and to the file.
pub record LogEngine : Type 0 where
  pub is_init : Bool
  pub is_cout : Bool
  pub is_fout : Bool
  pub f : Handle
  pub console : Bytes
  pub file : Bytes

abbrev pub new_log : LogEngine
new_log = record {
  is_init = false;
  is_cout = false;
  is_fout = false;
  f = null;
  console = [];
  file = [];
}

abbrev pub is_open : Handle → Bool
is_open opened = true
is_open _ = false

-- `fclose` of a handle that is open; else the behaviour is undefined, which is `none`.
close_file : LogEngine → Option LogEngine
close_file l = if is_open l.f then some (record l { f = closed; is_init = false }) else none

unfoldable pub close : LogEngine → Option LogEngine
unfolding close_file
close l =
    if l.is_init
    then (if l.is_fout then close_file l else some (record l { is_init = false }))
    else some l

-- The modes of `log.output`.
modes : Bytes → Option (Bool × Bool)
modes s =
    if s =ₛ codes "none"
    then some (false, false)
    else if s =ₛ codes "console"
    then some (true, false)
    else if s =ₛ codes "file"
    then some (false, true)
    else if s =ₛ codes "both"
    then some (true, true)
    else none

-- Opening the file, where it is wanted; `can_open` says whether `fopen` succeeds.
open_log : Bool → LogEngine → Bool × LogEngine
open_log can_open l =
    if l.is_fout
    then (if can_open
        then (true, record l { f = opened; is_init = true })
        else (false, record l { f = null }))
    else (true, record l { is_init = true })

-- `init`, with the value of `log.output`
unfoldable pub init : Bytes → Bool → LogEngine → Option (Bool × LogEngine)
unfolding close open_log modes
init output can_open l = elim (close l) [
  | none ↦ none
  | some l' ↦ elim (modes output) [
    | none ↦ some (false, l')
    | some (cout, fout) ↦ some (open_log can_open (record l' { is_cout = cout; is_fout = fout }))
  ]
]

-- The lines of an entry's data.
data_lines : LogEntryData → Bytes
data_lines [] = []
data_lines ((key, value) ∷ entry) =
    format (codes "    " ++ (c_str key ++ (codes ": " ++ (c_str value ++ codes "\n"))))
    ++ data_lines entry

-- The text of an entry; the first argument is what `asctime` gives at the call.
unfoldable pub entry_text : Bytes → Bytes → LogEntryData → Bytes
unfolding data_lines
entry_text asctime text entry =
    format
      (codes "\n[" ++ (c_str (get_time_str asctime) ++ (codes "] " ++ (c_str text ++ codes "\n"))))
    ++ data_lines entry

-- The two writes, both under `if (is_cout)`.
write : Bytes → LogEngine → Option LogEngine
write s l =
    if not l.is_cout
    then some l
    else if is_open l.f
    then some (record l { console = l.console ++ c_str s; file = l.file ++ c_str s })
    else none

-- The part of `add` behind `if (!is_init) init();`
add_ready : Bytes → Bytes → LogEntryData → LogEngine → Option LogEngine
unfolding write
add_ready asctime text entry l =
    if not l.is_cout && not l.is_fout then some l else write (entry_text asctime text entry) l

-- `add`; the configuration and the text of `asctime` are arguments.
unfoldable pub add : Bytes → Bool → Bytes → Bytes → LogEntryData → LogEngine → Option LogEngine
unfolding init add_ready
add output can_open asctime text entry l =
    if l.is_init then add_ready asctime text entry l else elim (init output can_open l) [
      | none ↦ none
      | some (done, l') ↦ add_ready asctime text entry l'
    ]

-- `add_error` puts the place in the source behind the data.
unfoldable pub add_error :
    Bytes → Bool → Bytes → Bytes → ℤ → Bytes → LogEntryData → LogEngine → Option LogEngine
unfolding add
add_error output can_open asctime file line text entry l =
    add output can_open asctime text
      (entry ++ (codes "Source", file ++ (codes ", line " ++ i2s line)) ∷ []) l

keep_pair : Bytes × Bytes → LogEntryData → LogEntryData
keep_pair (key, value) rest = if key =ₛ [] then rest else (key, value) ∷ rest

-- `gen_data`: the pairs whose key is not empty
unfoldable pub gen_data :
    Bytes × Bytes → Bytes × Bytes → Bytes × Bytes → Bytes × Bytes → LogEntryData
unfolding keep_pair
gen_data p₀ p₁ p₂ p₃ = keep_pair p₀ (keep_pair p₁ (keep_pair p₂ (keep_pair p₃ [])))

-- `add_working_notify`
unfoldable pub add_working_notify : LogEngine → LogEngine
add_working_notify l =
    if l.is_init && l.is_cout then record l { console = l.console ++ codes "." } else l
