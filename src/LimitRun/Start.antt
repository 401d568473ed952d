-- ===== src/LimitRun/Start.antt =====
-- The arguments of src/bin/limit_run.cpp, and the limits that the child sets before it runs the
-- program.
pub mod Java
use bacs_legacy.Base.{
  ℕ, suc, ◌+◌, ◌-◌, ◌*◌, ◌/◌, ◌%◌, ◌^◌, Bool, Option, none, some, List, [], ◌∷◌, ◌++◌, Bytes, codes,
  ℤ, pos, negsuc, ◌==ℤ◌, ◌=ₛ◌, if◌then◌else◌,
}
use bacs_legacy.Util.{name_from_filename}
use bacs_legacy.Util.Number.{i2s, s2i}

pub record Launch : Type 0 where
  pub cwd : Bytes
  pub in_fn : Bytes
  pub out_fn : Bytes
  pub time_limit : ℤ
  pub memory_limit : ℤ
  pub redirect_stderr : Bool
  pub executable : Bytes
  pub argv : List Bytes

-- A `std::string` is made of the null pointer that ends `args` where seven arguments are given.
pub data Start : Type 0 where
  usage_error : Start
  null_executable : Start
  launch : Launch → Start

abbrev pub java_run : Bytes
java_run = codes "java_run"

-- A Java program gets the memory limit as options of the virtual machine, and no other limit.
for_java : Launch → List Bytes → Launch
for_java l arguments = record l {
  memory_limit = pos 0;
  argv =
      l.executable
      ∷ (codes "-Xmx" ++ i2s l.memory_limit)
      ∷ (codes "-Xss" ++ i2s l.memory_limit)
      ∷ arguments;
}

-- Up to the `fork`; the arguments are `args`, with the program's name.
unfoldable pub start : List Bytes → Start
unfolding for_java
start (name ∷ cwd ∷ in_fn ∷ out_fn ∷ tl ∷ ml ∷ redirect ∷ executable ∷ arguments) =
    let l : Launch = record {
      cwd = cwd;
      in_fn = in_fn;
      out_fn = out_fn;
      time_limit = s2i tl (pos 0);
      memory_limit = s2i ml (pos 0);
      redirect_stderr = redirect =ₛ codes "yes";
      executable = executable;
      argv = executable ∷ arguments;
    } in
    launch (if name_from_filename executable =ₛ java_run then for_java l arguments else l)
start (name ∷ cwd ∷ in_fn ∷ out_fn ∷ tl ∷ ml ∷ redirect ∷ []) = null_executable
start args = usage_error

-- `MEMORY_LIMIT` and `OUTPUT_LIMIT`
abbrev pub address_limit : ℕ
address_limit = 1536 * 1024 * 1024

abbrev pub output_limit : ℕ
output_limit = 256 * 1024 * 1024

-- The calls of `setrlimit`, with the soft and the hard limit; `none` where the call is not made, and
-- the stack is not limited.
pub record Limits : Type 0 where
  pub address_space : Option (ℕ × ℕ)
  pub cpu : Option (ℕ × ℕ)
  pub file_size : ℕ × ℕ

-- `time_limit / 1000 + 1` as an `rlim_t` of 64 bits; the division of C++ rounds towards 0.
unfoldable pub cpu_seconds : ℤ → ℕ
cpu_seconds (pos n) = n / 1000 + 1
cpu_seconds (negsuc n) = (2 ^ 64 + 1 - suc n / 1000) % 2 ^ 64

unfoldable pub child_limits : Launch → Limits
unfolding cpu_seconds
child_limits l = record {
  address_space = if l.memory_limit ==ℤ pos 0 then none else some (address_limit, address_limit);
  cpu =
      if l.time_limit ==ℤ pos 0
      then none
      else some (cpu_seconds l.time_limit, (cpu_seconds l.time_limit + 1) % 2 ^ 64);
  file_size = (output_limit, output_limit);
}
