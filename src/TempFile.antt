-- ===== src/TempFile.antt =====
-- src/lib/tempfiles.cpp with `CTempFile` of include/bacs/legacy/tempfiles.hpp, and the file helpers of
-- src/lib/util.cpp that it uses.

pub mod Names
pub mod Trace
pub mod Owned
pub mod Gone
use bacs_legacy.Base.{
  ℕ, zero, suc, ◌+◌, ◌-◌, ◌*◌, ◌/◌, ◌^◌, Bool, true, false, not, ◌||◌, ◌&&◌, Option, none, some, [],
  ◌∷◌, ◌++◌, Bytes, codes, ℤ, pos, ltb, ltb_ℤ, ◌==ℤ◌, pos_part, to_int, if◌then◌else◌, length, take,
}
use bacs_legacy.Util.Number.{i2s}
use bacs_legacy.System.{
  Os, Server, M, Outcome, returned, crashed, ◌>>=◌, ◌>>◌, pure, crash, look, run_os, try_os,
}
use bacs_legacy.Config.{Settings, cfg}

-- `RAND_MAX` of the C library
abbrev pub rand_max : ℕ
rand_max = 2 ^ 31 - 1

-- `(int)((double)rnd / RAND_MAX * max_num)`. The quotient is rounded towards 0; since `RAND_MAX` is a
-- prime, the arithmetic of `double` rounds no product across an integer for these small numbers.
pub scale : ℕ → ℕ → ℕ
scale rnd max_num = rnd * max_num / rand_max

-- `random_char` for a random number
pub char_of : ℕ → ℕ
unfolding scale
char_of rnd = let x = scale rnd 36 in if ltb x 10 then b'0' + x else b'a' + (x - 10)

-- `while (s.length() < 7) s = "0" + s;`
pad : ℕ → Bytes → Bytes
pad zero s = s
pad (suc n) s = b'0' ∷ pad n s

-- The name of one round, without the directory.
unfoldable pub temp_name : ℕ → ℕ → ℕ → Bytes
unfolding pad char_of
temp_name k r₁ r₂ = let s = i2s (pos k) ++ (char_of r₁ ∷ char_of r₂ ∷ []) in pad (7 - length s) s

pub record TempFile : Type 0 where
  pub name : Bytes
  pub file_created : Bool

abbrev pub unused : TempFile
unused = record { name = []; file_created = false }

abbrev pub assign : Bytes → TempFile
assign filename = record { name = filename; file_created = true }

abbrev pub detach : TempFile → TempFile
detach t = record t { file_created = false }

-- `int size = sz; if (max_size && size > max_size) size = max_size;` for a file of `sz` bytes
unfoldable pub read_size : ℤ → ℕ → ℤ
read_size max_size sz =
    let size = to_int (pos sz) in
    if not (max_size ==ℤ pos 0) && ltb_ℤ max_size size then max_size else size

module _ (os : Os) where
  -- `file_exists`: what `stat` finds and is no directory
  unfoldable pub file_exists : Bytes → os.World → Bool
  file_exists fn w = elim (os.stat fn w) [ none ↦ false | some is_dir ↦ not is_dir ]

  -- `remove(filename) != 0`: true where the removal FAILED
  unfoldable pub delete_file : Bytes → M os Bool
  delete_file fn = do ret ← run_os (os.remove fn); pure (not (ret ==ℤ pos 0))

module _ (os : Os) where
  write_named : TempFile → Bytes → Bytes → M os (Bool × TempFile)
  write_named t source fn s = elim (os.write_file fn source s.world) [
    | none ↦ (returned (false, t), s)
    | some w ↦ (returned (true, assign fn), record s { world = w })
  ]

module _ (os : Os) (c : Settings) where
  abbrev pub in_temp_dir : Bytes → Bytes
  in_temp_dir s = cfg c (codes "general.temp_dir") ++ (codes "/_" ++ (s ++ codes ".tmp"))

  -- One round of the loop: a name, from the counter and two random numbers.
  unfoldable pub candidate : Server os → Bytes × Server os
  candidate s =
      let (r₁, w₁) = os.random s.world in
      let (r₂, w₂) = os.random w₁ in
      (in_temp_dir (temp_name s.counter r₁ r₂), record s { world = w₂; counter = s.counter + 1 })

  -- The loop, on fuel; where the fuel runs out the model ends as if by a crash.
  unique_loop : ℕ → M os Bytes
  unfolding candidate file_exists
  unique_loop zero s = (crashed, s)
  unique_loop (suc fuel) s =
      let (fn, s') = candidate s in
      let again = unique_loop fuel s' in
      if file_exists os fn s'.world then again else (returned fn, s')

  unfoldable pub gen_unique_filename : M os Bytes
  unfolding unique_loop
  gen_unique_filename = unique_loop c.attempts

  -- `create`: whether the file was made, and the new object
  unfoldable pub create : TempFile → Bytes → M os (Bool × TempFile)
  unfolding gen_unique_filename write_named
  create t source = do fn ← gen_unique_filename; write_named os t source fn

module _ (os : Os) where
  -- `erase`, which the destructor calls too
  unfoldable pub erase : TempFile → M os (Bool × TempFile)
  unfolding delete_file file_exists
  erase t =
      if t.file_created
      then (do
        failed ← delete_file os t.name
        there ← look (file_exists os t.name)
        pure (failed || not there, detach t))
      else pure (true, t)

  -- An array of negative length is an exception.
  unfoldable pub read : TempFile → ℤ → M os Bytes
  unfolding read_size
  read t max_size =
      if t.file_created
      then (do
        opened ← look (os.read_file t.name)
        elim opened [
          | none ↦ pure []
          | some s ↦
              let size = read_size max_size (length s) in
              if ltb_ℤ size (pos 0) then crash else pure (take (pos_part size) s)
        ])
      else pure []
