-- ===== src/Helpers/Wipe.antt =====
-- src/bin/wipe.c: it removes directories with all that is in them.
pub mod Done
use bacs_legacy.Base.{
  ℕ, ◌+◌, ◌/◌, ◌%◌, ◌==◌, Bool, false, Option, none, some, List, [], ◌∷◌, Bytes, pos, ◌==ℤ◌,
  if◌then◌else◌,
}
use bacs_legacy.System.{Os, M, ◌>>=◌, pure, look, run_os}

-- The flag that `nftw` gives with an entry: a directory behind its entries, a file, or another one.
pub data TypeFlag : Type 0 where
  ftw_dp ftw_f other_flag : TypeFlag

-- `res |= bit`, for a power of two
abbrev pub set_bit : ℕ → ℕ → ℕ
set_bit res bit = if (res / bit) % 2 == 1 then res else res + bit

abbrev pub ends_with_slash : Bytes → Bool
ends_with_slash [] = false
ends_with_slash (c ∷ []) = c == b'/'
ends_with_slash (c ∷ s) = ends_with_slash s

-- What `nftw` returns: -1 where it cannot walk, `FTW_STOP`, or 0.
pub data Walked : Type 0 where
  walk_fails walk_stopped walk_ended : Walked

module _ (os : Os) (entries : Bytes → os.World → Option (List (Bytes × TypeFlag))) where
  -- `rm_funct`: false for `FTW_STOP`
  unfoldable pub rm_funct : Bytes → TypeFlag → M os Bool
  rm_funct path ftw_dp = do ret ← run_os (os.rmdir path); pure (ret ==ℤ pos 0)
  rm_funct path ftw_f = do ret ← run_os (os.unlink path); pure (ret ==ℤ pos 0)
  rm_funct path other_flag = pure false

  -- The calls of `rm_funct` by `nftw`, in its order, until one of them stops it.
  walk : List (Bytes × TypeFlag) → M os Walked
  unfolding rm_funct
  walk [] = pure walk_ended
  walk ((path, flag) ∷ rest) = do
    fine ← rm_funct path flag
    if fine then walk rest else pure walk_stopped

  walk_found : Option (List (Bytes × TypeFlag)) → M os Walked
  unfolding walk
  walk_found none = pure walk_fails
  walk_found (some es) = walk es

  nftw : Bytes → M os Walked
  unfolding walk_found
  nftw dir = do found ← look (entries dir); walk_found found

  -- The directory is made again if its name ends with a slash.
  remake : Bytes → ℕ → M os ℕ
  remake dir res =
      if ends_with_slash dir
      then (do
        ret ← run_os (os.mkdir dir 0o755)
        pure (if ret ==ℤ pos 0 then res else set_bit res 4))
      else pure res

  walk_bits : Walked → ℕ → ℕ
  walk_bits walk_ended res = res
  walk_bits walk_stopped res = set_bit res 2
  walk_bits walk_fails res = set_bit res 1

  -- The loop over the arguments.
  unfoldable pub wipe_all : List Bytes → ℕ → M os ℕ
  unfolding nftw remake walk_bits
  wipe_all [] res = pure res
  wipe_all (dir ∷ dirs) res = do
    ret ← nftw dir
    res' ← remake dir res
    wipe_all dirs (walk_bits ret res')

  -- `main`, with the arguments behind the name of the program.
  unfoldable pub main : List Bytes → M os ℕ
  unfolding wipe_all
  main [] = pure 1
  main (dir ∷ dirs) = wipe_all (dir ∷ dirs) 0
