-- ===== src/Storage/Disk.antt =====
-- The files of the operating system, as os.File offers them: contents by path, and what an open or
-- a write may refuse.
use stor.Prelude.{
  ℕ, zero, suc, ◌-◌, Bool, if◌then◌else◌, [], ◌∷◌, ◌++◌, Option, none, some, length, take,
  replicate,
}
use stor.Prelude.Words.{Bytes}
use stor.Bencode.Value.{str_eq}

-- `none` is a file that does not exist.
abbrev pub Disk : Type 0
Disk = Bytes → Option Bytes

-- Whether a path may be opened, how much of a write of some length at some offset is taken, and
-- whether a truncation succeeds.
pub record Os : Type 0 where
  pub opens : Bytes → Bool
  pub takes : Bytes → ℕ → ℕ → ℕ
  pub truncates : Bytes → ℕ → Bool

abbrev pub put_file : Bytes → Bytes → Disk → Disk
put_file path contents d p = if str_eq path p then some contents else d p

abbrev pub contents_or_empty : Option Bytes → Bytes
contents_or_empty none = []
contents_or_empty (some c) = c

-- What a file holds after a write at an offset: a gap is filled with zeros.
unfoldable pub overwrite : Bytes → ℕ → Bytes → Bytes
overwrite [] zero new = new
overwrite [] (suc k) new = 0 ∷ overwrite [] k new
overwrite (b ∷ c) zero [] = b ∷ c
overwrite (b ∷ c) zero (n ∷ new) = n ∷ overwrite c zero new
overwrite (b ∷ c) (suc k) new = b ∷ overwrite c k new

unfoldable pub resize : ℕ → Bytes → Bytes
resize n c = take n c ++ replicate (n - length c) 0
