-- ===== src/Log/Writer.antt =====
-- log/log.go: `newWriterFromConfig`, where the lines of a logger go.
use fuck.Base.{
  ℕ, Bool, true, false, not, ◌&&◌, Option, Bytes, codes, length, same, ◌==◌, if◌then◌else◌,
}
use fuck.Base.Int.{ℤ, pos}
use fuck.Capacity.Parse.{ok, err, running, parse_capacities}

-- `Config`; the times are in nanoseconds
pub record Config : Type 0 where
  pub level : Option Bytes
  pub format : Option Bytes
  pub file_path : Bytes
  pub file_max_age : ℤ
  pub file_rotation_size : Bytes
  pub file_rotation_time : ℤ

-- an `io.Writer`: one of the three streams, a file that is opened for appending, the writer of
-- file-rotatelogs, or another one, `given`
pub data Writer : Type 0 where
  stdin stdout stderr : Writer
  opened : (path : Bytes) → Writer
  rotating : (path : Bytes) (max_age size rotation_time : ℤ) → Writer
  given : (id : ℕ) → Writer

-- what `os.Stat` says of a path; `is_special` is `Mode()&os.ModeType != 0`
pub data Stat : Type 0 where
  absent failed : Stat
  present : (is_special : Bool) → Stat

-- The file system, and whether file-rotatelogs accepts its arguments.
pub record Files : Type 0 where
  pub stat : Bytes → Stat
  pub can_open : Bytes → Bool
  pub can_rotate : Bytes → ℤ → ℤ → ℤ → Bool

-- `scaled` is the float arithmetic of `ParseCapacities`.
module _ (scaled : ℕ → ℕ → ℕ → ℕ) (files : Files) where
  -- 0 if the text is empty, `0`, or not a capacity
  abbrev pub rotation_size : Bytes → ℤ
  rotation_size size =
      if not (length size == 0) && not (same size (codes "0"))
      then elim (parse_capacities scaled size) [ ok n ↦ n | err e ↦ pos 0 | running ↦ pos 0 ]
      else pos 0

  abbrev pub rotate : Config → Writer
  rotate c =
      let size = rotation_size c.file_rotation_size in
      if files.can_rotate c.file_path c.file_max_age size c.file_rotation_time
      then rotating c.file_path c.file_max_age size c.file_rotation_time
      else stdout

  unfoldable pub new_writer_from_config : Config → Writer
  new_writer_from_config c =
      if length c.file_path == 0
      then stdout
      else if same c.file_path (codes "/dev/stdin")
      then stdin
      else if same c.file_path (codes "/dev/stdout")
      then stdout
      else if same c.file_path (codes "/dev/stderr")
      then stderr
      else elim (files.stat c.file_path) [
        | present true ↦ if files.can_open c.file_path then opened c.file_path else stdout
        | present false ↦ rotate c
        | absent ↦ rotate c
        | failed ↦ stdout
      ]
