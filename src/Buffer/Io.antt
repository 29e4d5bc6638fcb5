-- ===== src/Buffer/Io.antt =====
-- What package `buffer` relies on: Go's `io.Writer` and `io.Reader`, as values with a state `S`.
-- `IsWriter` and `IsReader` state what their documentation says, `IdlesAtMost` how often a reader
-- returns nothing.
use fuck.Base.{ℕ, ◌≤◌, ◌<◌, ◌≡◌, ◌≢◌, [], ◌++◌, Bytes, length, take, Option, none, some}

-- an `error` value: `io.EOF`, or any other
pub data IoError : Type 0 where
  eof : IoError
  failure : ℕ → IoError

-- `Write(p)`: the number of bytes taken, the error, and the writer afterwards
pub record Written (S : Type 0) : Type 0 where
  pub n : ℕ
  pub err : Option IoError
  pub state : S

abbrev pub Writer : Type 0 → Type 0
Writer S = S → Bytes → Written S

-- `Read(p)` on a slice of the given length: the bytes put into it, the error, the reader afterwards
pub record Got (S : Type 0) : Type 0 where
  pub bytes : Bytes
  pub err : Option IoError
  pub state : S

abbrev pub Reader : Type 0 → Type 0
Reader S = S → ℕ → Got S

-- "It returns the number of bytes written from p (0 <= n <= len(p)) and any error encountered that
-- caused the write to stop early. Write must return a non-nil error if it returns n < len(p)."
-- `sent` is what has gone through the writer.
pub record IsWriter {S : Type 0} (write : Writer S) (sent : S → Bytes) : Type 0 where
  pub taken : (s : S) (p : Bytes) → (write s p).n ≤ length p
  pub appended : (s : S) (p : Bytes) → sent (write s p).state ≡ sent s ++ take (write s p).n p
  pub short : (s : S) (p : Bytes) → (write s p).n < length p → (write s p).err ≢ none

-- A reader over a stream that does not fail: `rest` is what is still to be read. A read takes at most
-- as many bytes as the slice has off its front; no error but `io.EOF` is returned, and `io.EOF`, also
-- beside some bytes, means that nothing is left.
pub record IsReader {S : Type 0} (read : Reader S) (rest : S → Bytes) : Type 0 where
  pub split : (s : S) (k : ℕ) → (read s k).bytes ++ rest (read s k).state ≡ rest s
  pub fits : (s : S) (k : ℕ) → length (read s k).bytes ≤ k
  pub at_end : (s : S) (k : ℕ) → (read s k).err ≡ some eof → rest (read s k).state ≡ []
  pub no_failure : (s : S) (k : ℕ) (e : ℕ) → (read s k).err ≢ some (failure e)

-- A reader that returns 0 bytes and no error, for a slice that is not empty, at most `idle s` times
-- from the state `s` on. `io.Reader` permits such reads and discourages them.
pub record IdlesAtMost {S : Type 0} (read : Reader S) (idle : S → ℕ) : Type 0 where
  pub no_more : (s : S) (k : ℕ) → idle (read s k).state ≤ idle s
  pub used_up :
      (s : S) (k : ℕ)
      → 0 < k
      → (read s k).bytes ≡ []
      → (read s k).err ≡ none
      → idle (read s k).state < idle s
