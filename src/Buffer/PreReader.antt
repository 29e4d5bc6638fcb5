-- ===== src/Buffer/PreReader.antt =====
-- buffer/pre_reader.go: `preReader`, `NewPreReader` and the methods.
pub mod Laws
pub mod Fill
use fuck.Base.{
  min, ℕ, zero, suc, ◌+◌, ◌-◌, Bool, true, false, List, [], ◌∷◌, ◌++◌, Option, none, some, Bytes,
  length, take, drop, ltb, leb, if◌then◌else◌, ◌≡◌, refl,
}
use fuck.Base.Int.{ℤ, pos, negsuc, pos_part, leb_ℤ, ltb_ℤ}
use fuck.Buffer.Io.{IoError, eof, failure, Reader, Got}

-- `source` is the state of the embedded `io.ReadCloser`.
pub record PreReader (S : Type 0) : Type 0 where
  pub source : S
  pub buf : Bytes
  pub buf_idx : ℕ
  pub max_len : ℤ

module _ {S : Type 0} where
  module _ (read : Reader S) where
    -- `Read(p)` on a slice of length `k`
    unfoldable pub read_pre : Reader (PreReader S)
    read_pre r k =
        let got = read r.source k in
        let n = min k (length r.buf - r.buf_idx) in
        if leb_ℤ r.max_len (pos r.buf_idx)
        then record { bytes = got.bytes; err = got.err; state = record r { source = got.state } }
        else if leb (length r.buf) r.buf_idx
        then record { bytes = []; err = some eof; state = r }
        else record {
          bytes = take k (drop r.buf_idx r.buf);
          err = none;
          state = record r { buf_idx = r.buf_idx + n };
        }

    -- `break` on `io.EOF`, `return r, err` on any other error
    after_error : IoError → PreReader S → PreReader S × Option IoError
    after_error eof r = (r, none)
    after_error (failure e) r = (r, some (failure e))

    -- the loop of `NewPreReader` from `i = len(r.buf)`; `none` while it is still running
    fill : ℕ → PreReader S → ℕ → Option (PreReader S × Option IoError)
    fill zero r i = none
    fill (suc fuel) r i =
        let got = read r.source (pos_part r.max_len - i) in
        let r' = record r { source = got.state } in
        let more =
          fill fuel (record r { source = got.state; buf = r.buf ++ got.bytes })
            (i + length got.bytes) in
        if ltb_ℤ (pos i) r.max_len
        then elim got.bytes [
          | [] ↦ elim got.err [ none ↦ fill fuel r' i | some e ↦ some (after_error e r') ]
          | _ ∷ _ ↦ more
        ]
        else some (r, none)

    unfoldable pub new_pre_reader : ℕ → S → ℤ → Option (PreReader S × Option IoError)
    unfolding fill after_error
    new_pre_reader fuel reader max_len =
        fill fuel (record { source = reader; buf = []; buf_idx = 0; max_len = max_len }) 0

  -- `Close` drops the buffer, then closes the embedded reader with `close`.
  pub close_pre : (S → Option IoError × S) → PreReader S → Option IoError × PreReader S
  close_pre close r =
      let (err, s) = close r.source in
      (err, record { source = s; buf = []; buf_idx = 0; max_len = pos 0 })

  -- `Buffer` and `String`
  pub buffer : PreReader S → Bytes
  buffer r = r.buf
