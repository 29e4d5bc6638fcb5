-- ===== src/Buffer/Limit.antt =====
-- buffer/limit.go: `LimitedWriter`, its options, and `Write`.
pub mod Laws
use fuck.Base.{
  ℕ, ◌≡◌, Bool, true, false, List, [], ◌∷◌, ◌++◌, Option, none, some, Bytes, length, take, ltb,
  if◌then◌else◌,
}
use fuck.Base.Int.{ℤ, pos, ◌-ℤ◌, pos_part, leb_ℤ, ltb_ℤ}
use fuck.Buffer.Io.{IoError, eof, Writer, Written}

-- `w` is the state of the wrapped writer `W`; `n` is `N`, the bytes that are left.
pub record LimitedWriter (S : Type 0) : Type 0 where
  pub w : S
  pub n : ℤ
  pub max_n : ℤ
  pub ignore_error : Bool

-- `p` cut to what is left: `p[0:l.N]` if `int64(len(p)) > l.N`
abbrev pub cut : ℤ → Bytes → Bytes
cut n p = if ltb_ℤ n (pos (length p)) then take (pos_part n) p else p

module _ {S : Type 0} where
  pub limit_writer_ignore_error : LimitedWriter S → LimitedWriter S
  limit_writer_ignore_error lw = record lw { ignore_error = true }

  apply_options : List (LimitedWriter S → LimitedWriter S) → LimitedWriter S → LimitedWriter S
  apply_options [] lw = lw
  apply_options (option ∷ options) lw = apply_options options (option lw)

  unfoldable pub limit_writer : S → ℤ → List (LimitedWriter S → LimitedWriter S) → LimitedWriter S
  unfolding apply_options
  limit_writer w n options =
      apply_options options (record { w = w; n = n; max_n = n; ignore_error = false })

  module _ (w_write : Writer S) where
    -- the body up to the test of `ignoreError`
    pub write_through : LimitedWriter S → Bytes → Written (LimitedWriter S)
    write_through l p =
        let r = w_write l.w (cut l.n p) in
        if leb_ℤ l.n (pos 0)
        then record { n = 0; err = some eof; state = l }
        else record { n = r.n; err = r.err; state = record l { w = r.state; n = l.n -ℤ pos r.n } }

    unfoldable pub write : Writer (LimitedWriter S)
    unfolding write_through
    write l p =
        let r = write_through l p in
        if l.ignore_error then record { n = length p; err = none; state = r.state } else r
