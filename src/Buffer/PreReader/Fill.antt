-- ===== src/Buffer/PreReader/Fill.antt =====
-- `NewPreReader`: its loop ends, and the buffer is the front of the stream.
use fuck.Base.{
  inl, inr, ℕ, zero, suc, ◌+◌, ◌-◌, ◌≤◌, ◌<◌, ◌≡◌, refl, ap, ◌∙◌, [], ◌++◌, append_assoc,
  append-nil, none, some, Bytes, length, take, arith, length-append, take_all, take-append, dec_lt,
  take-nil, List-cases, Option-cases,
}
use fuck.Base.Int.{pos}
use fuck.Buffer.Io.{eof, failure, Reader, IsReader, IdlesAtMost}
use fuck.Buffer.PreReader.{PreReader, buffer, after_error, fill, new_pre_reader}
use fuck.Buffer.PreReader.Laws.{remaining, IsValid}

module _ {S : Type 0} (read : Reader S) (rest : S → Bytes) (law : IsReader read rest) (idle : S → ℕ)
    (idles : IdlesAtMost read idle) where
  -- what the loop of `NewPreReader` returns, started from `r`
  abbrev Filled : PreReader S → ℕ → PreReader S → Type 0
  Filled r m r' =
      IsValid read rest law r' m
      × (r'.buf_idx ≡ 0)
      × (r'.buf ++ rest r'.source ≡ r.buf ++ rest r.source)

  fill-Filled :
      (fuel : ℕ) (r : PreReader S) (i m : ℕ)
      → i ≡ length r.buf
      → i ≤ m
      → r.buf_idx ≡ 0
      → r.max_len ≡ pos m
      → m + idle r.source < fuel + i
      → (r' : PreReader S) × (fill read fuel r i ≡ some (r', none)) × Filled r m r'
  unfolding fill after_error
  fill-Filled zero r i m ei le z l f = absurd (omega arith)
  fill-Filled (suc fuel) r i m ei le z l f = elim (dec_lt i m) [
    | no h ↦ (
      r,
      ground arith,
      (
        record {
          limit = l;
          idx_in = omega arith;
          buf_in = omega arith;
          drained = λ h'. absurd (omega arith);
        },
        z,
        refl,
      ),
    )
    | yes h ↦
        let got = read r.source (m - i) in
        elim (List-cases got.bytes) [
          | inl nil ↦
              let same_rest = ap (λ t. r.buf ++ t) (rw nil at (law.split r.source (m - i))) in
              elim (Option-cases got.err) [
                | inl quiet ↦
                    let (r', e, filled) =
                      fill-Filled fuel (record r { source = got.state }) i m ei le z l
                        (omega (arith, idles.used_up r.source (m - i) (omega arith) nil quiet)) in
                    (r', ground arith, (filled.0, filled.1, filled.2 ∙ same_rest))
                | inr (eof, at_eof) ↦ (
                  record r { source = got.state },
                  ground arith,
                  (
                    record {
                      limit = l;
                      idx_in = omega arith;
                      buf_in = omega arith;
                      drained = λ _. law.at_end r.source (m - i) at_eof;
                    },
                    z,
                    same_rest,
                  ),
                )
                | inr (failure n, failed) ↦ absurd (law.no_failure r.source (m - i) n failed)
              ]
          | inr (x, xs, cons) ↦
              let (r', e, filled) =
                fill-Filled fuel (record r { source = got.state; buf = r.buf ++ got.bytes })
                  (i + length got.bytes) m (omega (arith, length-append r.buf got.bytes))
                  (omega (arith, law.fits r.source (m - i))) z l
                  (omega (arith, ap length cons, idles.no_more r.source (m - i))) in
              (
                r',
                ground arith,
                (
                  filled.0,
                  filled.1,
                  filled.2
                      ∙ append_assoc r.buf got.bytes (rest got.state)
                      ∙ ap (λ t. r.buf ++ t) (law.split r.source (m - i)),
                ),
              )
        ]
  ]

  first_bytes :
      (m : ℕ) (b t s : Bytes) → b ++ t ≡ s → length b ≤ m → (length b < m → t ≡ []) → b ≡ take m s
  first_bytes m b t s e le rest_nil =
      rw (← e, take-append m b t, take_all m b le)
        (elim (dec_lt (length b) m) [
          | yes h ↦ rw (rest_nil h, take-nil, append-nil)
          | no h ↦ let z : m - length b ≡ 0 = omega arith in rw (z, append-nil)
        ])

  -- On a reader that does not fail and that returns 0 bytes without an error a limited number of times
  -- only, `NewPreReader` stops, without an error, within `maxLen + 1` reads and one more for each of
  -- these. Its buffer holds the first `maxLen` bytes of the stream, and all of the stream is still to
  -- come.
  pub new_pre_reader_lem :
      (fuel m : ℕ) (s : S)
      → m + idle s < fuel
      → (r : PreReader S) × (new_pre_reader read fuel s (pos m) ≡ some (r, none))
        × IsValid read rest law r m
        × (buffer r ≡ take m (rest s))
        × (remaining read rest law r ≡ rest s)
  unfolding new_pre_reader buffer
  new_pre_reader_lem fuel m s f =
      let (r, e, filled) =
        fill-Filled fuel (record { source = s; buf = []; buf_idx = 0; max_len = pos m }) 0 m refl
          (omega arith) refl refl (omega arith) in
      (
        r,
        e,
        filled.0,
        first_bytes m r.buf (rest r.source) (rest s) filled.2 filled.0.buf_in filled.0.drained,
        rw (filled.1) filled.2,
      )
