-- ===== src/Buffer/PreReader/Laws.antt =====
-- A `preReader` gives the same bytes as the reader that it wraps, and shows the first of them.
use fuck.Base.{
  ℕ, ◌+◌, ◌-◌, ◌≤◌, ◌<◌, ◌≡◌, refl, sym, ap, ◌∙◌, [], ◌++◌, append_assoc, none, some, Bytes, length,
  take, drop, arith, min, length-take, drop-drop, dec_lt, drop_all, length-drop, split_at_min,
}
use fuck.Base.Int.{pos}
use fuck.Buffer.Io.{eof, Reader, IsReader}
use fuck.Buffer.PreReader.{PreReader, read_pre}

module _ {S : Type 0} (read : Reader S) (rest : S → Bytes) (law : IsReader read rest) where
  -- the bytes that are still to come out of `r`
  abbrev pub remaining : PreReader S → Bytes
  remaining r = drop r.buf_idx r.buf ++ rest r.source

  -- The buffer is full, or the source has come to its end.
  pub record IsValid (r : PreReader S) (m : ℕ) : Type 0 where
    pub limit : r.max_len ≡ pos m
    pub idx_in : r.buf_idx ≤ length r.buf
    pub buf_in : length r.buf ≤ m
    pub drained : length r.buf < m → rest r.source ≡ []

  -- which of the three branches a read takes
  passes :
      (r : PreReader S) (k : ℕ) {m : ℕ}
      → IsValid r m
      → m ≤ r.buf_idx
      → read_pre read r k ≡ record {
        bytes = (read r.source k).bytes;
        err = (read r.source k).err;
        state = record r { source = (read r.source k).state };
      }
  unfolding read_pre
  passes r k v h = ground (arith, v.limit)

  ends :
      (r : PreReader S) (k : ℕ) {m : ℕ}
      → IsValid r m
      → r.buf_idx < m
      → length r.buf ≤ r.buf_idx
      → read_pre read r k ≡ record { bytes = []; err = some eof; state = r }
  unfolding read_pre
  ends r k v h h' = ground (arith, v.limit)

  copies :
      (r : PreReader S) (k : ℕ) {m : ℕ}
      → IsValid r m
      → r.buf_idx < m
      → r.buf_idx < length r.buf
      → read_pre read r k ≡ record {
        bytes = take k (drop r.buf_idx r.buf);
        err = none;
        state = record r { buf_idx = r.buf_idx + min k (length r.buf - r.buf_idx) };
      }
  unfolding read_pre
  copies r k v h h' = ground (arith, v.limit)

  -- where a read finds the reader
  data Where (r : PreReader S) (m : ℕ) : Type 0 where
    passing : m ≤ r.buf_idx → Where r m
    ended : r.buf_idx < m → length r.buf ≤ r.buf_idx → Where r m
    copying : r.buf_idx < m → r.buf_idx < length r.buf → Where r m

  find : (r : PreReader S) (m : ℕ) → Where r m
  find r m = elim (dec_lt r.buf_idx m) [
    | yes p ↦ elim (dec_lt r.buf_idx (length r.buf)) [
      | yes q ↦ copying p q
      | no q ↦ ended p (omega arith)
    ]
    | no p ↦ passing (omega arith)
  ]

  split_copy :
      (k i : ℕ) (b t : Bytes)
      → i ≤ length b
      → take k (drop i b) ++ (drop (i + min k (length b - i)) b ++ t) ≡ drop i b ++ t
  split_copy k i b t h =
      sym (append_assoc (take k (drop i b)) _ t)
      ∙ ap (λ x. x ++ t)
          (rw (← drop-drop (min k (length b - i)) i b, ← length-drop i b)
            (split_at_min k (drop i b)))

  -- A read of a slice of length `k` takes at most `k` bytes off the front of what is still to come,
  -- and leaves the reader valid.
  pub read_pre_split :
      (r : PreReader S) (m k : ℕ)
      → IsValid r m
      → let got = read_pre read r k in
        (got.bytes ++ remaining got.state ≡ remaining r)
        × (length got.bytes ≤ k)
        × IsValid got.state m
  read_pre_split r m k v = elim (find r m) [
    | passing h ↦ rw (passes r k v h) (
      rw (drop_all r.buf_idx r.buf (omega (arith, v.buf_in))) (law.split r.source k),
      law.fits r.source k,
      record {
        limit = v.limit;
        idx_in = v.idx_in;
        buf_in = v.buf_in;
        drained = λ l. absurd (omega (arith, v.idx_in));
      },
    )
    | ended h h' ↦ rw (ends r k v h h') (refl, omega arith, v)
    | copying h h' ↦ rw (copies r k v h h') (
      split_copy k r.buf_idx r.buf (rest r.source) v.idx_in,
      omega (arith, length-take k (drop r.buf_idx r.buf)),
      record {
        limit = v.limit;
        idx_in = omega (arith, v.idx_in);
        buf_in = v.buf_in;
        drained = v.drained;
      },
    )
  ]

  -- `io.EOF` is returned only when nothing is left.
  pub read_pre_end :
      (r : PreReader S) (m k : ℕ)
      → IsValid r m
      → (read_pre read r k).err ≡ some eof
      → remaining (read_pre read r k).state ≡ []
  read_pre_end r m k v = elim (find r m) [
    | passing h ↦
        rw (passes r k v h)
          (λ e. rw (drop_all r.buf_idx r.buf (omega (arith, v.buf_in))) (law.at_end r.source k e))
    | ended h h' ↦
        rw (ends r k v h h') (λ e. rw (drop_all r.buf_idx r.buf h', v.drained (omega arith)) refl)
    | copying h h' ↦ rw (copies r k v h h') (λ e. cc)
  ]
