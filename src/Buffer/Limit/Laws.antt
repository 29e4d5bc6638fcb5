-- ===== src/Buffer/Limit/Laws.antt =====
-- What goes through a `LimitedWriter`: never more than the limit, and exactly the first bytes.
use fuck.Base.{
  ℕ, zero, suc, ◌+◌, ◌-◌, ◌≤◌, ◌<◌, ◌≡◌, refl, sym, ap, ◌∙◌, List, [], ◌∷◌, ◌++◌, append_assoc,
  append-nil, none, false, Bytes, length, take, arith, length-append, length-take, take_all,
  take-append, take-nil,
}
use fuck.Base.Int.{pos, ◌-ℤ◌}
use fuck.Buffer.Io.{Writer, IsWriter}
use fuck.Buffer.Limit.{limit_writer_ignore_error, LimitedWriter, cut, write_through, write}

pub cut-pos : (n : ℕ) (p : Bytes) → cut (pos n) p ≡ take n p
cut-pos n p = ground (arith, take_all n p)

-- the bytes of several calls, one after another
abbrev pub flat : List Bytes → Bytes
flat [] = []
flat (p ∷ ps) = p ++ flat ps

module _ {S : Type 0} (w_write : Writer S) where
  -- calls of `Write` one after another
  abbrev pub write_all : LimitedWriter S → List Bytes → LimitedWriter S
  write_all l [] = l
  write_all l (p ∷ ps) = write_all (write w_write l p).state ps

  -- what one call leaves in the writer, whatever it returns
  state-write :
      (l : LimitedWriter S) (p : Bytes)
      → (write w_write l p).state ≡ (write_through w_write l p).state
  unfolding write
  state-write l p = ground arith

  through_zero :
      (l : LimitedWriter S) (p : Bytes) → l.n ≡ pos 0 → (write_through w_write l p).state ≡ l
  unfolding write_through
  through_zero l p e = ground arith

  through_suc :
      (l : LimitedWriter S) (p : Bytes) (n : ℕ)
      → l.n ≡ pos (suc n)
      → let r = w_write l.w (take (suc n) p) in
        r.n ≤ suc n
        → (write_through w_write l p).state ≡ record l { w = r.state; n = pos (suc n - r.n) }
  unfolding write_through ◌-ℤ◌
  through_suc l p n e h = ground (arith, cut-pos (suc n) p)

  module _ (sent : S → Bytes) (law : IsWriter w_write sent) where
    -- one call spends from the budget what goes through
    write_budget :
        (l : LimitedWriter S) (p : Bytes) (n : ℕ)
        → l.n ≡ pos n
        → (m : ℕ) × ((write w_write l p).state.n ≡ pos m)
          × (m + length (sent (write w_write l p).state.w) ≡ n + length (sent l.w))
    write_budget l p zero e = rw (state-write l p, through_zero l p e) (0, e, refl)
    write_budget l p (suc n) e =
        let q = take (suc n) p in
        let r = w_write l.w q in
        let few : r.n ≤ suc n = omega (arith, law.taken l.w q, length-take (suc n) p) in
        let sum : length (sent r.state) ≡ length (sent l.w) + r.n = omega (
          arith,
          ap length (law.appended l.w q),
          length-append (sent l.w) (take r.n q),
          length-take r.n q,
          law.taken l.w q,
        ) in
        rw (state-write l p, through_suc l p n e few) (suc n - r.n, refl, omega arith)

    -- However `Write` is called, what the wrapped writer took and what is left add up to the limit.
    pub write_all_budget :
        (ps : List Bytes) (l : LimitedWriter S) (n : ℕ)
        → l.n ≡ pos n
        → (m : ℕ) × ((write_all l ps).n ≡ pos m)
          × (m + length (sent (write_all l ps).w) ≡ n + length (sent l.w))
    write_all_budget [] l n e = (n, e, refl)
    write_all_budget (p ∷ ps) l n e =
        let (m, e', sum) = write_budget l p n e in
        let (k, e'', sum') = write_all_budget ps (write w_write l p).state m e' in
        (k, e'', omega arith)

    module _ (whole : (s : S) (p : Bytes) → (w_write s p).n ≡ length p) where
      write_first :
          (l : LimitedWriter S) (p : Bytes) (n : ℕ)
          → l.n ≡ pos n
          → (sent (write w_write l p).state.w ≡ sent l.w ++ take n p)
            × ((write w_write l p).state.n ≡ pos (n - length p))
      write_first l p zero e =
          rw (state-write l p, through_zero l p e, append-nil) (refl, ground arith)
      write_first l p (suc n) e =
          let q = take (suc n) p in
          let r = w_write l.w q in
          let few : r.n ≤ suc n = omega (arith, law.taken l.w q, length-take (suc n) p) in
          rw (state-write l p, through_suc l p n e few)
            (
              law.appended l.w q
                  ∙ ap (λ t. sent l.w ++ t) (take_all r.n q (omega (arith, whole l.w q))),
              ground (arith, whole l.w q, length-take (suc n) p),
            )

      -- Over a writer that takes all it is given, exactly the first bytes go through.
      pub write_all_first :
          (ps : List Bytes) (l : LimitedWriter S) (n : ℕ)
          → l.n ≡ pos n
          → sent (write_all l ps).w ≡ sent l.w ++ take n (flat ps)
      write_all_first [] l n e = sym (ap (λ t. sent l.w ++ t) (take-nil n) ∙ append-nil _)
      write_all_first (p ∷ ps) l n e =
          let (w, e') = write_first l p n e in
          write_all_first ps (write w_write l p).state (n - length p) e'
          ∙ rw (w, take-append n p (flat ps), append_assoc)

  -- With `LimitWriterIgnoreError` a call reports that it took everything and no error, and does to
  -- the wrapped writer and to the budget what it would do without the option.
  pub write-ignore_error :
      (l : LimitedWriter S) (p : Bytes)
      → l.ignore_error ≡ false
      → let quiet = write w_write (limit_writer_ignore_error l) p in
        (quiet.n ≡ length p)
        × (quiet.err ≡ none)
        × (quiet.state ≡ limit_writer_ignore_error (write w_write l p).state)
  unfolding write write_through limit_writer_ignore_error
  write-ignore_error l p i = ground arith

  -- Where a call is longer than what is left and the wrapped writer takes all it is given with no
  -- error, the call reports fewer bytes than it was given and no error: a `LimitedWriter` with bytes
  -- left does not keep the contract of `io.Writer`.
  pub write_short :
      (sent : LimitedWriter S → Bytes) (l : LimitedWriter S) (p : Bytes) (n : ℕ)
      → l.ignore_error ≡ false
      → l.n ≡ pos (suc n)
      → suc n < length p
      → (w_write l.w (take (suc n) p)).n ≡ suc n
      → (w_write l.w (take (suc n) p)).err ≡ none
      → ((write w_write l p).n < length p)
        × ((write w_write l p).err ≡ none)
        × ¬ IsWriter (write w_write) sent
  write_short sent l p n i e h all ok =
      let (a, b) = short_result in (a, b, λ law. law.short l p a b)
    where
      short_result : ((write w_write l p).n < length p) × ((write w_write l p).err ≡ none)
      short_result = (
        unfold write write_through in ground (arith, cut-pos (suc n) p),
        unfold write write_through in ground (arith, cut-pos (suc n) p),
      )
