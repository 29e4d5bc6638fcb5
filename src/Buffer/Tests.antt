-- ===== src/Buffer/Tests.antt =====
-- Runs of the `buffer` package over a writer and a reader in memory.
use fuck.Base.{
  ℕ, zero, suc, ◌≤◌, ◌<◌, ◌≡◌, ◌≢◌, refl, List, [], ◌∷◌, ◌++◌, none, some, false, Bytes, codes,
  length, take, drop, arith, length-take, take_all, take-append-drop,
}
use fuck.Base.Int.{pos, ◌-ℤ◌}
use fuck.Buffer.Io.{eof, failure, Reader, Writer, IsReader, IsWriter, IdlesAtMost}
use fuck.Buffer.Limit.{LimitedWriter, limit_writer, write}
use fuck.Buffer.Limit.Laws.{write_all, flat, write_all_first}
use fuck.Buffer.PreReader.{PreReader, read_pre, new_pre_reader, buffer}
use fuck.Buffer.PreReader.Laws.{remaining, IsValid, read_pre_split}
use fuck.Buffer.PreReader.Fill.{new_pre_reader_lem}

-- a `bytes.Buffer` that is written to
abbrev sink : Writer Bytes
sink s p = record { n = length p; err = none; state = s ++ p }

sink-IsWriter : IsWriter sink (λ s. s)
sink-IsWriter = record {
  taken = λ s p. omega arith;
  appended = λ s p. rw (take_all (length p) p (omega arith));
  short = λ s p h. absurd (omega arith);
}

-- a `bytes.Reader`: a read at the end gives `io.EOF`, beside no bytes
abbrev reading : Reader Bytes
reading [] k = record { bytes = []; err = some eof; state = [] }
reading (c ∷ s) k = record { bytes = take k (c ∷ s); err = none; state = drop k (c ∷ s) }

abbrev rest : Bytes → Bytes
rest s = s

reading-IsReader : IsReader reading rest
reading-IsReader = record {
  split = elim [ [] ↦ λ k. refl | c ∷ s ↦ λ k. take-append-drop k (c ∷ s) ];
  fits = elim [ [] ↦ λ k. omega arith | c ∷ s ↦ λ k. omega (arith, length-take k (c ∷ s)) ];
  at_end = elim [ [] ↦ λ k e. refl | c ∷ s ↦ λ k e. cc ];
  no_failure = elim [ [] ↦ λ k n e. cc | c ∷ s ↦ λ k n e. cc ];
}

abbrev lw : LimitedWriter Bytes
lw = record { w = []; n = pos 5; max_n = pos 5; ignore_error = false }

abbrev calls : List Bytes
calls = codes "abc" ∷ codes "defg" ∷ codes "h" ∷ []

limit_writer_runs : limit_writer [] (pos 5) [] ≡ lw
unfolding limit_writer
limit_writer_runs = refl

write_runs : (write_all sink lw calls).w ≡ codes "abcde"
unfolding write ◌-ℤ◌
write_runs = refl

write_all_first_example : (write_all sink lw calls).w ≡ [] ++ take 5 (flat calls)
write_all_first_example = write_all_first sink (λ s. s) sink-IsWriter (λ s p. refl) calls lw 5 refl

abbrev stream : Bytes
stream = codes "hello world"

-- five bytes read ahead, one handed out
abbrev pr : PreReader Bytes
pr = record { source = codes " world"; buf = codes "hello"; buf_idx = 1; max_len = pos 5 }

pr-IsValid : IsValid reading rest reading-IsReader pr 5
pr-IsValid = record {
  limit = refl;
  idx_in = omega arith;
  buf_in = omega arith;
  drained = λ h. absurd (omega arith);
}

abbrev spent : PreReader Bytes
spent = record { source = []; buf = codes "hi"; buf_idx = 2; max_len = pos 5 }

spent-IsValid : IsValid reading rest reading-IsReader spent 5
spent-IsValid = record {
  limit = refl;
  idx_in = omega arith;
  buf_in = omega arith;
  drained = λ h. refl;
}

new_pre_reader_runs :
    new_pre_reader reading 6 stream (pos 5) ≡ some (record pr { buf_idx = 0 }, none)
unfolding new_pre_reader
new_pre_reader_runs = refl

read_pre_split_example :
    let got = read_pre reading pr 3 in
    (got.bytes ++ remaining reading rest reading-IsReader got.state ≡ codes "ello world")
    × (length got.bytes ≤ 3)
    × IsValid reading rest reading-IsReader got.state 5
read_pre_split_example = read_pre_split reading rest reading-IsReader pr 5 3 pr-IsValid

spent_ends : (read_pre reading spent 4).err ≡ some eof
unfolding read_pre
spent_ends = refl

spent_empty : (read_pre reading spent 4).bytes ≡ []
unfolding read_pre
spent_empty = refl

-- a reader that first returns nothing so many times
abbrev hesitant : Reader (ℕ × Bytes)
hesitant (suc n, s) k = record { bytes = []; err = none; state = (n, s) }
hesitant (zero, s) k =
    let got = reading s k in record { bytes = got.bytes; err = got.err; state = (0, got.state) }

abbrev left : ℕ × Bytes → Bytes
left (n, s) = s

abbrev pauses : ℕ × Bytes → ℕ
pauses (n, s) = n

hesitant_split :
    (s : ℕ × Bytes) (k : ℕ) → (hesitant s k).bytes ++ left (hesitant s k).state ≡ left s
hesitant_split (zero, s) k = reading-IsReader.split s k
hesitant_split (suc n, s) k = refl

hesitant_fits : (s : ℕ × Bytes) (k : ℕ) → length (hesitant s k).bytes ≤ k
hesitant_fits (zero, s) k = reading-IsReader.fits s k
hesitant_fits (suc n, s) k = omega arith

hesitant_end :
    (s : ℕ × Bytes) (k : ℕ) → (hesitant s k).err ≡ some eof → left (hesitant s k).state ≡ []
hesitant_end (zero, s) k e = reading-IsReader.at_end s k e
hesitant_end (suc n, s) k e = cc

hesitant_sound : (s : ℕ × Bytes) (k e : ℕ) → (hesitant s k).err ≢ some (failure e)
hesitant_sound (zero, s) k e h = reading-IsReader.no_failure s k e h
hesitant_sound (suc n, s) k e h = cc

hesitant-IsReader : IsReader hesitant left
hesitant-IsReader = record {
  split = hesitant_split;
  fits = hesitant_fits;
  at_end = hesitant_end;
  no_failure = hesitant_sound;
}

pauses_fall : (s : ℕ × Bytes) (k : ℕ) → pauses (hesitant s k).state ≤ pauses s
pauses_fall (zero, s) k = omega arith
pauses_fall (suc n, s) k = omega arith

reading_progress :
    (s : Bytes) (k : ℕ) → 0 < k → (reading s k).bytes ≡ [] → (reading s k).err ≡ none → 0 < 0
reading_progress [] k h e n = absurd (ground (arith, n))
reading_progress (c ∷ s) zero h e n = h
reading_progress (c ∷ s) (suc k) h e n = absurd (ground (arith, e))

pauses_used :
    (s : ℕ × Bytes) (k : ℕ)
    → 0 < k
    → (hesitant s k).bytes ≡ []
    → (hesitant s k).err ≡ none
    → pauses (hesitant s k).state < pauses s
pauses_used (zero, s) k h e n = absurd (omega (arith, reading_progress s k h e n))
pauses_used (suc m, s) k h e n = omega arith

hesitant-IdlesAtMost : IdlesAtMost hesitant pauses
hesitant-IdlesAtMost = record { no_more = pauses_fall; used_up = pauses_used }

new_pre_reader_lem_example :
    (r : PreReader (ℕ × Bytes)) × (new_pre_reader hesitant 9 (3, stream) (pos 5) ≡ some (r, none))
    × IsValid hesitant left hesitant-IsReader r 5
    × (buffer r ≡ take 5 stream)
    × (remaining hesitant left hesitant-IsReader r ≡ stream)
new_pre_reader_lem_example =
    new_pre_reader_lem hesitant left hesitant-IsReader pauses hesitant-IdlesAtMost 9 5 (3, stream)
      (omega arith)
