-- ===== src/Wal/Checkpoint.antt =====
-- wal.go: the text of the checkpoint's file.
use marchilogs.Base.{
  Bytes, [], arith, decimal, decimal-ne-nil, digits_value, digits_value-decimal, ok, refl, some, ℕ,
  ◌*◌, ◌++◌, ◌+◌, ◌-◌, ◌<◌, ◌^◌, ◌∷◌, ◌≡◌, ◌≢◌,
}
use marchilogs.Wal.{read_checkpoint, scan_uint64, skip_blanks, take_digits}

take_digits-line :
    (acc : ℕ) (s : Bytes) (n : ℕ) → digits_value acc s ≡ some n → take_digits (s ++ 10 ∷ []) ≡ s
unfolding take_digits digits_value
take_digits-line acc [] n h = refl
take_digits-line acc (c ∷ s) n h = ground (arith, h, take_digits-line (acc * 10 + (c - 48)) s n)

scan_uint64-digits :
    (s : Bytes) (n : ℕ)
    → s ≢ []
    → digits_value 0 s ≡ some n
    → n < 2 ^ 64
    → scan_uint64 (s ++ 10 ∷ []) ≡ ok n
unfolding scan_uint64 skip_blanks digits_value take_digits
scan_uint64-digits [] n hs hd hn = absurd (hs refl)
scan_uint64-digits (c ∷ s) n hs hd hn = ground (arith, hd, hn, take_digits-line 0 (c ∷ s) n hd)

-- `readCheckpoint` reads what `setCheckpoint` writes.
pub read_checkpoint-decimal :
    (cp : ℕ) → cp < 2 ^ 64 → read_checkpoint (some (decimal cp ++ 10 ∷ [])) ≡ ok cp
unfolding read_checkpoint
read_checkpoint-decimal cp h =
    line (decimal cp)
      (scan_uint64-digits (decimal cp) cp (decimal-ne-nil cp) (digits_value-decimal cp) h)
  where
    line :
        (s : Bytes)
        → scan_uint64 (s ++ 10 ∷ []) ≡ ok cp
        → read_checkpoint (some (s ++ 10 ∷ [])) ≡ ok cp
    line [] e = e
    line (c ∷ s) e = e
