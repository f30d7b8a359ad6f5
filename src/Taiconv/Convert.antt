-- ===== src/Taiconv/Convert.antt =====
-- What convert_buffer of srvctl/src/taiconv.c depends on.
use ngim.Base.{
  ℕ, zero, suc, ◌+◌, ◌≤◌, ◌≡◌, refl, ◌∙◌, append-nil, Bool, true, false, none, some, List, [], ◌∷◌,
  ◌++◌, length, drop, arith, length-append, le→leb,
}
use mathlib.Core.Option
use ngim.Tai.{Tain, tain_format_size}
use ngim.Tai.Text.{unformat_digits, unformat_textual, tain_unformat}
use ngim.Taiconv.{Clock, convert_buffer, tain_result, blank}

unformat_digits-append :
    (n : ℕ) (s x : List ℕ) → n + n ≤ length s → unformat_digits n (s ++ x) ≡ unformat_digits n s
unfolding unformat_digits
unformat_digits-append zero s x h = refl
unformat_digits-append (suc n) [] x h = absurd (omega arith)
unformat_digits-append (suc n) (a ∷ []) x h = absurd (omega arith)
unformat_digits-append (suc n) (a ∷ b ∷ s) x h = rw (unformat_digits-append n s x (omega arith))

-- ngim_tain_unformat reads 25 bytes and no more.
tain_unformat-append :
    (s x : List ℕ) (t : Tain)
    → length s ≡ tain_format_size
    → tain_unformat (s ++ x) t ≡ tain_unformat s t
unfolding tain_unformat unformat_textual
tain_unformat-append [] x t h = absurd (omega arith)
tain_unformat-append (c ∷ s) x t h = rw (unformat_digits-append 12 s x (omega arith))

drop-append_exact : (n : ℕ) (s x : List ℕ) → length s ≡ n → drop n (s ++ x) ≡ x
drop-append_exact zero [] x h = refl
drop-append_exact zero (c ∷ s) x h = absurd (omega arith)
drop-append_exact (suc n) [] x h = absurd (omega arith)
drop-append_exact (suc n) (c ∷ s) x h = drop-append_exact n s x (omega arith)

module _ (clock : Clock) where
  -- A full buffer with further bytes: they come out as the unused ones.
  convert_buffer-append :
      (s x : List ℕ)
      → length s ≡ tain_format_size
      → convert_buffer clock (s ++ x) ≡ tain_result clock (s ++ x) (tain_unformat s blank)
  unfolding convert_buffer
  convert_buffer-append s x h = rw (
    le→leb tain_format_size (length (s ++ x)) (omega (arith, length-append s x)),
    tain_unformat-append s x blank h,
  )

  tain_result-append :
      (s x : List ℕ) (r : Tain × Bool)
      → length s ≡ tain_format_size
      → tain_result clock (s ++ x) r ≡ Option.map (λ p. (p.0, x)) (tain_result clock s r)
  unfolding tain_result
  tain_result-append s x (t, true) h = rw (drop-append_exact 25 s x h)
  tain_result-append s x (t, false) h = refl

  convert_buffer_full :
      (s : List ℕ)
      → length s ≡ tain_format_size
      → convert_buffer clock s ≡ tain_result clock s (tain_unformat s blank)
  unfolding convert_buffer
  convert_buffer_full s h = rw (le→leb tain_format_size (length s) (omega arith))

  convert_buffer_longer :
      (s x : List ℕ)
      → length s ≡ tain_format_size
      → convert_buffer clock (s ++ x) ≡ Option.map (λ p. (p.0, x)) (convert_buffer clock s)
  convert_buffer_longer s x h = rw (
    convert_buffer-append s x h,
    tain_result-append s x (tain_unformat s blank) h,
    convert_buffer_full s h,
  )

  -- Of a full buffer no byte is unused.
  pub full_unused :
      (s r u : List ℕ) → length s ≡ tain_format_size → convert_buffer clock s ≡ some (r, u) → u ≡ []
  full_unused s r u h e = let k = rw (append-nil, e) at (convert_buffer_longer s [] h) in cc k

  -- One byte more than a full buffer is unused, and changes nothing else.
  pub longer_some :
      (s x r u : List ℕ)
      → length s ≡ tain_format_size
      → convert_buffer clock s ≡ some (r, u)
      → convert_buffer clock (s ++ x) ≡ some (r, x)
  longer_some s x r u h e = convert_buffer_longer s x h ∙ rw e

  pub longer_none :
      (s x : List ℕ)
      → length s ≡ tain_format_size
      → convert_buffer clock s ≡ none
      → convert_buffer clock (s ++ x) ≡ none
  longer_none s x h e = convert_buffer_longer s x h ∙ rw e
