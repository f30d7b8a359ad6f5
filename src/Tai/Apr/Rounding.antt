-- ===== src/Tai/Apr/Rounding.antt =====
-- How the conversions of libbase/lib/tai.c round.
use ngim.Base.{
  ℕ, ◌+◌, ◌-◌, ◌*◌, ◌/◌, ◌%◌, ◌^◌, ◌≤◌, ◌<◌, ◌≡◌, ◌↔◌, inl, inr, true, ltb, arith, Bool-cases,
  tests,
}
use ngim.Tai.{Tain, IsLabel, tain_less}
use ngim.Tai.Diff.{nanoseconds}
use ngim.Tai.Apr.{
  AprTime, sec_limit, tai_apr_epoch, tai_to_apr, tai_from_apr, tain_from_apr, tain_to_apr, IsModern,
  microseconds, apr_sec_from_tai, tai_sec_from_apr,
}

module _ (apr : AprTime) where
  open apr use {
    Time, time_sec, time_usec, time_from_sec, time_make, time_sec-time_make, time_usec-time_make,
    time_from_sec-time_make,
  }

  -- Of a time from the epoch on, the label that ngim_tain_from_apr makes is valid, and it names
  -- the instant 500 nanoseconds after the time.
  tain_from_apr-IsLabel :
      (a : Time)
      → IsModern apr a
      → IsLabel (tain_from_apr apr a)
        × (nanoseconds (tain_from_apr apr a)
            ≡ tai_apr_epoch * 1000000000 + microseconds apr a * 1000 + 500)
  unfolding tain_from_apr
  tain_from_apr-IsLabel a h = omega arith

  -- Labels made of two times from the epoch on compare as the times do.
  tain_less-tain_from_apr :
      (a b : Time)
      → IsModern apr a
      → IsModern apr b
      → (tain_less (tain_from_apr apr a) (tain_from_apr apr b) ≡ true)
        ↔ (microseconds apr a < microseconds apr b)
  unfolding tain_from_apr tain_less
  tain_less-tain_from_apr a b ha hb = ground arith

  -- ngim_tai_to_apr after ngim_tai_from_apr drops the microseconds and nothing else.
  pub tai_to_apr-tai_from_apr :
      (a : Time) → IsModern apr a → tai_to_apr apr (tai_from_apr apr a) ≡ time_make (time_sec a) 0
  unfolding tai_to_apr tai_from_apr
  tai_to_apr-tai_from_apr a h =
      let e : (tai_sec_from_apr apr a + 2 ^ 64 - tai_apr_epoch) % 2 ^ 64 ≡ time_sec a =
        omega arith in
      rw (tai_to_apr, e) (time_from_sec-time_make (time_sec a) (omega arith))

  microseconds-time_make :
      (s u : ℕ) → s < sec_limit → u < 1000000 → microseconds apr (time_make s u) ≡ s * 1000000 + u
  microseconds-time_make s u hs hu =
      rw (time_sec-time_make s u hs hu, time_usec-time_make s u hs hu)

  -- ngim_tain_to_apr rounds a valid label from the epoch on to the nearest microsecond, halves up.
  pub tain_to_apr_nearest :
      (t : Tain)
      → IsLabel t
      → tai_apr_epoch ≤ t.sec.x
      → t.sec.x + 1 < tai_apr_epoch + sec_limit
      → (microseconds apr (tain_to_apr apr t) * 1000 + tai_apr_epoch * 1000000000
          ≤ nanoseconds t + 500)
        × (nanoseconds t + 500
            < microseconds apr (tain_to_apr apr t) * 1000 + tai_apr_epoch * 1000000000 + 1000)
  unfolding tain_to_apr
  tain_to_apr_nearest t h lo hi =
      let u : ℕ = (t.nano + 500) % 2 ^ 32 / 1000 in
      let s : ℕ = apr_sec_from_tai apr t.sec in
      elim (Bool-cases (ltb 999999 u)) [
        | inl over ↦ rw over (
            omega (
              tests,
              over,
              microseconds-time_make ((s + 1) % 2 ^ 64) 0 (omega arith) (omega arith),
            ))
        | inr fits ↦
            rw fits (omega (tests, microseconds-time_make s u (omega arith) (ground arith)))
      ]

  -- A time from the epoch on, more than a second before the last one that an apr_time_t holds, that
  -- went through ngim_tain_from_apr and ngim_tain_to_apr has moved one microsecond ahead.
  pub tain_to_apr-tain_from_apr :
      (a : Time)
      → IsModern apr a
      → time_sec a + 1 < sec_limit
      → microseconds apr (tain_to_apr apr (tain_from_apr apr a)) ≡ microseconds apr a + 1
  tain_to_apr-tain_from_apr a h hi =
      let (valid, instant) = tain_from_apr-IsLabel a h in
      omega (
        arith,
        instant,
        tain_to_apr_nearest (tain_from_apr apr a) valid (unfold tain_from_apr in omega arith)
            (unfold tain_from_apr in omega arith),
      )
