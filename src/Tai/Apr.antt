-- ===== src/Tai/Apr.antt =====
-- The conversions of libbase/lib/tai.c between labels and apr_time_t.
pub mod Rounding
use ngim.Base.{ℕ, ◌+◌, ◌-◌, ◌*◌, ◌/◌, ◌%◌, ◌^◌, ◌<◌, ◌≡◌, ltb, if◌then◌else◌, arith}
use ngim.Tai.{Tai, Tain}

-- The seconds whose microseconds an apr_time_t, an int64_t, can hold.
abbrev pub sec_limit : ℕ
sec_limit = 9223372036854

-- APR's apr_time_t, with the macros of its apr_time.h that tai.c uses. Seconds are words of 64 bits,
-- as the program's conversions to uint64_t make them. The laws hold of the times from the epoch on.
pub record AprTime : Type 1 where
  pub Time : Type 0
  pub time_sec : Time → ℕ
  pub time_usec : Time → ℕ
  pub time_from_sec : ℕ → Time
  pub time_make : ℕ → ℕ → Time
  pub time_sec-time_make : (s u : ℕ) → s < sec_limit → u < 1000000 → time_sec (time_make s u) ≡ s
  pub time_usec-time_make : (s u : ℕ) → s < sec_limit → u < 1000000 → time_usec (time_make s u) ≡ u
  pub time_from_sec-time_make : (s : ℕ) → s < sec_limit → time_from_sec s ≡ time_make s 0

-- NGIM_TAI_APR_EPOCH
abbrev pub tai_apr_epoch : ℕ
tai_apr_epoch = 4611686018427387914

module _ (apr : AprTime) where
  open apr use {Time, time_sec, time_usec, time_from_sec, time_make}

  -- The macro tai_sec_from_apr.
  abbrev pub tai_sec_from_apr : Time → ℕ
  tai_sec_from_apr a = (tai_apr_epoch + time_sec a) % 2 ^ 64

  -- The macro apr_sec_from_tai.
  abbrev pub apr_sec_from_tai : Tai → ℕ
  apr_sec_from_tai t = (t.x + 2 ^ 64 - tai_apr_epoch) % 2 ^ 64

  -- ngim_tai_to_apr
  unfoldable pub tai_to_apr : Tai → Time
  tai_to_apr t = time_from_sec (apr_sec_from_tai t)

  -- ngim_tai_from_apr
  unfoldable pub tai_from_apr : Time → Tai
  tai_from_apr a = record { x = tai_sec_from_apr a }

  -- ngim_tain_from_apr
  unfoldable pub tain_from_apr : Time → Tain
  tain_from_apr a = record {
    sec = record { x = tai_sec_from_apr a };
    nano = (1000 * time_usec a + 500) % 2 ^ 32;
  }

  -- ngim_tain_to_apr
  unfoldable pub tain_to_apr : Tain → Time
  tain_to_apr t =
      let s = apr_sec_from_tai t.sec in
      let u = (t.nano + 500) % 2 ^ 32 / 1000 in
      if ltb 999999 u then time_make ((s + 1) % 2 ^ 64) 0 else time_make s u

  -- ngim_tai_now and ngim_tain_now, at what apr_time_now returns.
  unfoldable pub tai_now : Time → Tai
  tai_now now = record { x = tai_sec_from_apr now }

  unfoldable pub tain_now : Time → Tain
  unfolding tain_from_apr
  tain_now now = tain_from_apr now

  -- The times that the laws speak of.
  abbrev pub IsModern : Time → Type 0
  IsModern a = (time_sec a < sec_limit) × (time_usec a < 1000000)

  -- Microseconds since the epoch.
  abbrev pub microseconds : Time → ℕ
  microseconds a = time_sec a * 1000000 + time_usec a
