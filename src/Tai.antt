-- ===== src/Tai.antt =====
-- libbase/lib/tai.c and the TAI time part of libbase/lib/base.h: the labels and their comparison.
-- The external formats, the conversions and the proofs are in the modules below.
pub mod Bytes
pub mod Text
pub mod Apr
pub mod RoundTrip
pub mod Order
pub mod Strings
pub mod Diff
mod Examples
use ngim.Base.{
  ℕ, ◌+◌, ◌-◌, ◌*◌, ◌%◌, ◌^◌, ◌≤◌, ◌<◌, Bool, true, false, Option, none, some, ltb, leb,
  if◌then◌else◌,
}

-- ngim_tai_t: `x` is a uint64_t.
pub record Tai : Type 0 where
  pub x : ℕ

-- ngim_tain_t: `nano` is a uint32_t.
pub record Tain : Type 0 where
  pub sec : Tai
  pub nano : ℕ

abbrev pub tai_max_sec : ℕ
tai_max_sec = 9223372036854775807

abbrev pub tai_max_na : ℕ
tai_max_na = 999999999

-- NGIM_TAI_PACK, NGIM_TAI_FORMAT, NGIM_TAIN_PACK and NGIM_TAIN_FORMAT.
abbrev pub tai_pack_size : ℕ
tai_pack_size = 8

abbrev pub tai_format_size : ℕ
tai_format_size = 17

abbrev pub tain_pack_size : ℕ
tain_pack_size = 12

abbrev pub tain_format_size : ℕ
tain_format_size = 25

-- The values that the C types hold.
abbrev pub IsWord : Tain → Type 0
IsWord t = (t.sec.x < 2 ^ 64) × (t.nano < 2 ^ 32)

-- A valid TAI64N label, as base.h describes it.
abbrev pub IsLabel : Tain → Type 0
IsLabel t = (t.sec.x ≤ tai_max_sec) × (t.nano ≤ tai_max_na)

-- ngim_tai_less
unfoldable pub tai_less : Tai → Tai → Bool
tai_less t u = ltb t.x u.x

-- ngim_tain_less
unfoldable pub tain_less : Tain → Tain → Bool
tain_less t u =
    if ltb t.sec.x u.sec.x then true else if ltb u.sec.x t.sec.x then false else ltb t.nano u.nano

-- ngim_tain_diff: `none` is the return value 0, where `*d` is not written.
unfoldable pub tain_diff : Tain → Tain → Option ℕ
unfolding tain_less
tain_diff t u =
    if tain_less t u
    then (let d = (u.sec.x + 2 ^ 64 - t.sec.x) % 2 ^ 64 in
        if leb ((t.nano + 500000) % 2 ^ 32) u.nano then some ((d + 1) % 2 ^ 64) else some d)
    else none

-- ngim_tain_to_tai
unfoldable pub tain_to_tai : Tain → Tai
tain_to_tai ta = ta.sec
