-- ===== src/Tai/Bytes.antt =====
-- The external binary formats of tai.c: big-endian bytes.
use ngim.Base.{
  ℕ, zero, suc, ◌+◌, ◌*◌, ◌/◌, ◌%◌, ◌^◌, Bool, true, false, List, [], ◌∷◌, ◌++◌, take, drop, leb,
}
use ngim.Tai.{Tai, Tain, tai_max_sec, tai_max_na, tai_pack_size}

-- The unrolled stores of the pack functions: `s[n - 1] = x & 0xFF; x >>= 8; ... s[0] = x`.
unfoldable pub pack_bytes : ℕ → ℕ → List ℕ
pack_bytes zero x = []
pack_bytes (suc n) x = pack_bytes n (x / 256) ++ (x % 256 ∷ [])

-- The unrolled loads of the unpack functions, `x <<= 8; x += s[i]`, in words below `w`.
unfoldable pub unpack_bytes : ℕ → ℕ → List ℕ → ℕ
unpack_bytes w x [] = x
unpack_bytes w x (b ∷ bs) = unpack_bytes w ((x * 256 % w + b) % w) bs

-- ngim_tai_pack
unfoldable pub tai_pack : Tai → List ℕ
tai_pack t = pack_bytes 8 t.x

-- ngim_tai_unpack: `*t`, which is written in every case, and the returned flag.
unfoldable pub tai_unpack : List ℕ → Tai × Bool
tai_unpack s = let x = unpack_bytes (2 ^ 64) 0 (take 8 s) in (record { x = x }, leb x tai_max_sec)

-- ngim_tain_pack
unfoldable pub tain_pack : Tain → List ℕ
tain_pack t = tai_pack t.sec ++ pack_bytes 4 t.nano

unfoldable pub unpack_nano : List ℕ → Tain → Tai × Bool → Tain × Bool
unpack_nano s t (sec, true) =
    let x = unpack_bytes (2 ^ 32) 0 (take 4 s) in (record { sec = sec; nano = x }, leb x tai_max_na)
unpack_nano s t (sec, false) = (record t { sec = sec }, false)

-- ngim_tain_unpack, from the old value of `*t`: `nano` is written only after valid seconds.
unfoldable pub tain_unpack : List ℕ → Tain → Tain × Bool
tain_unpack s t = unpack_nano (drop tai_pack_size s) t (tai_unpack s)
