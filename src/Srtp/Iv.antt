-- ===== src/Srtp/Iv.antt =====
-- Initialisation vectors of different packets differ.
use uvg_rtp.Prelude.{
  ℕ, ◌/◌, ◌%◌, ◌<◌, ◌≡◌, ◌≢◌, refl, sym, ap, ◌∙◌, arith, List, get_or, bit_xor, bit_xor_middle,
}
use uvg_rtp.Srtp.Base.{create_iv, octet64}

-- Octet k of a vector determines octet i of the index.
octet_at :
    (ssrc index index' : ℕ) (salt : List ℕ) (k out i : ℕ)
    → create_iv ssrc index salt ≡ create_iv ssrc index' salt
    → get_or (create_iv ssrc index salt) k 0
      ≡ bit_xor (bit_xor out (octet64 index i)) (get_or salt k 0)
    → get_or (create_iv ssrc index' salt) k 0
      ≡ bit_xor (bit_xor out (octet64 index' i)) (get_or salt k 0)
    → octet64 index i ≡ octet64 index' i
octet_at ssrc index index' salt k out i e a b =
    bit_xor_middle out (octet64 index i) (octet64 index' i) (get_or salt k 0)
      (sym a ∙ ap (λ (v : List ℕ). get_or v k 0) e ∙ b)

create_iv_injective :
    (ssrc index index' : ℕ) (salt : List ℕ)
    → index < 18446744073709551616
    → index' < 18446744073709551616
    → create_iv ssrc index salt ≡ create_iv ssrc index' salt
    → index ≡ index'
unfolding create_iv
create_iv_injective ssrc index index' salt h h' e =
    let o = octet_at ssrc index index' salt in
    let e0 = o 6 (ssrc / 65536 % 256) 0 e refl refl in
    let e1 = o 7 (ssrc / 16777216 % 256) 1 e refl refl in
    let e2 = o 8 0 2 e refl refl in
    let e3 = o 9 0 3 e refl refl in
    let e4 = o 10 0 4 e refl refl in
    let e5 = o 11 0 5 e refl refl in
    let e6 = o 12 0 6 e refl refl in let e7 = o 13 0 7 e refl refl in omega arith

-- For one sender and one salt, packets with different 64-bit indices have different initialisation
-- vectors.
pub create_iv_distinct :
    (ssrc index index' : ℕ) (salt : List ℕ)
    → index < 18446744073709551616
    → index' < 18446744073709551616
    → index ≢ index'
    → create_iv ssrc index salt ≢ create_iv ssrc index' salt
create_iv_distinct ssrc index index' salt h h' ne =
    λ e. ne (create_iv_injective ssrc index index' salt h h' e)
