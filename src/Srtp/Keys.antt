-- ===== src/Srtp/Keys.antt =====
-- What the session keys are made of.
use uvg_rtp.Prelude.{
  ℕ, suc, ◌+◌, ◌≡◌, refl, ap, ◌∙◌, arith, true, false, List, [], ◌∷◌, ◌++◌, length, take, replicate,
  flag_set,
}
use uvg_rtp.Util.{rce_srtp_kmngmnt_zrtp, rce_srtp_keysize_192, rce_srtp_keysize_256}
use uvg_rtp.Srtp.Base.{SrtpType, get_key_size, derive_key, key_block, label_enc, init_srtp_context}

get_key_size_256 :
    (rce_flags : ℕ)
    → flag_set rce_flags rce_srtp_kmngmnt_zrtp ≡ false
    → flag_set rce_flags rce_srtp_keysize_192 ≡ false
    → flag_set rce_flags rce_srtp_keysize_256 ≡ true
    → get_key_size rce_flags ≡ 32
unfolding get_key_size
get_key_size_256 rce_flags no_zrtp not_192 on = rw (no_zrtp, not_192, on) refl

take_rest : (n m : ℕ) (xs ys : List ℕ) → length xs ≡ n → take (n + m) (xs ++ ys) ≡ xs ++ take m ys
take_rest n m [] ys e = let h : n + m ≡ m = omega arith in ap (λ (k : ℕ). take k ys) h
take_rest n m (x ∷ xs) ys e =
    let h : n + m ≡ suc (length xs + m) = omega arith in
    ap (λ (k : ℕ). take k (x ∷ (xs ++ ys))) h
    ∙ ap (λ (t : List ℕ). x ∷ t) (take_rest (length xs) m xs ys refl)

-- With 256-bit keys asked for, not 192-bit keys too, and no ZRTP, and a block cipher that gives blocks of sixteen octets: the
-- session key for encryption is 32 octets long, and the last sixteen are zero, whatever the master key
-- and the salt are.
pub init_srtp_context_weak :
    (ecb : List ℕ → List ℕ → List ℕ) (type : SrtpType) (rce_flags : ℕ) (key salt : List ℕ)
    → ((k block : List ℕ) → length (ecb k block) ≡ 16)
    → flag_set rce_flags rce_srtp_kmngmnt_zrtp ≡ false
    → flag_set rce_flags rce_srtp_keysize_192 ≡ false
    → flag_set rce_flags rce_srtp_keysize_256 ≡ true
    → (block : List ℕ) × (length block ≡ 16)
      × ((init_srtp_context ecb type rce_flags key salt).enc_key ≡ block ++ replicate 16 0)
unfolding init_srtp_context derive_key
init_srtp_context_weak ecb type rce_flags key salt blocks no_zrtp not_192 on =
    let size = get_key_size_256 rce_flags no_zrtp not_192 on in
    let block : List ℕ =
      ecb (take (get_key_size rce_flags) key) (key_block (label_enc type) (take 14 salt)) in
    (
      block,
      blocks _ _,
      ap (λ (n : ℕ). take n (block ++ replicate 16 0)) size
          ∙ take_rest 16 16 block (replicate 16 0) (blocks _ _),
    )
