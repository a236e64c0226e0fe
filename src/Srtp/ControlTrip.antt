-- ===== src/Srtp/ControlTrip.antt =====
-- src/srtp/srtcp.cc: control packets from the sender to the receiver.
use uvg_rtp.Prelude.{
  ltb, ◌==◌, Option-cases, length, length-append, take, drop, length-drop, take_exact,
  take_exact-append, drop-append, take_exact_short, put32_lem, sub64, get_elem?-skip,
  get_elem?-start, drop-skip, flag_set, bit_or_disjoint, ℕ, suc, ◌+◌, ◌-◌, ◌/◌, ◌%◌, ◌^◌, ◌≤◌, ◌<◌,
  bit_or, ◌≡◌, refl, sym, ap, ◌∙◌, inl, inr, true, false, none, some, List, [], ◌∷◌, ◌++◌,
  append-nil, append_assoc, arith,
}
use uvg_rtp.Util.{ok, rce_srtp, rce_srtp_null_cipher, rce_srtp_replay_protection}
use uvg_rtp.Srtp.Base.{Srtp, create_iv, is_replayed_packet, le32}
use uvg_rtp.Srtp.Packets.{Crypto, CryptoLaws}
use uvg_rtp.Srtp.RoundTrip.{SameContext, same_octets_refl}
use uvg_rtp.Srtp.Control.{
  read_le32, replace_body, set_index, encrypt_control, add_auth_tag, handle_rtcp_encryption,
  verify_auth_tag, decrypt_control, handle_rtcp_decryption,
}

sub64_small : (n k : ℕ) → k ≤ n → n < 2 ^ 64 → sub64 n k ≡ n - k
unfolding sub64
sub64_small n k h small = omega arith

verify_overrun :
    (x : Crypto) (s : Srtp) (buffer : List ℕ)
    → 10 ≤ length buffer
    → length buffer < 2 ^ 64
    → verify_auth_tag x s (drop 8 buffer) (length buffer) ≡ none
unfolding verify_auth_tag
verify_overrun x s buffer long small =
    let start : sub64 (length buffer) 10 ≡ length buffer - 10 =
      sub64_small (length buffer) 10 long small in
    let missing : take_exact 10 (drop (length buffer - 10) (drop 8 buffer)) ≡ none =
      take_exact_short 10 (drop (length buffer - 10) (drop 8 buffer))
        (omega (arith, length-drop (length buffer - 10) (drop 8 buffer), length-drop 8 buffer)) in
    elim (Option-cases (take_exact (length buffer - 10) (drop 8 buffer))) [
      | inl e ↦ rw (start, e) refl
      | inr (m, e) ↦ rw (start, e, missing) refl
    ]

-- rtcp::handle_incoming_packet passes a pointer behind the first eight octets of the datagram, and the
-- size of all of it. With RCE_SRTP and a datagram of ten octets or more, the tag is then looked for
-- behind the datagram's end: there is no outcome.
pub handle_rtcp_decryption_overrun :
    (x : Crypto) (rce_flags ssrc : ℕ) (buffer : List ℕ) (s : Srtp)
    → flag_set rce_flags rce_srtp ≡ true
    → 10 ≤ length buffer
    → length buffer < 2 ^ 64
    → handle_rtcp_decryption x rce_flags ssrc (drop 8 buffer) (length buffer) s ≡ none
unfolding handle_rtcp_decryption
handle_rtcp_decryption_overrun x rce_flags ssrc buffer s on long small =
    elim (Option-cases (read_le32 (drop 8 buffer) (sub64 (length buffer) 14))) [
      | inl e ↦ rw e refl
      | inr (w, e) ↦ rw (e, on, verify_overrun x s buffer long small) refl
    ]

take-front : (xs ys : List ℕ) (n : ℕ) → n ≡ length xs → take n (xs ++ ys) ≡ xs
take-front [] ys n h = rw h refl
take-front (x ∷ xs) ys n h =
    ap (λ (k : ℕ). take k (x ∷ (xs ++ ys))) h
    ∙ ap (λ (l : List ℕ). x ∷ l) (take-front xs ys (length xs) refl)

drop-front : (xs ys : List ℕ) (n : ℕ) → n ≡ length xs → drop n (xs ++ ys) ≡ ys
drop-front xs ys n h = ap (λ (k : ℕ). drop k (xs ++ ys)) h ∙ drop-append xs ys

-- A packet: eight octets, the body, and the index and the tag.
replace_body-parts :
    (head plain room : List ℕ) (f : List ℕ → List ℕ)
    → length head ≡ 8
    → length room ≡ 14
    → replace_body (head ++ (plain ++ room)) f ≡ head ++ (f plain ++ room)
unfolding replace_body
replace_body-parts head plain room f eight fourteen =
    let packet = head ++ (plain ++ room) in
    let inner : length packet - 14 ≡ length (head ++ plain) = omega (
      arith,
      length-append head (plain ++ room),
      length-append plain room,
      length-append head plain,
      fourteen,
    ) in
    let regroup : packet ≡ (head ++ plain) ++ room = sym (append_assoc head plain room) in
    let e1 : take 8 packet ≡ head = take-front head (plain ++ room) 8 (sym eight) in
    let e2 : take (length packet - 14) packet ≡ head ++ plain =
      ap (take (length packet - 14)) regroup ∙ take-front (head ++ plain) room _ inner in
    let e3 : drop (length packet - 14) packet ≡ room =
      ap (drop (length packet - 14)) regroup ∙ drop-front (head ++ plain) room _ inner in
    let e4 : drop 8 (head ++ plain) ≡ plain = drop-front head plain 8 (sym eight) in
    λ i. e1 i ++ (f ((ap (drop 8) e2 ∙ e4) i) ++ e3 i)

set_index-parts :
    (body room : List ℕ) (word : ℕ)
    → length room ≡ 14
    → set_index (body ++ room) word ≡ body ++ (le32 word ++ drop 4 room)
unfolding set_index
set_index-parts body room word fourteen =
    let frame = body ++ room in
    let e1 : take (length frame - 14) frame ≡ body =
      take-front body room _ (omega (arith, length-append body room, fourteen)) in
    let e2 : drop (length frame - 10) frame ≡ drop 4 room =
      ap (λ (n : ℕ). drop n frame) {y = length body + 4}
        (omega (arith, length-append body room, fourteen))
      ∙ drop-skip body room 4 in
    λ i. e1 i ++ (le32 word ++ e2 i)

add_auth_tag-parts :
    (x : Crypto) (s : Srtp) (message room : List ℕ)
    → length room ≡ 10
    → add_auth_tag x s (message ++ room)
      ≡ message ++ x.hmac s.local_ctx.auth_key (message ++ le32 s.local_ctx.roc)
unfolding add_auth_tag
add_auth_tag-parts x s message room ten =
    let e : take (length (message ++ room) - 10) (message ++ room) ≡ message =
      take-front message room _ (omega (arith, length-append message room, ten)) in
    λ i. e i ++ x.hmac s.local_ctx.auth_key (e i ++ le32 s.local_ctx.roc)

read_le32-le32 :
    (front rest : List ℕ) (w i : ℕ)
    → w < 4294967296
    → i ≡ length front
    → read_le32 (front ++ (le32 w ++ rest)) i ≡ some w
unfolding read_le32
read_le32-le32 front rest w i small at_i =
    rw
      (
        at_i,
        get_elem?-start front (le32 w ++ rest),
        get_elem?-skip front (le32 w ++ rest) 1,
        get_elem?-skip front (le32 w ++ rest) 2,
        get_elem?-skip front (le32 w ++ rest) 3,
      )
      (ap some (put32_lem w small))

take_exact_whole : (xs : List ℕ) (n : ℕ) → length xs ≡ n → take_exact n xs ≡ some xs
take_exact_whole xs n h =
    ap (λ (k : ℕ). take_exact k xs) (sym h)
    ∙ ap (take_exact (length xs)) (sym (append-nil xs))
    ∙ take_exact-append xs []

-- A tag that was made with the same key and counter.
verify_auth_tag-made :
    (x : Crypto) (s : Srtp) (message tag : List ℕ)
    → length tag ≡ 10
    → length message + 10 < 2 ^ 64
    → x.hmac s.remote_ctx.auth_key (message ++ le32 s.remote_ctx.roc) ≡ tag
    → (is_replayed_packet tag s) ≡ (false, s)
    → verify_auth_tag x s (message ++ tag) (length (message ++ tag)) ≡ some (true, s)
unfolding verify_auth_tag
verify_auth_tag-made x s message tag ten small made fresh =
    let total = length-append message tag in
    let start : sub64 (length (message ++ tag)) 10 ≡ length message =
      sub64_small (length (message ++ tag)) 10 (omega (arith, total, ten))
        (omega (arith, total, ten))
      ∙ omega (arith, total, ten) in
    let e1 = take_exact-append message tag in
    let e2 : take_exact 10 (drop (length message) (message ++ tag)) ≡ some tag =
      ap (take_exact 10) (drop-append message tag) ∙ take_exact_whole tag 10 ten in
    rw (start, e1, e2, made, same_octets_refl tag, fresh) refl

index_word : (n : ℕ) → n < 2147483648 → bit_or (2 ^ 31) n ≡ 2147483648 + n
index_word n h = bit_or_disjoint 31 1 n h

not_replayed :
    (s : Srtp) (tag : List ℕ)
    → flag_set s.remote_ctx.rce_flags rce_srtp_replay_protection ≡ false
    → is_replayed_packet tag s ≡ (false, s)
unfolding is_replayed_packet
not_replayed s tag h = rw h refl

-- The index in a packet with a tag.
carried_index :
    (head c tag : List ℕ) (w : ℕ)
    → w < 4294967296
    → length tag ≡ 10
    → length head + length c < 8589934592
    → read_le32
        (((head ++ c) ++ le32 w) ++ tag)
        (sub64 (length (((head ++ c) ++ le32 w) ++ tag)) 14)
      ≡ some w
carried_index head c tag w u32 ten small =
    let packet = ((head ++ c) ++ le32 w) ++ tag in
    let size : length packet ≡ length (head ++ c) + 14 =
      omega (
        arith,
        length-append ((head ++ c) ++ le32 w) tag,
        length-append (head ++ c) (le32 w),
        ten,
      ) in
    let start : sub64 (length packet) 14 ≡ length (head ++ c) =
      sub64_small (length packet) 14 (omega (arith, size))
        (omega (arith, size, length-append head c, small))
      ∙ omega (arith, size) in
    ap (λ (b : List ℕ). read_le32 b (sub64 (length packet) 14))
      (append_assoc (head ++ c) (le32 w) tag)
    ∙ read_le32-le32 (head ++ c) tag w (sub64 (length packet) 14) u32 start

-- What decryption of the body leaves.
plain_body :
    (head c plain tag : List ℕ) (w : ℕ) (f : List ℕ → List ℕ)
    → length head ≡ 8
    → length tag ≡ 10
    → f c ≡ plain
    → let packet = ((head ++ c) ++ le32 w) ++ tag in
      replace_body (take (length packet) packet) f ++ drop (length packet) packet
      ≡ head ++ (plain ++ (le32 w ++ tag))
plain_body head c plain tag w f eight ten undone =
    let packet = ((head ++ c) ++ le32 w) ++ tag in
    let all : take (length packet) packet ≡ packet =
      ap (take (length packet)) (sym (append-nil packet))
      ∙ take-front packet [] (length packet) refl in
    let none_left : drop (length packet) packet ≡ [] =
      ap (drop (length packet)) (sym (append-nil packet)) ∙ drop-append packet [] in
    let regroup : packet ≡ head ++ (c ++ (le32 w ++ tag)) =
      append_assoc (head ++ c) (le32 w) tag ∙ append_assoc head c (le32 w ++ tag) in
    (λ i. replace_body ((all ∙ regroup) i) f ++ none_left i)
    ∙ append-nil (replace_body (head ++ (c ++ (le32 w ++ tag))) f)
    ∙ replace_body-parts head c (le32 w ++ tag) f eight
        (ap (λ (k : ℕ). suc (suc (suc (suc k)))) ten)
    ∙ ap (λ (b : List ℕ). head ++ (b ++ (le32 w ++ tag))) undone

module _ (x : Crypto) (laws : CryptoLaws x) (s t : Srtp) (same : SameContext s t) where
  abbrev control_cipher : ℕ → ℕ → List ℕ → List ℕ
  control_cipher ssrc number plain =
      x.ctr_encrypt s.local_ctx.enc_key (create_iv ssrc number s.local_ctx.salt_key) plain

  -- The packet up to its tag.
  abbrev control_message : ℕ → ℕ → List ℕ → List ℕ → List ℕ
  control_message ssrc number head plain =
      (head ++ control_cipher ssrc number plain) ++ le32 (2147483648 + number)

  abbrev control_tag : List ℕ → List ℕ
  control_tag message = x.hmac s.local_ctx.auth_key (message ++ le32 s.local_ctx.roc)

  protected :
      (rce_flags ssrc number : ℕ) (head plain room : List ℕ)
      → flag_set rce_flags rce_srtp ≡ true
      → flag_set rce_flags rce_srtp_null_cipher ≡ false
      → length head ≡ 8
      → length room ≡ 14
      → number < 2147483648
      → handle_rtcp_encryption x rce_flags number ssrc (head ++ (plain ++ room)) s
        ≡ some (
          ok,
          control_message ssrc number head plain
              ++ control_tag (control_message ssrc number head plain),
        )
  unfolding handle_rtcp_encryption encrypt_control
  protected rce_flags ssrc number head plain room on ciphered eight fourteen small =
      let frame = head ++ (plain ++ room) in
      let long : ltb (length frame) 22 ≡ false =
        let total : length frame ≡ 22 + length plain =
          omega (arith, length-append head (plain ++ room), length-append plain room) in
        ground arith in
      let c = control_cipher ssrc number plain in
      let e1 : replace_body frame (encrypt_control x ssrc number s) ≡ (head ++ c) ++ room =
        replace_body-parts head plain room (encrypt_control x ssrc number s) eight fourteen
        ∙ rw same.sender_encrypts (sym (append_assoc head c room)) in
      let e2 : set_index ((head ++ c) ++ room) (bit_or (2 ^ 31) number)
          ≡ control_message ssrc number head plain ++ drop 4 room =
        ap (set_index ((head ++ c) ++ room)) (index_word number small)
        ∙ set_index-parts (head ++ c) room (2147483648 + number) fourteen
        ∙ sym (append_assoc (head ++ c) (le32 (2147483648 + number)) (drop 4 room)) in
      let e3 =
        add_auth_tag-parts x s (control_message ssrc number head plain) (drop 4 room)
          (omega (arith, length-drop 4 room, fourteen)) in
      rw (on, ciphered, long, e1, e2, e3) refl

  -- The keys of the receiver undo the sender's cipher.
  decrypt_control-control_cipher :
      (ssrc number : ℕ) (plain : List ℕ)
      → decrypt_control x ssrc number t (control_cipher ssrc number plain) ≡ plain
  unfolding decrypt_control
  decrypt_control-control_cipher ssrc number plain =
      rw (same.same_enc_key, same.same_salt_key)
        (laws.decrypts s.local_ctx.enc_key (create_iv ssrc number s.local_ctx.salt_key) plain)

  -- With RCE_SRTP, the same keys and counter at both ends, ciphers and no replay protection: a control
  -- packet with room for an index and a tag, and an index below 2^31, is protected; and the receiver
  -- who decrypts all of it gets the eight octets and the plain body back, with index and tag behind.
  pub handle_rtcp_decryption-handle_rtcp_encryption :
      (rce_flags ssrc number : ℕ) (head plain room : List ℕ)
      → flag_set rce_flags rce_srtp ≡ true
      → flag_set rce_flags rce_srtp_null_cipher ≡ false
      → length head ≡ 8
      → length room ≡ 14
      → number < 2147483648
      → length plain < 4294967296
      → (packet trailer : List ℕ) × (handle_rtcp_encryption x rce_flags number ssrc
            (head ++ (plain ++ room))
            s
          ≡ some (ok, packet))
        × (handle_rtcp_decryption x rce_flags ssrc packet (length packet) t
            ≡ some (ok, head ++ (plain ++ trailer), t))
        × (length trailer ≡ 14)
  unfolding handle_rtcp_decryption
  handle_rtcp_decryption-handle_rtcp_encryption rce_flags ssrc number head plain room on ciphered
        eight fourteen small short =
      let w = 2147483648 + number in
      let c = control_cipher ssrc number plain in
      let message = control_message ssrc number head plain in
      let tag = control_tag message in
      let packet = message ++ tag in
      let ten : length tag ≡ 10 =
        laws.tag_length s.local_ctx.auth_key (message ++ le32 s.local_ctx.roc) in
      let size_c : length c ≡ length plain =
        laws.keeps_length s.local_ctx.enc_key (create_iv ssrc number s.local_ctx.salt_key) plain in
      let size_m : length message ≡ 12 + length plain =
        omega (arith, length-append (head ++ c) (le32 w), length-append head c, eight, size_c) in
      let size : length packet ≡ 22 + length plain =
        omega (arith, length-append message tag, size_m, ten) in
      let made : x.hmac t.remote_ctx.auth_key (message ++ le32 t.remote_ctx.roc) ≡ tag =
        rw (same.same_auth_key, same.same_roc) refl in
      let verified =
        verify_auth_tag-made x t message tag ten (omega (arith, size_m, short)) made
          (not_replayed t tag same.no_replay_check) in
      let index =
        carried_index head c tag w (omega arith) ten (omega (arith, size_c, short, eight)) in
      let body = plain_body head c plain tag w (decrypt_control x ssrc (w % 2 ^ 31) t) eight ten (
        ap (λ (n : ℕ). decrypt_control x ssrc n t c) {y = number} (omega arith)
        ∙ decrypt_control-control_cipher ssrc number plain) in
      let marked : (w / 2 ^ 31 % 2 == 1) ≡ true =
        let one : w / 2 ^ 31 % 2 ≡ 1 = omega arith in ground arith in
      let long : ltb (length packet) 22 ≡ false = ground arith in
      (
        packet,
        le32 w ++ tag,
        protected rce_flags ssrc number head plain room on ciphered eight fourteen small,
        rw (index, on, verified, marked, ciphered, long)
            (ap (λ (b : List ℕ). some (ok, b, t)) body),
        ap (λ (k : ℕ). suc (suc (suc (suc k)))) ten,
      )
