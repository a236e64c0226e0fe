-- ===== src/Srtp/RoundTrip.antt =====
-- A packet that is encrypted and authenticated, at a receiver with the same keys and counter.
use uvg_rtp.Prelude.{
  ℕ, ◌+◌, ◌-◌, ◌≤◌, ◌<◌, ◌≡◌, ◌≢◌, refl, sym, ap, ◌∙◌, arith, true, false, some, List, [], ◌∷◌,
  ◌++◌, append-nil, append_assoc, length, length-append, take, drop, ltb, if◌then◌else◌, ◌==◌,
  flag_set, read16, read32, sub64, drop-append,
}
use uvg_rtp.Util.{ok, pkt_modified, rce_srtp_replay_protection}
use uvg_rtp.Frame.{RtpFrame}
use uvg_rtp.Srtp.Base.{Srtp, create_iv, is_replayed_packet, same_octets, le32}
use uvg_rtp.Srtp.Packets.{
  Crypto, CryptoLaws, packet_index, roll, before_rollover, encrypt, send_packet_handler,
  computed_tag, carried_tag, decrypt_frame, after_tag, recv_packet_handler,
}

pub same_octets_refl : (xs : List ℕ) → same_octets xs xs ≡ true
unfolding same_octets
same_octets_refl [] = refl
same_octets_refl (x ∷ xs) = ground (arith, same_octets_refl xs)

take-append : (xs ys : List ℕ) → take (length xs) (xs ++ ys) ≡ xs
take-append [] ys = refl
take-append (x ∷ xs) ys = ap (λ (t : List ℕ). x ∷ t) (take-append xs ys)

-- The receiver's context for packets of the sender.
pub record SameContext (s t : Srtp) : Type 0 where
  pub same_enc_key : t.remote_ctx.enc_key ≡ s.local_ctx.enc_key
  pub same_auth_key : t.remote_ctx.auth_key ≡ s.local_ctx.auth_key
  pub same_salt_key : t.remote_ctx.salt_key ≡ s.local_ctx.salt_key
  pub same_roc : t.remote_ctx.roc ≡ s.local_ctx.roc
  pub sender_encrypts : s.use_null_cipher ≡ false
  pub receiver_decrypts : t.use_null_cipher ≡ false
  pub sender_tags : s.authenticate_rtp ≡ true
  pub receiver_checks : t.authenticate_rtp ≡ true
  pub no_replay_check : flag_set t.remote_ctx.rce_flags rce_srtp_replay_protection ≡ false

-- A frame that the RTP handler made of a datagram without csrcs, extension or padding.
pub record FrameOf (dgram : List ℕ) (seq ssrc timestamp : ℕ) (f : RtpFrame) : Type 0 where
  pub whole : f.dgram ≡ dgram
  pub rest : f.payload ≡ drop 12 dgram
  pub counted : f.payload_len ≡ length dgram - 12
  pub seq_read : f.header.seq ≡ seq
  pub ssrc_read : f.header.ssrc ≡ ssrc
  pub timestamp_read : f.header.timestamp ≡ timestamp

module _ (x : Crypto) where
  abbrev pub cipher_of : Srtp → ℕ → ℕ → List ℕ → List ℕ
  cipher_of s ssrc seq plain =
      x.ctr_encrypt s.local_ctx.enc_key
        (create_iv ssrc (packet_index s.local_ctx.roc seq) s.local_ctx.salt_key) plain

  abbrev pub tag_of : Srtp → ℕ → List ℕ → List ℕ
  tag_of s roc message = x.hmac s.local_ctx.auth_key (message ++ le32 roc)

  -- What is sent, at any sequence number.
  pub send_lem :
      (s : Srtp) (seq ssrc : ℕ) (header plain room : List ℕ)
      → s.use_null_cipher ≡ false
      → s.authenticate_rtp ≡ true
      → read16 header 2 ≡ some seq
      → read32 header 8 ≡ some ssrc
      → send_packet_handler x s (header ∷ plain ∷ room ∷ [])
        ≡ some (
          ok,
          record s { local_ctx = record s.local_ctx { roc = roll seq s.local_ctx.roc } },
          header
              ∷ cipher_of s ssrc seq plain
              ∷ tag_of s (roll seq s.local_ctx.roc) (header ++ (cipher_of s ssrc seq plain ++ []))
              ∷ [],
        )
  unfolding send_packet_handler encrypt
  send_lem s seq ssrc header plain room on auth rs rc = rw (on, auth, rs, rc) refl

  pub body_tag :
      (t : Srtp) (f : RtpFrame) (body tag : List ℕ)
      → f.dgram ≡ body ++ tag
      → length tag ≡ 10
      → (computed_tag x t f ≡ x.hmac t.remote_ctx.auth_key (body ++ le32 t.remote_ctx.roc))
        × (carried_tag x f ≡ tag)
        × (length f.dgram ≡ length body + 10)
  unfolding computed_tag carried_tag
  body_tag t f body tag e ten =
      let len : length f.dgram ≡ length body + 10 =
        ap length e ∙ length-append body tag ∙ omega arith in
      let at : length f.dgram - 10 ≡ length body = omega arith in
      let cut : take (length f.dgram - 10) f.dgram ≡ body =
        (λ i. take (at i) (e i)) ∙ take-append body tag in
      let kept : drop (length f.dgram - 10) f.dgram ≡ tag =
        (λ i. drop (at i) (e i)) ∙ drop-append body tag in
      (
        ap (λ (b : List ℕ). x.hmac t.remote_ctx.auth_key (b ++ le32 t.remote_ctx.roc)) cut,
        ap (take 10) kept ∙ take_ten tag ten,
        len,
      )
    where
      take_ten : (tag : List ℕ) → length tag ≡ 10 → take 10 tag ≡ tag
      take_ten tag ten =
          ap (λ (n : ℕ). take n tag) (sym ten)
          ∙ ap (take (length tag)) (sym (append-nil tag))
          ∙ take-append tag []

  recv_tagged :
      (t : Srtp) (f : RtpFrame) (body tag : List ℕ)
      → f.dgram ≡ body ++ tag
      → length tag ≡ 10
      → 12 ≤ length body
      → t.authenticate_rtp ≡ true
      → flag_set t.remote_ctx.rce_flags rce_srtp_replay_protection ≡ false
      → x.hmac t.remote_ctx.auth_key (body ++ le32 t.remote_ctx.roc) ≡ tag
      → recv_packet_handler x t f
        ≡ after_tag x t (record f { payload_len = sub64 f.payload_len 10 })
  unfolding recv_packet_handler is_replayed_packet computed_tag after_tag
  recv_tagged t f body tag e ten header checks plain good =
      let (computed, carried, len) = body_tag t f body tag e ten in
      let long : ltb (length f.dgram) 12 ≡ false = ground arith in
      let long' : ltb (length f.dgram) 22 ≡ false = ground arith in
      rw (long, long', checks, computed, carried, good, same_octets_refl tag, plain) refl

  after_tag_lem :
      (t : Srtp) (f : RtpFrame) (cipher tail : List ℕ)
      → t.use_null_cipher ≡ false
      → before_rollover f.header.timestamp t.remote_ctx.rts f.header.seq ≡ false
      → f.payload ≡ cipher ++ tail
      → f.payload_len ≡ length cipher
      → (t' : Srtp) × (after_tag x t f ≡ (
        pkt_modified,
        t',
        record f {
          payload =
              x.ctr_decrypt t.remote_ctx.enc_key
                (create_iv f.header.ssrc
                  (packet_index t.remote_ctx.roc f.header.seq)
                  t.remote_ctx.salt_key)
                cipher
              ++ tail;
        },
      ))
        × (t'.remote_ctx.roc ≡ roll f.header.seq t.remote_ctx.roc)
  unfolding after_tag decrypt_frame
  after_tag_lem t f cipher tail on new e len =
      let iv : List ℕ =
        create_iv f.header.ssrc (packet_index t.remote_ctx.roc f.header.seq)
          t.remote_ctx.salt_key in
      let front : take f.payload_len f.payload ≡ cipher =
        (λ i. take (len i) (e i)) ∙ take-append cipher tail in
      let back : drop f.payload_len f.payload ≡ tail =
        (λ i. drop (len i) (e i)) ∙ drop-append cipher tail in
      (
        record t {
          remote_ctx = record t.remote_ctx {
            roc = roll f.header.seq t.remote_ctx.roc;
            rts = if f.header.seq == 65535 then f.header.timestamp else t.remote_ctx.rts;
          };
        },
        rw (on, new)
            (λ i. (
              pkt_modified,
              record t {
                use_null_cipher = false;
                remote_ctx = record t.remote_ctx {
                  roc = roll f.header.seq t.remote_ctx.roc;
                  rts = if f.header.seq == 65535 then f.header.timestamp else t.remote_ctx.rts;
                };
              },
              record f { payload = x.ctr_decrypt t.remote_ctx.enc_key iv (front i) ++ back i },
            )),
        refl,
      )

  -- With the same keys and the same rollover counter, encryption and authentication on and replay
  -- protection off, a packet of twelve header octets with a sequence number other than 65535: the
  -- sender's handler encrypts and tags it; and the frame that the receiver has made of it, unless it is
  -- taken for one from before the last rollover, gets its plain payload and that payload's length back,
  -- and the two counters are equal again.
  pub recv_packet_handler-send_packet_handler :
      CryptoLaws x
      → (s t : Srtp) (seq ssrc timestamp : ℕ) (header plain room : List ℕ) (f : RtpFrame)
      → SameContext s t
      → length header ≡ 12
      → length plain < 9223372036854775808
      → read16 header 2 ≡ some seq
      → read32 header 8 ≡ some ssrc
      → seq ≢ 65535
      → before_rollover timestamp t.remote_ctx.rts seq ≡ false
      → (s' : Srtp) × (c tag : List ℕ) × (send_packet_handler x s (header ∷ plain ∷ room ∷ [])
          ≡ some (ok, s', header ∷ c ∷ tag ∷ []))
        × (FrameOf (header ++ (c ++ tag)) seq ssrc timestamp f
            → (t' : Srtp) × (f' : RtpFrame) × (recv_packet_handler x t f ≡ (pkt_modified, t', f'))
              × (take f'.payload_len f'.payload ≡ plain)
              × (t'.remote_ctx.roc ≡ s'.local_ctx.roc))
  unfolding sub64
  recv_packet_handler-send_packet_handler laws s t seq ssrc timestamp header plain room f c twelve
        small rs rc other new =
      let key = s.local_ctx.enc_key in
      let cipher : List ℕ = cipher_of s ssrc seq plain in
      let stays : roll seq s.local_ctx.roc ≡ s.local_ctx.roc = ground arith in
      let tag : List ℕ = tag_of s (roll seq s.local_ctx.roc) (header ++ (cipher ++ [])) in
      let ten : length tag ≡ 10 = laws.tag_length _ _ in
      let n : length cipher ≡ length plain = laws.keeps_length _ _ _ in
      (
        record s { local_ctx = record s.local_ctx { roc = roll seq s.local_ctx.roc } },
        cipher,
        tag,
        send_lem s seq ssrc header plain room c.sender_encrypts c.sender_tags rs rc,
        (λ of.
            (let f1 : RtpFrame = record f { payload_len = sub64 f.payload_len 10 } in
              let body : f.dgram ≡ (header ++ cipher) ++ tag =
                of.whole ∙ sym (append_assoc header cipher tag) in
              let same_tag : x.hmac t.remote_ctx.auth_key
                    ((header ++ cipher) ++ le32 t.remote_ctx.roc)
                  ≡ tag =
                λ i.
                  x.hmac (c.same_auth_key i)
                    ((header ++ sym (append-nil cipher) i) ++ le32 ((c.same_roc ∙ sym stays) i)) in
              let long = length-append header cipher in
              let checked =
                recv_tagged t f (header ++ cipher) tag body ten (omega arith) c.receiver_checks
                  c.no_replay_check same_tag in
              let rest : f.payload ≡ cipher ++ tag =
                of.rest
                ∙ ap (λ (k : ℕ). drop k (header ++ (cipher ++ tag))) (sym twelve)
                ∙ drop-append header (cipher ++ tag) in
              let whole = length-append header (cipher ++ tag) in
              let two = length-append cipher tag in
              let len : f.payload_len ≡ length cipher + 10 = of.counted ∙ omega arith in
              let counted : sub64 f.payload_len 10 ≡ length cipher = omega arith in
              let fresh : before_rollover f.header.timestamp t.remote_ctx.rts f.header.seq ≡ false =
                (λ i. before_rollover (of.timestamp_read i) t.remote_ctx.rts (of.seq_read i))
                ∙ new in
              let (t', after, roc) =
                after_tag_lem t f1 cipher tag c.receiver_decrypts fresh rest counted in
              let back : x.ctr_decrypt t.remote_ctx.enc_key
                    (create_iv f.header.ssrc (packet_index t.remote_ctx.roc f.header.seq)
                      t.remote_ctx.salt_key)
                    cipher
                  ≡ plain =
                (λ i.
                  x.ctr_decrypt (c.same_enc_key i)
                    (create_iv (of.ssrc_read i) (packet_index (c.same_roc i) (of.seq_read i))
                      (c.same_salt_key i))
                    cipher)
                ∙ laws.decrypts _ _ _ in
              (
                t',
                record f1 {
                  payload =
                      x.ctr_decrypt t.remote_ctx.enc_key
                        (create_iv f.header.ssrc (packet_index t.remote_ctx.roc f.header.seq)
                          t.remote_ctx.salt_key)
                        cipher
                      ++ tag;
                },
                checked ∙ after,
                (λ i. take ((counted ∙ n) i) (back i ++ tag)) ∙ take-append plain tag,
                roc ∙ (λ i. roll (of.seq_read i) (c.same_roc i)),
              ))),
      )
