-- ===== src/Srtp/Rollover.antt =====
-- The last packet before the rollover counter changes.
use uvg_rtp.Prelude.{
  ℕ, ◌+◌, ◌%◌, ◌≡◌, ◌≢◌, refl, sym, ap, ◌∙◌, arith, Bool, true, false, ◌&&◌, some, List, [], ◌∷◌,
  ◌++◌, append-nil, append_assoc, length, ◌==◌, read16, read32, Bool-cases, inl, inr,
}
use uvg_rtp.Util.{ok, generic_error}
use uvg_rtp.Frame.{RtpFrame}
use uvg_rtp.Srtp.Base.{Srtp, same_octets, le32}
use uvg_rtp.Srtp.Packets.{
  Crypto, CryptoLaws, roll, send_packet_handler, computed_tag, carried_tag, recv_packet_handler,
}
use uvg_rtp.Srtp.RoundTrip.{SameContext, FrameOf, send_lem, body_tag, cipher_of, tag_of}

same_octets_sound : (xs ys : List ℕ) → same_octets xs ys ≡ true → xs ≡ ys
unfolding same_octets
same_octets_sound [] [] h = refl
same_octets_sound [] (y ∷ ys) h = cc
same_octets_sound (x ∷ xs) [] h = cc
same_octets_sound (x ∷ xs) (y ∷ ys) h =
    let (head, tail) = both x y (same_octets xs ys) h in
    λ i. head i ∷ same_octets_sound xs ys tail i
  where
    both : (x y : ℕ) (b : Bool) → ((x == y) && b) ≡ true → (x ≡ y) × (b ≡ true)
    both x y b h = ground arith

differ_same_octets : (xs ys : List ℕ) → xs ≢ ys → same_octets xs ys ≡ false
differ_same_octets xs ys ne = elim (Bool-cases (same_octets xs ys)) [
  | inl e ↦ absurd (ne (same_octets_sound xs ys e))
  | inr e ↦ e
]

module _ (x : Crypto) where
  -- A frame whose tag is not the one that is computed of it is refused, whatever else it holds, and
  -- neither the frame nor the contexts change.
  pub recv_packet_handler-wrong_tag :
      (t : Srtp) (f : RtpFrame)
      → t.authenticate_rtp ≡ true
      → computed_tag x t f ≢ carried_tag x f
      → recv_packet_handler x t f ≡ (generic_error, t, f)
  unfolding recv_packet_handler
  recv_packet_handler-wrong_tag t f checks ne =
      let d = differ_same_octets (computed_tag x t f) (carried_tag x f) ne in ground arith

  -- A packet with sequence number 65535 is tagged with the counter that follows it. At a receiver with
  -- the same keys and the same counter, if the tags of the packet under the counter and under the next
  -- one differ, the packet is refused, and the receiver's counter stays behind the sender's.
  pub recv_packet_handler_rollover :
      CryptoLaws x
      → (s t : Srtp) (ssrc timestamp : ℕ) (header plain room : List ℕ) (f : RtpFrame)
      → SameContext s t
      → length header ≡ 12
      → read16 header 2 ≡ some 65535
      → read32 header 8 ≡ some ssrc
      → tag_of x s s.local_ctx.roc (header ++ cipher_of x s ssrc 65535 plain)
        ≢ tag_of x s ((s.local_ctx.roc + 1) % 4294967296) (header ++ cipher_of x s ssrc 65535 plain)
      → (s' : Srtp) × (c tag : List ℕ) × (send_packet_handler x s (header ∷ plain ∷ room ∷ [])
          ≡ some (ok, s', header ∷ c ∷ tag ∷ []))
        × (s'.local_ctx.roc ≡ (s.local_ctx.roc + 1) % 4294967296)
        × (FrameOf (header ++ (c ++ tag)) 65535 ssrc timestamp f
            → recv_packet_handler x t f ≡ (generic_error, t, f))
  recv_packet_handler_rollover laws s t ssrc timestamp header plain room f c twelve rs rc
        tags_differ =
      let cipher : List ℕ = cipher_of x s ssrc 65535 plain in
      let tag : List ℕ = tag_of x s (roll 65535 s.local_ctx.roc) (header ++ (cipher ++ [])) in
      let ten : length tag ≡ 10 = laws.tag_length _ _ in
      (
        record s { local_ctx = record s.local_ctx { roc = roll 65535 s.local_ctx.roc } },
        cipher,
        tag,
        send_lem x s 65535 ssrc header plain room c.sender_encrypts c.sender_tags rs rc,
        refl,
        (λ of.
            (let body : f.dgram ≡ (header ++ cipher) ++ tag =
                of.whole ∙ sym (append_assoc header cipher tag) in
              let (computed, carried, len) = body_tag x t f (header ++ cipher) tag body ten in
              recv_packet_handler-wrong_tag t f c.receiver_checks (λ same. tags_differ (
                (λ i.
                  x.hmac (sym (c.same_auth_key) i)
                    ((header ++ cipher) ++ le32 (sym (c.same_roc) i)))
                ∙ sym computed
                ∙ same
                ∙ carried
                ∙ ap (λ (m : List ℕ). tag_of x s (roll 65535 s.local_ctx.roc) (header ++ m))
                    (append-nil cipher))))),
      )
