-- ===== src/Rtp/Context.antt =====
-- src/rtp.hh and src/rtp.cc: the sender's state and the RTP header of the next packet. Random
-- numbers and clock readings are arguments.
use uvg_rtp.Prelude.{
  ℕ, ◌+◌, ◌-◌, ◌*◌, ◌/◌, ◌%◌, ◌^◌, Bool, true, false, List, ◌∷◌, ◌++◌, ◌==◌, if◌then◌else◌, put16,
  put32, take, drop,
}
use uvg_rtp.Util.{
  RtpFormat, dvi4_64, l16_stereo, l16_mono, dvi4_441, dvi4_882, opus, h264, h265, h266, atlas,
  format_number,
}

-- INVALID_TS.
abbrev pub invalid_ts : ℕ
invalid_ts = 2 ^ 64 - 1

-- class rtp. `wc_start` counts microseconds; `wc_start_2` is never read.
pub record Rtp : Type 0 where
  pub ssrc : ℕ
  pub ts : ℕ
  pub seq : ℕ
  pub fmt : RtpFormat
  pub payload : ℕ
  pub clock_rate : ℕ
  pub wc_start : ℕ
  pub sent_pkts : ℕ
  pub timestamp : ℕ
  pub sampling_ntp : ℕ
  pub rtp_ts : ℕ
  pub payload_size : ℕ
  pub delay : ℕ

-- What a call reads from outside: generate_32(), the high resolution clock in microseconds, and
-- ntp::now().
pub record Env : Type 0 where
  pub random_32 : ℕ
  pub now_us : ℕ
  pub ntp_now : ℕ

unfoldable pub default_clock_rate : RtpFormat → ℕ
default_clock_rate dvi4_441 = 11025
default_clock_rate dvi4_64 = 16000
default_clock_rate dvi4_882 = 22050
default_clock_rate l16_stereo = 44100
default_clock_rate l16_mono = 44100
default_clock_rate opus = 48000
default_clock_rate h264 = 90000
default_clock_rate h265 = 90000
default_clock_rate h266 = 90000
default_clock_rate atlas = 90000
default_clock_rate _ = 8000

unfoldable pub set_default_clock_rate : RtpFormat → Rtp → Rtp
set_default_clock_rate fmt r = record r { clock_rate = default_clock_rate fmt }

-- The constructor; the two arguments before `ipv6` are the numbers that it draws. The payload
-- sizes are 1492 octets less the headers of IP, UDP and RTP.
unfoldable pub new_rtp : RtpFormat → ℕ → ℕ → ℕ → Bool → Rtp
unfolding set_default_clock_rate format_number
new_rtp fmt ssrc ts_random seq_random ipv6 = set_default_clock_rate fmt (record {
  ssrc = ssrc;
  ts = ts_random;
  seq = seq_random % 65536;
  fmt = fmt;
  payload = format_number fmt % 256;
  clock_rate = 0;
  wc_start = 0;
  sent_pkts = 0;
  timestamp = invalid_ts;
  sampling_ntp = 0;
  rtp_ts = 0;
  payload_size = if ipv6 then 1432 else 1452;
  delay = 500;
})

unfoldable pub inc_sequence : Rtp → Rtp
inc_sequence r = if r.seq == 65535 then record r { seq = 0 } else record r { seq = r.seq + 1 }

unfoldable pub inc_sent_pkts : Rtp → Rtp
inc_sent_pkts r = record r { sent_pkts = (r.sent_pkts + 1) % 2 ^ 64 }

-- Octets 2 and 3 of the header at `buffer`.
unfoldable pub update_sequence : Rtp → List ℕ → List ℕ
update_sequence r buffer = take 2 buffer ++ (put16 r.seq ++ drop 4 buffer)

-- The first message draws a timestamp if there is none.
unfoldable pub start_clock : Env → Rtp → Rtp
start_clock e r = if r.ts == 0 then record r { ts = e.random_32; wc_start = e.now_us } else r

-- The timestamp of the header, and the state that it leaves.
unfoldable pub next_timestamp : Env → Bool → Rtp → Rtp × ℕ
next_timestamp e true r =
    if r.timestamp == invalid_ts
    then (r, r.rtp_ts)
    else (record r { rtp_ts = r.timestamp % 2 ^ 32 }, r.timestamp % 2 ^ 32)
next_timestamp e false r =
    if r.timestamp == invalid_ts
    then (let u_seconds = (e.now_us - r.wc_start) * r.clock_rate % 2 ^ 64 in
        let rtp_timestamp = (r.ts + u_seconds / 1000000 % 2 ^ 32) % 2 ^ 32 in
        (record r { rtp_ts = rtp_timestamp; sampling_ntp = e.ntp_now }, rtp_timestamp))
    else (record r { rtp_ts = r.timestamp % 2 ^ 32 }, r.timestamp % 2 ^ 32)

-- The twelve octets of the header: version 2 and nothing else in the first, the payload type and no
-- marker in the second.
unfoldable pub fill_header : Env → Bool → Rtp → Rtp × List ℕ
unfolding start_clock next_timestamp
fill_header e use_old_ts r =
    let r' = start_clock e r in
    let (r'', timestamp) = next_timestamp e use_old_ts r' in
    (r'', 128 ∷ ((r.payload % 128) ∷ (put16 r.seq ++ (put32 timestamp ++ put32 r.ssrc))))

unfoldable pub set_dynamic_payload : ℕ → Rtp → Rtp
set_dynamic_payload payload r = record r { payload = payload }

unfoldable pub set_timestamp : ℕ → Rtp → Rtp
set_timestamp timestamp r = record r { timestamp = timestamp }

unfoldable pub set_clock_rate : ℕ → Rtp → Rtp
set_clock_rate rate r = record r { clock_rate = rate }

unfoldable pub set_payload_size : ℕ → Rtp → Rtp
set_payload_size payload_size r = record r { payload_size = payload_size }

unfoldable pub set_pkt_max_delay : ℕ → Rtp → Rtp
set_pkt_max_delay delay r = record r { delay = delay }

unfoldable pub set_sampling_ntp : ℕ → Rtp → Rtp
set_sampling_ntp ntp_ts r = record r { sampling_ntp = ntp_ts }
