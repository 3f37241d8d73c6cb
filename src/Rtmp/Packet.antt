-- ===== src/Rtmp/Packet.antt =====
-- `struct rtmp_packet_t` of 3rd/librtmp/include/rtmp-internal.h, and the lookup of a chunk stream in
-- an array of packets, which rtmp-chunk-write.c and rtmp-chunk-read.c both declare.
use seastar_live.Prelude.{
  ℕ, zero, suc, ◌+◌, ◌-◌, ◌%◌, ◌<◌, ◌≡◌, List, [], Option, none, some, Bool, false, arith, ◌==◌,
  if◌then◌else◌, get_or, Bool-cases, inl, inr,
}
use seastar_live.Rtmp.ChunkHeader.{ChunkHeader}

-- `payload` holds the bytes of the buffer that are written so far; `has_payload` is whether the
-- pointer is not null.
pub record Packet : Type 0 where
  pub header : ChunkHeader
  pub delta : ℕ
  pub clock : ℕ
  pub payload : List ℕ
  pub has_payload : Bool
  pub capacity : ℕ
  pub bytes : ℕ

-- A packet as `memset` to 0 leaves it.
abbrev pub zero_header : ChunkHeader
zero_header = record { fmt = 0; cid = 0; timestamp = 0; length = 0; type = 0; stream_id = 0 }

abbrev pub zero_packet : Packet
zero_packet = record {
  header = zero_header;
  delta = 0;
  clock = 0;
  payload = [];
  has_payload = false;
  capacity = 0;
  bytes = 0;
}

-- N_CHUNK_STREAM
abbrev pub n_chunk_stream : ℕ
n_chunk_stream = 8

abbrev pub cid_at : List Packet → ℕ → ℕ
cid_at pkts i = (get_or pkts i zero_packet).header.cid

-- The loop of both lookups: the first slot from `(i + cid) % 8` on, in `rounds` rounds, that holds
-- the chunk stream id `wanted`. The result is the slot's index.
unfoldable pub probe : ℕ → ℕ → List Packet → ℕ → ℕ → Option ℕ
probe zero i pkts cid wanted = none
probe (suc rounds) i pkts cid wanted =
    let rest = probe rounds (i + 1) pkts cid wanted in
    let slot = (i + cid) % n_chunk_stream in if cid_at pkts slot == wanted then some slot else rest

unfoldable pub packet_find : List Packet → ℕ → Option ℕ
unfolding probe
packet_find pkts cid = probe n_chunk_stream 0 pkts cid cid

-- `rtmp_packet_create`: a free slot has the chunk stream id 0.
unfoldable pub packet_create : List Packet → ℕ → Option ℕ
unfolding probe
packet_create pkts cid = probe n_chunk_stream 0 pkts cid 0

-- What is found holds what was sought, and lies in the array.
pub probe-found :
    (rounds i : ℕ) (pkts : List Packet) (cid wanted : ℕ) {slot : ℕ}
    → probe rounds i pkts cid wanted ≡ some slot
    → (cid_at pkts slot ≡ wanted) × (slot < n_chunk_stream)
unfolding probe
probe-found zero i pkts cid wanted e = cc
probe-found (suc rounds) i pkts cid wanted {slot} e =
    ground (arith, probe-found rounds (i + 1) pkts cid wanted {slot = slot})

-- What is in one of the slots that the probe visits is found.
pub probe-finds :
    (rounds i : ℕ) (pkts : List Packet) (cid wanted k slot : ℕ)
    → k < rounds
    → slot ≡ (i + k + cid) % n_chunk_stream
    → cid_at pkts slot ≡ wanted
    → (found : ℕ) × (probe rounds i pkts cid wanted ≡ some found)
unfolding probe
probe-finds zero i pkts cid wanted k slot h s e = absurd (omega arith)
probe-finds (suc rounds) i pkts cid wanted zero slot h s e =
    let q : slot ≡ (i + cid) % n_chunk_stream = omega arith in
    ((i + cid) % n_chunk_stream, rw (rw q at e) (ground arith))
probe-finds (suc rounds) i pkts cid wanted (suc k) slot h s e =
    elim (Bool-cases (cid_at pkts ((i + cid) % n_chunk_stream) == wanted)) [
      | inl b ↦ ((i + cid) % n_chunk_stream, rw b)
      | inr b ↦
          let (f, p) =
            probe-finds rounds (i + 1) pkts cid wanted k slot (omega arith) (omega arith) e in
          (f, rw b p)
    ]

-- Every slot is visited, so a lookup fails only if no slot holds the chunk stream id.
pub packet_find_complete :
    (pkts : List Packet) (cid slot : ℕ)
    → slot < n_chunk_stream
    → cid_at pkts slot ≡ cid
    → (found : ℕ) × (packet_find pkts cid ≡ some found)
      × (cid_at pkts found ≡ cid)
      × (found < n_chunk_stream)
unfolding packet_find
packet_find_complete pkts cid slot h e =
    let k = (slot + n_chunk_stream - cid % n_chunk_stream) % n_chunk_stream in
    let (f, p) = probe-finds 8 0 pkts cid cid k slot (omega arith) (omega arith) e in
    let (q, r) = probe-found 8 0 pkts cid cid p in (f, p, q, r)
