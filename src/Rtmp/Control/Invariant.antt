-- ===== src/Rtmp/Control/Invariant.antt =====
-- The chunk size that a connection's reader divides by (3rd/librtmp/source/rtmp-control-handler.c).
use seastar_live.Prelude.{ℕ, ◌≤◌, ◌≡◌, ◌≢◌, List, some, arith}
use seastar_live.Rtmp.ChunkHeader.{ChunkHeader}
use seastar_live.Rtmp.Control.{
  Rtmp, Handled, control_handler, read_chunk_size, read_number, read_set_peer_bandwidth,
}

-- The bounds of `RTMP_CHUNK_SIZE_MINIMUM` and `RTMP_CHUNK_SIZE_MAXIMUM`.
unfoldable pub IsChunkSize : ℕ → Type 0
IsChunkSize n = (64 ≤ n) × (n ≤ 8388608)

-- Whatever control message comes in, a handler that reports success leaves a chunk size within the
-- bounds if it met one within the bounds.
control_handler-IsChunkSize :
    (s : Rtmp) (h : ChunkHeader) (payload : List ℕ) (r : Handled)
    → control_handler s h payload ≡ some r
    → r.result ≢ 0
    → IsChunkSize s.in_chunk_size
    → IsChunkSize r.rtmp.in_chunk_size
unfolding control_handler read_chunk_size read_number read_set_peer_bandwidth IsChunkSize
control_handler-IsChunkSize s h payload r e n v = ground arith
