-- ===== src/Rtmp/ChunkRead/Bounds/Loop.antt =====
-- The bounds of the reader's buffers over all rounds of `rtmp_chunk_read`
-- (3rd/librtmp/source/rtmp-chunk-read.c).
use seastar_live.Rtmp.ChunkHeader.{ChunkHeader}
use seastar_live.Rtmp.Control.{Rtmp}
