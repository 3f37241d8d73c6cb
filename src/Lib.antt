-- ===== src/Lib.antt =====
-- seastar-live is a live streaming server: it takes streams over RTMP, keeps the newest groups of pictures of
-- each stream in a cache, and hands them to players, over RTMP and HTTP and as HLS playlists. This library
-- models the server's own frame queues, GOP cache, sessions, HLS playlists, retry policy, session list with
-- the server's handling of publishers and players, RTMP publisher and player, HLS fragments and enumerations,
-- and the two protocol libraries that are built into it and that every RTMP stream passes through: the chunk
-- layer, the control messages and the message dispatch of librtmp, and the tag layer and AMF0 codec of libflv.
--
-- How the parts interact. Bytes from a connection go to `rtmp_chunk_read`, which puts messages together and
-- calls `rtmp_handler`; that sets the connection's fields for control messages, takes aggregates apart and
-- hands audio, video and scripts to the server, which reads them as FLV tags with `flv_parser_tag` and makes
-- frames of them. The publisher's session reads frames in a loop and publishes each: `gop_queue_t::add_frame`
-- caches it in `frame_queue_t` gops, and every subscriber gets it, at its first frame the whole cache. A
-- player's session queues what it gets, up to a limit, and writes it out as FLV or as RTMP packets; an HLS
-- session makes fragments of it, keeps a playlist of them, and tells two tracers of each change, the writer of
-- the .m3u8 file and the cleaner of the fragment files. The server keeps sessions in two `session_list`s,
-- makes them for RTMP requests, and is the lifecycle that hears of their ends: the end of a publisher cancels
-- its players. Towards an RTMP player, FLV tags become RTMP messages, which `rtmp_chunk_write` compresses
-- against the last header of their chunk stream and splits.
--
-- Files and code (paths from the repository's root):
--   Prelude, Prelude/Tests, Lists, Int, Bytes: names and lemmas that all share; Bytes is
--     3rd/librtmp/include/rtmp-util.h.
--   Frame, Frame/Queue, Frame/Gop: src/frame/frame_base.hh, media_base.hh, metadata_base.hh,
--     frame_queue.hh and gop_queue.hh. A method is a function of the object's record to the record
--     afterwards; in Frame/Gop, `close_gop`, `may_pop` and `lead_with` are statements of `add_frame` and
--     `update_gop`, and `clear_gops` and `cached_media_options` are `clear` and `media_options`.
--   Session/Impl, Publish, Play: src/session/session.cc, publish_session.cc with Publish/Starts for its
--     `start_with`, and play_session.cc with async_frame_queue_t of src/frame/frame_queue.hh. A virtual
--     hook such as `on_cancel` is in the function of the class that overrides it: `cancel_publish`,
--     `cancel_play`.
--   Session/Rtmp/Publish, with Receive and Starts, and Session/Rtmp/Play: src/session/rtmp/publish_session.cc and
--     play_session.cc. Methods that have the name of one of the class they extend carry `rtmp` in their names,
--     `on_frame` of the player is `on_play_frame`; the metadata, tag and AMF parsers of src/flv are a
--     `Codec`, the makers of tags a `Tags`.
--   Hls/Fragments and Hls/Fragments/Write: src/session/hls/play_session_v3.cc, with the MPEG-TS library a `Muxer`.
--   Hls/Playlist, Writer, Cleaner, Session: src/hls/object.hh, m3u8.cc, file_clean.cc, and
--     src/session/hls/play_session.cc; Writer/Content is the text of a playlist file and Writer/Clock the
--     copies for each second.
--   Retry: src/util/retry_mode.cc and retry_runner.cc. Server/SessionList: session_list of
--     src/server/transmition.cc; Server/Transmition and Finders: transmition of that file; Server/Transmition/
--     Routes: its makers of sessions, src/server/rtmp/route_handler.cc and routes::handle of
--     src/rtmp/routes.cc. Enums: src/util/enums.hh and enums.cc.
--   Rtmp/ChunkHeader, Packet, ChunkWrite, ChunkRead, Control, Handler: 3rd/librtmp/source/
--     rtmp-chunk-header.c, rtmp-chunk-write.c, rtmp-chunk-read.c, rtmp-control-message.c, rtmp-event.c,
--     rtmp-control-handler.c and rtmp-handler.c, without the prefix `rtmp_`.
--   Flv/Header, Parser, File, Amf0: 3rd/libflv/source/flv-header.c, flv-parser.c, flv-reader.c,
--     flv-writer.c and amf0.c, without the prefix `flv_` or `AMF`.
-- The child modules of these files hold the proofs; each Tests module runs the code on concrete data.
--
-- How the code is read:
--   A pointer into a buffer is the list of the bytes from it on, and a read past the end is `none`; a
--     failed assertion that guards a pointer, or that ends a session, is `none` as well, while `assert` is
--     otherwise empty, as in a release build.
--   A shared pointer to an object that others compare or keep is the identity of the object, a number,
--     and a heap says what the object holds.
--   Unsigned numbers are natural numbers with the wrap-around written out; the int64_t times of frames
--     are integers, and their differences are taken to be in range.
--   Function pointers act on a state of any type; floats are a type with the tests that the code
--     makes on them; a struct that starts uninitialised is an argument; the file system, the clock and a
--     function that is retried are arguments that say what they answer.
--   A future that fails is a `false` or a result beside the state; what the code does while it waits for
--     one is run before the next call. The methods that hold a mutex throughout are atomic.
--   Packets of librtmp are found by their index in the array of 8.
--
-- Fuel. `update_gop` calls itself with one gop less each time and needs none. The loop of `add_play_item`
-- removes an item in each turn, so the length of the playlist is enough; the loop of a retry runner makes
-- as many turns as tries are left, and one more. The chunk writer needs as
-- many rounds as the payload has bytes; the lookup of a chunk stream makes 8 rounds, as the code does; an
-- aggregate takes 15 bytes or more in each round, so its length is enough. The chunk reader takes its
-- number of rounds as an argument.
--
-- Not modelled: sockets, HTTP and the RTMP streams of the server (src/rtmp, src/http1, the rest of
-- src/server), start_with of the players, the copies of codec configurations of HLS fragments, the FLV classes
-- (src/flv), settings (src/app), the timeout modes of the retry policy, the RTMP handshake and commands, the
-- FLV muxers and codec configurations, the MPEG-TS, MP4, RTP and RTSP libraries (3rd), CxxUrl, and within the
-- files above the iterators, the printing and the float getters of the queues, the timers that delete files,
-- opening and closing of FLV files, the incremental FLV parser and the AMF0 objects and arrays.
pub mod Prelude
pub mod Frame
pub mod Session
pub mod Hls
pub mod Retry
pub mod Server
pub mod Enums
pub mod Rtmp
pub mod Flv
