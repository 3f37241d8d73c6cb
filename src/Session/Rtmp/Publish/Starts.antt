-- ===== src/Session/Rtmp/Publish/Starts.antt =====
-- start_with of src/session/rtmp/publish_session.cc and of the server's class, which adds the launch and the
-- termination. The stream gives packets and then comes to an `Ending`. `_auto_complete` is true and never set,
-- and `error_text` is what fmt makes of an exception.
use seastar_live.Prelude.{ℕ, Bool, true, false, ◌||◌, Option, none, some, List, if◌then◌else◌}
use Prim.Native.String.{String}
use seastar_live.Prelude.Int.{ℤ}
use seastar_live.Frame.Gop.{GopQueue}
use seastar_live.Session.Impl.{is_complete, on_timeout, on_launch, recv_failed}
use seastar_live.Session.Publish.{PublishSession}
use seastar_live.Session.Publish.Starts.{terminate_publish}
use seastar_live.Session.Rtmp.Publish.{
  RtmpPublisher, PipeState, Packet, Codec, begin_rtmp, end_rtmp, fail_rtmp,
  remove_all_rtmp_subscribers,
}
use seastar_live.Session.Rtmp.Publish.Receive.{read_packets}

pub data Ending : Type 0 where
  eof : Ending
  read_timed_out : Ending
  read_failed : Ending

pub data ReadResult : Type 0 where
  read_ok : ReadResult
  timed_out : ReadResult
  read_error : ReadResult

abbrev pub no_pipe : PipeState
no_pipe = record { meta = none; header_sent = false }

module _ {F : Type 0} where
  abbrev pub by_ending : RtmpPublisher F → Ending → ReadResult × RtmpPublisher F
  by_ending p eof = (read_ok, p)
  by_ending p read_timed_out =
      (timed_out, record p { base = record (p.base) { impl = on_timeout p.base.impl } })
  by_ending p read_failed = (read_error, p)

  -- What the loop does when the packets are read: another read, unless the publisher is complete.
  abbrev pub read_ending :
      Ending → Option (Bool × PipeState × RtmpPublisher F) → Option (ReadResult × RtmpPublisher F)
  read_ending e none = none
  read_ending e (some (false, st, p)) = some (read_error, p)
  read_ending e (some (true, st, p)) =
      some (if is_complete p.base.impl then (read_ok, p) else by_ending p e)

  module _ (error_text : String) where
    -- `then_wrapped`
    unfoldable pub after_packets : ReadResult → RtmpPublisher F → RtmpPublisher F
    unfolding fail_rtmp
    after_packets read_ok p = p
    after_packets timed_out p = p
    after_packets read_error p =
        if p.base.impl.is_failed
        then p
        else fail_rtmp p (record { code = recv_failed; content = error_text })

    -- The first `finally`.
    unfoldable pub finish_packets : RtmpPublisher F → RtmpPublisher F
    unfolding end_rtmp
    finish_packets p =
        if p.base.impl.is_canceled || p.base.impl.is_timeout || p.base.impl.is_failed
        then p
        else end_rtmp p

    abbrev pub finished_with :
        Option (ReadResult × RtmpPublisher F) → Option (ReadResult × RtmpPublisher F)
    finished_with none = none
    finished_with (some (r, p)) = some (r, finish_packets (after_packets r p))

    abbrev pub with_base : RtmpPublisher F → Option (PublishSession F) → Option (RtmpPublisher F)
    with_base p none = none
    with_base p (some b) = some (remove_all_rtmp_subscribers (record p { base = b }))

    -- `on_terminate`; `none` is the failed assertion of the class that it extends.
    unfoldable pub terminate_rtmp : RtmpPublisher F → Option (RtmpPublisher F)
    unfolding terminate_publish remove_all_rtmp_subscribers
    terminate_rtmp p = with_base p (terminate_publish p.base)

    unfoldable pub then_terminate : Option (ReadResult × RtmpPublisher F) → Option (RtmpPublisher F)
    unfolding terminate_rtmp
    then_terminate none = none
    then_terminate (some (r, p)) = terminate_rtmp p

    module _ (is_positive : F → Bool) (reaches : ℤ → F → Bool) (accepts : ℕ → Bool) (max_bytes : ℕ)
        (too_long : GopQueue F → Bool) (max_box : ℕ) (c : Codec) where
      unfoldable pub start_rtmp :
          RtmpPublisher F → List Packet → Ending → Option (ReadResult × RtmpPublisher F)
      unfolding begin_rtmp read_packets
      start_rtmp p pkts e = finished_with (
          read_ending e (
            read_packets is_positive reaches accepts max_bytes too_long max_box c no_pipe
              (begin_rtmp p) pkts))

      -- `svr::publish_session::start_with`
      unfoldable pub serve_rtmp : RtmpPublisher F → List Packet → Ending → Option (RtmpPublisher F)
      unfolding on_launch start_rtmp then_terminate
      serve_rtmp p pkts e =
          then_terminate (
            start_rtmp (record p { base = record (p.base) { impl = on_launch p.base.impl } }) pkts
              e)
