-- ===== src/Session/Play/Limits.antt =====
-- The memory that a player's queue takes (src/session/play_session.cc, src/session/session.hh).
use seastar_live.Prelude.{ℕ, ◌≤◌, ◌≡◌, Bool, false, List, [], ◌∷◌}
use seastar_live.Frame.{Frame}
use seastar_live.Frame.Queue.{FrameQueue}
use seastar_live.Session.Impl.{Status, is_complete}
use seastar_live.Session.Play.{
  PlaySession, not_empty, end_play, cancel_play, fail_play, timeout_play, on_frames,
}

-- What happens to a player between `on_begin` and `on_end`; frames come from its publisher or not.
pub data PlayCall : Type 0 where
  call_frames : Bool → List Frame → PlayCall
  call_end : PlayCall
  call_cancel : PlayCall
  call_fail : Status → PlayCall
  call_timeout : PlayCall
  call_wait : PlayCall

module _ (max_bytes : ℕ) (too_long : FrameQueue → Bool) where
  unfoldable pub play_call : PlaySession → PlayCall → PlaySession
  unfolding on_frames end_play cancel_play fail_play timeout_play not_empty
  play_call p (call_frames from_pub fs) = on_frames max_bytes too_long p from_pub fs
  play_call p call_end = end_play p
  play_call p call_cancel = cancel_play p
  play_call p (call_fail st) = fail_play p st
  play_call p call_timeout = timeout_play p
  play_call p call_wait = record p { flv_queue = not_empty p.flv_queue }

  unfoldable pub play_calls : PlaySession → List PlayCall → PlaySession
  unfolding play_call
  play_calls p [] = p
  play_calls p (c ∷ cs) = play_calls (play_call p c) cs

  Bounded : PlaySession → Type 0
  unfolding is_complete
  Bounded p = is_complete p.impl ≡ false → p.flv_queue.base.bytes ≤ max_bytes
