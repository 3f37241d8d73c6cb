-- ===== src/Session/Publish/Starts.antt =====
-- src/session/publish_session.cc: start_with, the life of a publisher that reads its stream, and that of
-- the server's class, which adds the launch and the termination. What a read gives is a `Read`; the
-- end of the list of reads is the end of the stream. `read_buffer` is a virtual function that turns
-- bytes into temporary frames, so a read that gives bytes is the frames it made and whether it
-- succeeded. `_auto_complete` is true and never set, and `error_text` is what fmt makes of an exception.
pub mod Sound
pub mod Ends
use seastar_live.Prelude.{
  ℕ, zero, suc, ◌+◌, ◌-◌, ◌*◌, ◌/◌, ◌%◌, ◌^◌, ◌≤◌, ◌<◌, min, ◌≡◌, refl, sym, ap, ap₂, ◌∙◌, ◌≢◌, ◌↔◌,
  ◌⊎◌, inl, inr, Bool, true, false, ◌&&◌, ◌||◌, not, Option, none, some, List, [], ◌∷◌, ◌++◌, map,
  append-nil, append_assoc, arith, ltb, leb, ◌==◌, if◌then◌else◌, ltb→lt, lt→ltb, leb→le, ==_iff,
  tests, Bool-cases, Option-cases, length, get_elem?, set, length-append, get_or, take, drop,
  replicate, take-append-drop,
}
use seastar_live.Prelude.Int.{ℤ}
use seastar_live.Frame.{Frame}
use seastar_live.Frame.Gop.{GopQueue}
use seastar_live.Session.Impl.{
  SessionImpl, Status, is_complete, on_timeout, on_launch, on_terminate, recv_failed,
}
use seastar_live.Session.Publish.{
  PublishSession, begin_publish, fail_publish, end_publish, publish, remove_all_subscribers,
}
use Prim.Native.String.{String}

pub data Read : Type 0 where
  no_bytes : Read
  bytes : Bool → List Frame → Read
  read_timed_out : Read
  read_failed : Read

pub data ReadResult : Type 0 where
  read_ok : ReadResult
  timed_out : ReadResult
  read_error : ReadResult

-- A publisher after it terminates; `none` is the failed assertion of `on_terminate`.
abbrev pub terminated :
    {F : Type 0} → PublishSession F → Option SessionImpl → Option (PublishSession F)
terminated p none = none
terminated p (some s) = some (record p { impl = s; subscribers = [] })

unfoldable pub terminate_publish : {F : Type 0} → PublishSession F → Option (PublishSession F)
unfolding on_terminate
terminate_publish p = terminated p (on_terminate p.impl)

abbrev pub read_result : {F : Type 0} → Bool × PublishSession F → ReadResult × PublishSession F
read_result (true, p) = (read_ok, p)
read_result (false, p) = (read_error, p)

abbrev pub published :
    {F : Type 0} → Option (Bool × PublishSession F) → Option (ReadResult × PublishSession F)
published none = none
published (some p) = some (read_result p)

-- The loop goes on with `k` while reads succeed.
abbrev pub read_next :
    {A : Type 0} → (A → Option (ReadResult × A)) → Option (ReadResult × A) → Option (ReadResult × A)
read_next k none = none
read_next k (some (read_ok, p)) = k p
read_next k (some (timed_out, p)) = some (timed_out, p)
read_next k (some (read_error, p)) = some (read_error, p)

module _ {F : Type 0} (accepts : ℕ → Bool) (is_positive : F → Bool) (reaches : ℤ → F → Bool)
    (max_bytes : ℕ) (too_long : GopQueue F → Bool) (error_text : String) where
  unfoldable pub read_once : PublishSession F → Read → Option (ReadResult × PublishSession F)
  unfolding publish on_timeout
  read_once p no_bytes = some (read_ok, p)
  read_once p (bytes true fs) = published (
      publish accepts is_positive reaches max_bytes too_long
        (record p { temporary_frames = p.temporary_frames ++ fs }))
  read_once p (bytes false fs) =
      some (read_error, record p { temporary_frames = p.temporary_frames ++ fs })
  read_once p read_timed_out = some (timed_out, record p { impl = on_timeout p.impl })
  read_once p read_failed = some (read_error, p)

  unfoldable pub read_all : PublishSession F → List Read → Option (ReadResult × PublishSession F)
  unfolding read_once is_complete
  read_all p [] = some (read_ok, p)
  read_all p (r ∷ rs) =
      let rest = read_next (λ q. read_all q rs) (read_once p r) in
      if is_complete p.impl then some (read_ok, p) else rest

  -- `then_wrapped`
  unfoldable pub after_reads : ReadResult → PublishSession F → PublishSession F
  unfolding fail_publish
  after_reads read_ok p = p
  after_reads timed_out p = p
  after_reads read_error p =
      if p.impl.is_failed
      then p
      else fail_publish p record { code = recv_failed; content = error_text }

  -- The first `finally`; the others close the stream and log.
  unfoldable pub finish_reads : PublishSession F → PublishSession F
  unfolding end_publish
  finish_reads p =
      if p.impl.is_canceled || p.impl.is_timeout || p.impl.is_failed then p else end_publish p

  abbrev pub finished_with :
      Option (ReadResult × PublishSession F) → Option (ReadResult × PublishSession F)
  finished_with none = none
  finished_with (some (r, p)) = some (r, finish_reads (after_reads r p))

  unfoldable pub start_with : PublishSession F → List Read → Option (ReadResult × PublishSession F)
  unfolding begin_publish read_all after_reads finish_reads
  start_with p rs = finished_with (read_all (begin_publish p) rs)

  abbrev pub then_terminate : Option (ReadResult × PublishSession F) → Option (PublishSession F)
  then_terminate none = none
  then_terminate (some (r, p)) = terminate_publish p

  -- `svr::publish_session::start_with`
  unfoldable pub serve : PublishSession F → List Read → Option (PublishSession F)
  unfolding on_launch start_with terminate_publish
  serve p rs = then_terminate (start_with (record p { impl = on_launch p.impl }) rs)
