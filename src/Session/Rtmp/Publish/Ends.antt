-- ===== src/Session/Rtmp/Publish/Ends.antt =====
-- The publisher of an RTMP connection always ends (src/session/rtmp/publish_session.cc), and its lifecycle hears of it.
use seastar_live.Prelude.{◌≡◌, true, Option, some, List, [], ◌∷◌, ◌++◌}
use Prim.Native.String.{String}
use seastar_live.Session.Impl.{Report}
use seastar_live.Session.Rtmp.Publish.{RtmpPublisher}
use seastar_live.Session.Rtmp.Publish.Starts.{ReadResult, finished_with, then_terminate}

module _ {F : Type 0} where
  -- What the lifecycle has heard, while it is there.
  Heard : List Report → RtmpPublisher F → Type 0
  Heard rs p = (p.base.impl.reports ≡ rs) × (p.base.impl.has_lifecycle ≡ true)

  module _ (error_text : String) where
    -- After the packets, the publisher terminates whatever the ending.
    Told : List Report → Option (ReadResult × RtmpPublisher F) → Type 0
    unfolding then_terminate
    Told rs o =
        (r : Report) × (q : RtmpPublisher F) × (then_terminate error_text
            (finished_with error_text o)
          ≡ some q)
        × (q.base.impl.reports ≡ rs ++ r ∷ [])
        × (q.base.subscribers ≡ [])
        × (q.rtmp_subscribers ≡ [])
