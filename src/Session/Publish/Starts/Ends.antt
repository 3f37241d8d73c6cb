-- ===== src/Session/Publish/Starts/Ends.antt =====
-- The end of a publisher that reads its stream (src/session/publish_session.cc): it always terminates,
-- and its lifecycle hears how.
use seastar_live.Prelude.{ℕ, ◌≡◌, Bool, Option, some, List}
use seastar_live.Prelude.Int.{ℤ}
use seastar_live.Frame.{Frame}
use seastar_live.Frame.Gop.{GopQueue}
use seastar_live.Session.Impl.{Report}
use seastar_live.Session.Publish.{PublishSession}
use seastar_live.Session.Publish.Starts.{ReadResult}
use Prim.Native.String.{String}
use seastar_live.Session.Publish.Starts.Sound.{Sound}

module _ {F : Type 0} where
  module _ (accepts : ℕ → Bool) (is_positive : F → Bool) (reaches : ℤ → F → Bool) (max_bytes : ℕ)
      (too_long : GopQueue F → Bool) where
    module _ (error_text : String) where
      ReadEnds : List Report → Option (ReadResult × PublishSession F) → Type 0
      unfolding Sound
      ReadEnds rs o = (res : ReadResult) × (q : PublishSession F) × (o ≡ some (res, q)) × Sound rs q
