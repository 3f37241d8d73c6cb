-- ===== src/Session/Rtmp/Publish/Untold.antt =====
-- The subscribers of an RTMP publisher (src/session/rtmp/publish_session.cc) are not told of its end.
use seastar_live.Prelude.{
  ℕ, ◌≡◌, refl, ap, ◌∙◌, inl, inr, true, false, List, [], ◌∷◌, ◌++◌, append-nil, arith, if_keeps,
  Bool-cases,
}
use seastar_live.Session.Impl.{Status, is_complete, _end, _cancel, _fail}
use seastar_live.Session.Publish.{
  PublishSession, SubscriberItem, Notice, done_notice, cancel_notice, fail_notice, notices,
  has_subscriber, for_each_subscriber, end_publish, cancel_publish, fail_publish,
}
use seastar_live.Session.Rtmp.Publish.{
  RtmpPublisher, add_rtmp_subscriber, end_rtmp, cancel_rtmp, fail_rtmp,
}

has_subscriber-append :
    (v : ℕ) (xs : List SubscriberItem)
    → has_subscriber v (xs ++ record { sub = v; receiving = false } ∷ []) ≡ true
unfolding has_subscriber
has_subscriber-append v [] = ground arith
has_subscriber-append v (x ∷ xs) = ground (arith, has_subscriber-append v xs)

module _ {F : Type 0} where
  for_each_none :
      (b : PublishSession F) (n : Notice)
      → b.subscribers ≡ []
      → (for_each_subscriber b n).told ≡ b.told
  unfolding for_each_subscriber
  for_each_none b n e = ap (λ l. b.told ++ notices n l) e ∙ append-nil b.told

  -- A player that subscribes to an RTMP publisher is one of its subscribers, but hears nothing when the publisher
  -- ends, is canceled or fails, if no one subscribed by the method of the class that it extends.
  pub add_rtmp_subscriber_untold :
      (p : RtmpPublisher F) (v : ℕ) (st : Status)
      → p.base.subscribers ≡ []
      → let q = add_rtmp_subscriber p v in
        (has_subscriber v q.rtmp_subscribers ≡ true)
        × ((end_rtmp q).base.told ≡ p.base.told)
        × ((cancel_rtmp q).base.told ≡ p.base.told)
        × ((fail_rtmp q st).base.told ≡ p.base.told)
  unfolding add_rtmp_subscriber end_rtmp cancel_rtmp fail_rtmp end_publish cancel_publish
      fail_publish
  add_rtmp_subscriber_untold p v st e =
      let P : PublishSession F → Type 0 = λ b. b.told ≡ p.base.told in
      let ended : P (end_publish p.base) =
        if_keeps P (is_complete p.base.impl) refl
          (for_each_none (record (p.base) { impl = _end p.base.impl }) done_notice e) in
      let canceled : P (cancel_publish p.base) =
        if_keeps P (is_complete p.base.impl) refl
          (for_each_none (record (p.base) { impl = _cancel p.base.impl }) cancel_notice e) in
      let failed : P (fail_publish p.base st) =
        if_keeps P (is_complete p.base.impl) refl
          (for_each_none (record (p.base) { impl = _fail p.base.impl st }) (fail_notice st) e) in
      elim (Bool-cases (has_subscriber v p.rtmp_subscribers)) [
        | inl h ↦ rw h (h, ended, canceled, failed)
        | inr h ↦ rw h (has_subscriber-append v p.rtmp_subscribers, ended, canceled, failed)
      ]
